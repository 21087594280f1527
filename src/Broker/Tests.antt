-- ===== src/Broker/Tests.antt =====
-- A broker with one skill, and the theorems at it.
use skill_kernel.Base.{
  ℕ, String, str_eq, false, List, [], ◌∷◌, none, some, ◌≡◌, ◌≢◌, refl, ◌⊎◌, ◌+◌, leb, ltb, ◌-◌, ◌*◌,
  ◌/◌, if◌then◌else◌, length, In, here, All, Apart, Json, Float, end, field, str, pos, pos_part,
  raised, returned, value_error, overflow_error, key_error, ℤ, Bool-cases, inl, inr, strip, lstrip,
  rstrip, Fields, true,
}
use skill_kernel.Evaluator.Runtime.{Runtime}
use skill_kernel.Broker.Types.{
  Formats, RetrievalCandidate, BrokerPolicy, ContextHintRequest, no_skill, suppressed,
  policy_response,
}
use skill_kernel.Broker.Select.{
  skill_ids_of, verdict, skill_verdict, select_from, select_skill_candidates,
}
use skill_kernel.Broker.Policies.{
  broker_part, has_overflow, IsNumeric, InBounds, from_artifact, from_artifact-bounds,
}
use skill_kernel.Broker.Selection.{IsRuntimeSkill, select_skill_candidates-split}
use skill_kernel.Broker.Cache.{CacheKey, same_key, key, with_status, cache_get, cache_set}
use skill_kernel.Broker.Hint.{Stores}
use skill_kernel.Broker.Serve.{build_context_hint}
use skill_kernel.Broker.Serving.{IsSafe, build_context_hint-IsSafe}
use skill_kernel.Broker.Memories.{IsRefused, build_context_hint-memory}
use skill_kernel.Broker.Caching.{cache_get-cache_set}

abbrev float : ℕ → Float
float n = record { code = n }

abbrev text_of : Json → String
text_of (str s) = s
text_of v = "other"

abbrev runtime : Runtime
runtime = record {
  str_of = text_of;
  lower = λ s. s;
  chars = λ s. [];
  contains = λ part s. str_eq part s;
  is_zero = λ x. ltb x.code 1;
  float_of_text = λ s. none;
  float_of_int = λ n.
      if ltb (pos_part n) 1_000_000
      then returned (float (pos_part n * 1000))
      else raised overflow_error;
  int_of_text = λ s. raised value_error;
  int_of_float = λ x. returned (pos (x.code / 1000));
  add = λ x y. float (x.code + y.code);
  sub = λ x y. float (x.code - y.code);
  mul = λ x y. float (x.code * y.code / 1000);
  div = λ x y. float (x.code * 1000 / y.code);
  less = λ x y. ltb x.code y.code;
  at_most = λ x y. leb x.code y.code;
  sum = λ xs. float 0;
  round6 = λ x. x;
  milli = float;
  matcher = record {
    search = λ p text. false;
    sub = λ p by text. text;
    has_bidi_control = λ text. false;
    has_format_control = λ text. false;
  };
}

abbrev formats : Formats
formats = record { uuid_of = λ s. none; show_uuid = λ i. "id"; found_terms = λ s. s ∷ [] }

abbrev document : ℕ → ℕ → String → RetrievalCandidate
document id skill state = record {
  object_type = "body_index_document";
  object_id = id;
  skill_id = some skill;
  summary = "rotates logs";
  rank = float 500;
  metadata = field "secret_scan_status" (str "passed") (field "lifecycle_state" (str state) end);
}

abbrev found : List RetrievalCandidate
found = document 1 7 "active" ∷ document 2 8 "frozen" ∷ document 3 7 "active" ∷ []

abbrev stores : Stores
stores = record {
  lexical_query = λ request query limit. record { candidates = found; log_id = some 3 };
  semantic_query = none;
  expand_skill_graph = λ workspace ids kinds limit. [];
  list_statuses = none;
  memory_status = some (λ i. none);
}

abbrev policy : BrokerPolicy
policy = record {
  version = "bootstrap.v1";
  broker_policy_version_id = none;
  lexical_limit = 8;
  semantic_limit = 8;
  graph_edge_kinds = [];
  graph_limit = 12;
  max_rendered_skills = 4;
  canary_sample_rate = float 0;
  replay_tags = [];
}

abbrev asking : List ℕ → ContextHintRequest
asking memories = record {
  workspace_id = "home";
  executor_profile_id = none;
  memory_influence_ids = memories;
  user_intent = some "logs";
  max_tokens = 600;
}

-- The frozen skill and the second document of the other are suppressed.
one_selected : skill_ids_of (select_skill_candidates runtime found).selected ≡ 7 ∷ []
unfolding select_skill_candidates select_from verdict skill_verdict
one_selected = refl

select_skill_candidates-split_example :
    let s = select_skill_candidates runtime found in
    All (IsRuntimeSkill runtime) s.selected
    × Apart (λ i j. ◌≢◌ i j) (skill_ids_of s.selected)
    × ((c : RetrievalCandidate)
        → In c found
        → In c s.selected ⊎ ((reason : String) × In (suppressed c reason) s.suppressed_of))
    × (length found ≡ length s.selected + length s.suppressed_of)
select_skill_candidates-split_example = select_skill_candidates-split runtime found

abbrev asked_key : CacheKey
asked_key = key formats.show_uuid runtime.lower (asking []) "logs" policy

-- The broker was called with these stores and this policy only.
abbrev Asked : Stores → BrokerPolicy → Type 0
Asked s p = (s ≡ stores) × (p ≡ policy)

build_context_hint-IsSafe_example :
    IsSafe runtime formats Asked asked_key
      (build_context_hint runtime formats stores policy 30 100 101 (asking []) (some []))
unfolding strip lstrip rstrip
build_context_hint-IsSafe_example =
    build_context_hint-IsSafe runtime formats Asked stores policy (refl, refl) 30 100 101
      (asking []) [] tt

build_context_hint-memory_example :
    let served =
      build_context_hint runtime formats stores policy 30 100 101 (asking (5 ∷ [])) (some []) in
    IsRefused stores.memory_status policy served.response served.calls
    × (served.response.skill_ids ≡ [])
    × (served.response.hint ≡ "")
    × (served.response.retrieval_log_id ≡ none)
    × (served.cache ≡ some [])
unfolding strip lstrip rstrip
build_context_hint-memory_example =
    build_context_hint-memory runtime formats stores policy 30 100 101 (asking (5 ∷ [])) (some []) 5
      refl here refl

cache_get-cache_set_example :
    (cache_get 120 asked_key
      (cache_set 30 100 asked_key (policy_response policy no_skill "retrieval-empty") [])).0
    ≡ (if same_key asked_key asked_key
        then (if leb (100 + 30) 120
            then none
            else some (with_status "cache-hit" (policy_response policy no_skill "retrieval-empty")))
        else (cache_get 120 asked_key []).0)
cache_get-cache_set_example =
    cache_get-cache_set 30 100 120 asked_key asked_key
      (policy_response policy no_skill "retrieval-empty") []

abbrev artifact : Fields
artifact = field "lexical_limit" (str "many") end

int_of_runtime : (n : ℤ) → runtime.float_of_int n ≢ raised key_error
int_of_runtime n = elim (Bool-cases (ltb (pos_part n) 1_000_000)) [
  | inl small ↦ λ e. let f = rw small at e in cc
  | inr large ↦ λ e. let f = rw large at e in cc
]

runtime-IsNumeric : IsNumeric runtime
runtime-IsNumeric = (λ s e. cc, λ x e. cc, int_of_runtime)

from_artifact-bounds_example :
    (has_overflow runtime (broker_part artifact) ≡ true)
      × (from_artifact runtime "v2" artifact none ≡ raised overflow_error)
    ⊎ (has_overflow runtime (broker_part artifact) ≡ false)
      × ((p : BrokerPolicy) × (from_artifact runtime "v2" artifact none ≡ returned p)
          × InBounds runtime p)
from_artifact-bounds_example = from_artifact-bounds runtime "v2" artifact none runtime-IsNumeric
