-- ===== src/Broker/Cache.antt =====
-- `ContextHintCache` of sidecar/autoskill/services/broker.py. Instants are numbers, and each call is
-- given the one that `monotonic()` reads.
use skill_kernel.Base.{
  ℕ, String, str_eq, Bool, true, not, ◌&&◌, List, [], ◌∷◌, ◌++◌, Option, none, some, ◌==◌, ◌+◌, leb,
  max, if◌then◌else◌, any, find?, filterb, is_empty, length,
}
use skill_kernel.Broker.Types.{BrokerPolicy, ContextHintRequest, ContextHintResponse}

-- The tuple of `_key`.
pub record CacheKey : Type 0 where
  pub workspace_id : String
  pub executor_profile_id : String
  pub query : String
  pub max_tokens : ℕ
  pub policy_key : String

pub record CachedContextHint : Type 0 where
  pub key_of : CacheKey
  pub expires_at : ℕ
  pub response : ContextHintResponse

unfoldable pub same_key : CacheKey → CacheKey → Bool
same_key a b =
    str_eq a.workspace_id b.workspace_id
    && (str_eq a.executor_profile_id b.executor_profile_id
        && (str_eq a.query b.query
            && (a.max_tokens == b.max_tokens && str_eq a.policy_key b.policy_key)))

-- `_policy_cache_key`
unfoldable pub policy_cache_key : (ℕ → String) → BrokerPolicy → String
policy_cache_key show_uuid policy = elim policy.broker_policy_version_id [
  | none ↦ policy.version
  | some i ↦ show_uuid i
]

-- `_key`, with the format of a UUID and the method `lower` of texts.
unfoldable pub key :
    (ℕ → String) → (String → String) → ContextHintRequest → String → BrokerPolicy → CacheKey
key show_uuid lower request query policy = record {
  workspace_id = request.workspace_id;
  executor_profile_id = elim request.executor_profile_id [ none ↦ "" | some i ↦ show_uuid i ];
  query = lower query;
  max_tokens = max 1 request.max_tokens;
  policy_key = policy_cache_key show_uuid policy;
}

-- `model_copy(update={"cache_status": status})`
abbrev pub with_status : String → ContextHintResponse → ContextHintResponse
with_status status r = record r { cache_status = status }

abbrev pub is_under : CacheKey → CachedContextHint → Bool
is_under k e = same_key k e.key_of

-- `self._entries.pop(key, None)`
abbrev pub pop : CacheKey → List CachedContextHint → List CachedContextHint
pop k entries = filterb (λ e. not (is_under k e)) entries

unfoldable pub cache_get :
    ℕ → CacheKey → List CachedContextHint → Option ContextHintResponse × List CachedContextHint
cache_get now k entries = elim (find? (is_under k) entries) [
  | none ↦ (none, entries)
  | some e ↦
      if leb e.expires_at now
      then (none, pop k entries)
      else (some (with_status "cache-hit" e.response), entries)
]

unfoldable pub cache_set :
    ℕ → ℕ → CacheKey → ContextHintResponse → List CachedContextHint → List CachedContextHint
cache_set ttl_seconds now k response entries =
    pop k entries
    ++ record {
      key_of = k;
      expires_at = now + ttl_seconds;
      response = with_status "cache-fill" response;
    }
      ∷ []

-- The entry is one that `invalidate` removes.
abbrev pub is_named : Option String → List ℕ → CachedContextHint → Bool
is_named workspace_id skill_ids e =
    elim workspace_id [ none ↦ true | some w ↦ str_eq e.key_of.workspace_id w ]
    && (if is_empty skill_ids
        then true
        else any (λ i. any (λ j. i == j) e.response.skill_ids) skill_ids)

unfoldable pub invalidate :
    Option String → List ℕ → List CachedContextHint → ℕ × List CachedContextHint
invalidate workspace_id skill_ids entries = (
  length (filterb (is_named workspace_id skill_ids) entries),
  filterb (λ e. not (is_named workspace_id skill_ids e)) entries,
)
