-- ===== src/Broker/Types.antt =====
-- The requests, the candidates and the responses of sidecar/autoskill/services/broker.py.
use skill_kernel.Base.{
  ℕ, String, str_eq, List, [], Option, none, if◌then◌else◌, Json, Fields, Float, end, field,
}

-- What `UUID(text)` reads and how a UUID is formatted, and `re.findall` of the words of a text.
pub record Formats : Type 0 where
  pub uuid_of : String → Option ℕ
  pub show_uuid : ℕ → String
  pub found_terms : String → List String

pub record RetrievalCandidate : Type 0 where
  pub object_type : String
  pub object_id : ℕ
  pub skill_id : Option ℕ
  pub summary : String
  pub rank : Float
  pub metadata : Fields

pub record BrokerPolicy : Type 0 where
  pub version : String
  pub broker_policy_version_id : Option ℕ
  pub lexical_limit : ℕ
  pub semantic_limit : ℕ
  pub graph_edge_kinds : List String
  pub graph_limit : ℕ
  pub max_rendered_skills : ℕ
  pub canary_sample_rate : Float
  pub replay_tags : List String

-- The fields that the broker reads.
pub record ContextHintRequest : Type 0 where
  pub workspace_id : String
  pub executor_profile_id : Option ℕ
  pub memory_influence_ids : List ℕ
  pub user_intent : Option String
  pub max_tokens : ℕ

pub data Decision : Type 0 where
  no_skill defer_skill skill_hint : Decision

-- An entry of `suppressed`, with the candidate that it describes.
pub data Suppression : Type 0 where
  suppressed : RetrievalCandidate → String → Suppression
  bundle_blocked : List String → Suppression

-- `_bundle_scan_metadata`, without the hash, the references and the counts; `blocking` is that the
-- status is blocked.
pub record BundleScan : Type 0 where
  pub status : String
  pub selected_skill_ids : List ℕ
  pub finding_codes : List String

pub record ContextHintResponse : Type 0 where
  pub decision : Decision
  pub hint : String
  pub skill_ids : List ℕ
  pub broker_policy_version : String
  pub broker_policy_version_id : Option ℕ
  pub cache_status : String
  pub retrieval_log_id : Option ℕ
  pub suppressed_of : List Suppression
  pub archive_promotion_skill_ids : List ℕ
  pub reason_codes : List String
  pub bundle_scan : Option BundleScan

-- `_policy_response` with no argument but the decision and the status of the cache.
unfoldable pub policy_response : BrokerPolicy → Decision → String → ContextHintResponse
policy_response policy decision status = record {
  decision = decision;
  hint = "";
  skill_ids = [];
  broker_policy_version = policy.version;
  broker_policy_version_id = policy.broker_policy_version_id;
  cache_status = status;
  retrieval_log_id = none;
  suppressed_of = [];
  archive_promotion_skill_ids = [];
  reason_codes = [];
  bundle_scan = none;
}

-- `d.get(key, default)`
abbrev pub get_or : Json → String → Fields → Json
get_or default key end = default
get_or default key (field k v fs) = if str_eq k key then v else get_or default key fs
