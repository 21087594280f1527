-- ===== src/Redaction/Redact.antt =====
-- sidecar/autoskill/core/redaction.py: `redact_text`, `redact_payload` and `_redact_content`.
use Prim.Native.String.{◌++◌ as append_text}
use skill_kernel.Base.{
  ℕ, String, str_eq, Bool, true, false, not, ◌&&◌, List, [], ◌∷◌, any, Json, Items, Fields, null,
  boolean, integer, real, str, array, object, nil, item, end, field,
}

-- What the modules `re` and `json` and the type `str` do with a text: the substitution by each of
-- SECRET_VALUE_PATTERNS in turn and by EMAIL_RE, the test SECRET_KEY_RE, the text without what is
-- no letter or digit, `lower`, the length of a value's JSON, the decimal digits of a number.
pub record Texts : Type 0 where
  pub sub_secret_values : List (String → String)
  pub sub_email : String → String
  pub is_secret_key : String → Bool
  pub alphanumeric : String → String
  pub lower : String → String
  pub json_length : Json → ℕ
  pub digits : ℕ → String

abbrev pub redacted : String
redacted = "[REDACTED]"

-- `CONTENT_KEY_NAMES`
abbrev pub content_key_names : List String
content_key_names =
    "body" ∷ "completion" ∷ "content" ∷ "conversation" ∷ "input" ∷ "message" ∷ "messages" ∷ "output"
    ∷ "prompt" ∷ "rawconversation" ∷ "response" ∷ "result" ∷ "systemprompt" ∷ "text" ∷ []

-- `CONTENT_METADATA_KEYS`
abbrev pub content_metadata_keys : List String
content_metadata_keys = "id" ∷ "index" ∷ "name" ∷ "provider" ∷ "role" ∷ "type" ∷ []

abbrev each : List (String → String) → String → String
each [] value = value
each (sub ∷ subs) value = each subs (sub value)

-- The branches of `redact_payload` on a field: its key is secret, its content is to be hidden.
abbrev pub new_value : Bool → Bool → Json → Json → Json
new_value true hidden content payload = str redacted
new_value false true content payload = content
new_value false false content payload = payload

-- The branches of `_redact_content` on a field: its key names metadata, its key names content.
abbrev pub new_content : Bool → Bool → Json → Json → Json
new_content true named content payload = payload
new_content false true content payload = content
new_content false false content payload = payload

module _ (texts : Texts) where
  unfoldable pub redact_text : String → String
  redact_text value = texts.sub_email (each texts.sub_secret_values value)

  unfoldable pub content_key_name : String → String
  content_key_name key = texts.lower (texts.alphanumeric key)

  unfoldable pub is_content_key : String → Bool
  unfolding content_key_name
  is_content_key key = any (str_eq (content_key_name key)) content_key_names

  unfoldable pub is_metadata_key : String → Bool
  unfolding content_key_name
  is_metadata_key key = any (str_eq (content_key_name key)) content_metadata_keys

  -- `f"[REDACTED_CONTENT bytes={_content_size(value)}]"`
  unfoldable pub content_marker : Json → Json
  content_marker value = str (
      append_text "[REDACTED_CONTENT bytes="
        (append_text (texts.digits (texts.json_length value)) "]"))

  unfoldable mutual
    pub redact_payload : Bool → Json → Json
    redact_payload capture (str s) = str (redact_text s)
    redact_payload capture (object fs) = object (redact_fields capture fs)
    redact_payload capture (array xs) = array (redact_items capture xs)
    redact_payload capture null = null
    redact_payload capture (boolean b) = boolean b
    redact_payload capture (integer n) = integer n
    redact_payload capture (real x) = real x

    pub redact_items : Bool → Items → Items
    redact_items capture nil = nil
    redact_items capture (item v xs) = item (redact_payload capture v) (redact_items capture xs)

    pub redact_fields : Bool → Fields → Fields
    redact_fields capture end = end
    redact_fields capture (field key v fs) =
        field key
          (new_value (texts.is_secret_key key) (not capture && is_content_key key)
            (redact_content v) (redact_payload capture v))
          (redact_fields capture fs)

    pub redact_content : Json → Json
    redact_content null = null
    redact_content (object fs) = object (content_fields fs)
    redact_content (array xs) = array (content_items xs)
    redact_content (str s) = content_marker (str s)
    redact_content (boolean b) = content_marker (boolean b)
    redact_content (integer n) = content_marker (integer n)
    redact_content (real x) = content_marker (real x)

    pub content_items : Items → Items
    content_items nil = nil
    content_items (item v xs) = item (redact_content v) (content_items xs)

    pub content_fields : Fields → Fields
    content_fields end = end
    content_fields (field key v fs) =
        field key
          (new_content (is_metadata_key key) (is_content_key key) (redact_content v)
            (redact_payload false v))
          (content_fields fs)
