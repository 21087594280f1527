-- ===== src/Redaction/Tests.antt =====
-- Redaction of a small payload, and the theorems at it.
use skill_kernel.Base.{str_eq, false, [], ◌≡◌, refl, Json, null, str, object, end, field}
use skill_kernel.Redaction.Redact.{
  Texts, redacted, redact_payload, redact_text, is_content_key, content_key_name, content_marker,
  is_metadata_key,
}
use skill_kernel.Redaction.Secrets.{Safe, redact_payload-Safe, redact_payload-leak}

abbrev texts : Texts
texts = record {
  sub_secret_values = [];
  sub_email = λ s. s;
  is_secret_key = λ key. str_eq key "password";
  alphanumeric = λ s. s;
  lower = λ s. s;
  json_length = λ v. 9;
  digits = λ n. "9";
}

abbrev payload : Json
payload = object (
    field "password" (str "hunter2")
      (field "prompt" (str "tell me") (field "role" (str "user") (field "id" null end))))

test_redact_payload :
    redact_payload texts false payload
    ≡ object (
        field "password" (str "[REDACTED]") (
          field "prompt"
            (str "[REDACTED_CONTENT bytes=9]")
            (field "role" (str "user") (field "id" null end))))
unfolding redact_payload redact_text is_content_key content_key_name content_marker is_metadata_key
test_redact_payload = refl

redact_payload-Safe_example : Safe texts false (redact_payload texts false payload)
redact_payload-Safe_example = redact_payload-Safe texts false payload

redact_payload-leak_example :
    (redact_payload texts false
        (object (field "content" (object (field "password" (str "hunter2") end)) end))
      ≡ object (field "content" (object (field "password" (str "hunter2") end)) end))
    × (redact_payload texts false (object (field "password" (str "hunter2") end))
        ≡ object (field "password" (str redacted) end))
unfolding redact_text is_content_key content_key_name
redact_payload-leak_example =
    redact_payload-leak texts "content" "password" "hunter2" refl refl refl refl refl
