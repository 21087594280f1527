-- ===== src/Redaction/Secrets.antt =====
-- What redaction hides, and what it lets through.
use skill_kernel.Base.{
  String, Bool, true, false, not, ◌&&◌, ◌≡◌, inl, inr, refl, Bool-cases, Json, Items, Fields, null,
  boolean, integer, real, str, array, object, nil, item, end, field,
}
use skill_kernel.Redaction.Redact.{
  Texts, redacted, new_value, new_content, redact_text, is_content_key, is_metadata_key,
  content_marker, redact_payload, redact_items, redact_fields, redact_content, content_items,
  content_fields,
}

-- The value of a field, by the branch that gave it.
abbrev pub ValueSafe : Bool → Bool → Json → Type 0 → Type 0 → Type 0
ValueSafe true hidden v Opaque_v Safe_v = v ≡ str redacted
ValueSafe false true v Opaque_v Safe_v = Opaque_v
ValueSafe false false v Opaque_v Safe_v = Safe_v

abbrev pub ContentSafe : Bool → Bool → Type 0 → Type 0 → Type 0
ContentSafe true named Opaque_v Safe_v = Safe_v
ContentSafe false true Opaque_v Safe_v = Opaque_v
ContentSafe false false Opaque_v Safe_v = Safe_v

module _ (O S : Json → Type 0) where
  new_value-safe :
      (secret hidden : Bool) (c p : Json)
      → O c
      → S p
      → ValueSafe secret hidden
          (new_value secret hidden c p)
          (O (new_value secret hidden c p))
          (S (new_value secret hidden c p))
  new_value-safe true hidden c p o s = refl
  new_value-safe false true c p o s = o
  new_value-safe false false c p o s = s

  new_content-safe :
      (metadata named : Bool) (c p : Json)
      → O c
      → S p
      → ContentSafe metadata named
          (O (new_content metadata named c p))
          (S (new_content metadata named c p))
  new_content-safe true named c p o s = s
  new_content-safe false true c p o s = o
  new_content-safe false false c p o s = s

module _ (texts : Texts) where
  mutual
    -- No secret key outside of a content has another value than the placeholder, and every text is
    -- redacted; a content that is to be hidden is opaque.
    pub Safe : Bool → Json → Type 0
    Safe capture (str s) = (r : String) × (s ≡ redact_text texts r)
    Safe capture (array xs) = SafeItems capture xs
    Safe capture (object fs) = SafeFields capture fs
    Safe capture _ = Unit

    pub SafeItems : Bool → Items → Type 0
    SafeItems capture nil = Unit
    SafeItems capture (item v xs) = Safe capture v × SafeItems capture xs

    pub SafeFields : Bool → Fields → Type 0
    SafeFields capture end = Unit
    SafeFields capture (field key v fs) =
        ValueSafe (texts.is_secret_key key) (not capture && is_content_key texts key) v (Opaque v)
          (Safe capture v)
        × SafeFields capture fs

    -- None, a marker, or a list or dict of such; beside its content keys a dict has safe values.
    pub Opaque : Json → Type 0
    Opaque null = Unit
    Opaque (array xs) = OpaqueItems xs
    Opaque (object fs) = OpaqueFields fs
    Opaque (str s) = (v : Json) × (str s ≡ content_marker texts v)
    Opaque _ = ⊥

    pub OpaqueItems : Items → Type 0
    OpaqueItems nil = Unit
    OpaqueItems (item v xs) = Opaque v × OpaqueItems xs

    pub OpaqueFields : Fields → Type 0
    OpaqueFields end = Unit
    OpaqueFields (field key v fs) =
        ContentSafe (is_metadata_key texts key) (is_content_key texts key) (Opaque v) (Safe false v)
        × OpaqueFields fs

  mutual
    unfolding redact_payload Safe content_marker

    payload-Safe : (capture : Bool) (v : Json) → Safe capture (redact_payload texts capture v)
    payload-Safe capture (str s) = (s, refl)
    payload-Safe capture (object fs) = fields-Safe capture fs
    payload-Safe capture (array xs) = items-Safe capture xs
    payload-Safe capture null = tt
    payload-Safe capture (boolean b) = tt
    payload-Safe capture (integer n) = tt
    payload-Safe capture (real x) = tt

    items-Safe : (capture : Bool) (xs : Items) → SafeItems capture (redact_items texts capture xs)
    items-Safe capture nil = tt
    items-Safe capture (item v xs) = (payload-Safe capture v, items-Safe capture xs)

    fields-Safe :
        (capture : Bool) (fs : Fields) → SafeFields capture (redact_fields texts capture fs)
    fields-Safe capture end = tt
    fields-Safe capture (field key v fs) = (
      new_value-safe Opaque (Safe capture) (texts.is_secret_key key)
          (not capture && is_content_key texts key) (redact_content texts v)
          (redact_payload texts capture v) (content-Opaque v) (payload-Safe capture v),
      fields-Safe capture fs,
    )

    content-Opaque : (v : Json) → Opaque (redact_content texts v)
    content-Opaque null = tt
    content-Opaque (object fs) = content_fields-Opaque fs
    content-Opaque (array xs) = content_items-Opaque xs
    content-Opaque (str s) = (str s, refl)
    content-Opaque (boolean b) = (boolean b, refl)
    content-Opaque (integer n) = (integer n, refl)
    content-Opaque (real x) = (real x, refl)

    content_items-Opaque : (xs : Items) → OpaqueItems (content_items texts xs)
    content_items-Opaque nil = tt
    content_items-Opaque (item v xs) = (content-Opaque v, content_items-Opaque xs)

    content_fields-Opaque : (fs : Fields) → OpaqueFields (content_fields texts fs)
    content_fields-Opaque end = tt
    content_fields-Opaque (field key v fs) = (
      new_content-safe Opaque (Safe false) (is_metadata_key texts key) (is_content_key texts key)
          (redact_content texts v) (redact_payload texts false v) (content-Opaque v)
          (payload-Safe false v),
      content_fields-Opaque fs,
    )

-- Whatever the payload, outside of its contents: after redaction every key that looks secret has the
-- placeholder as its value, and every text has passed the redaction of texts. Unless raw conversation
-- is captured, a content is hidden: it is None, a size marker, or a list or dict of hidden values. In
-- a hidden dict, the value under a content key is hidden, and the one under a metadata key or under
-- any other key is redacted as outside of a content, whatever it is named: its own name is not tested
-- for looking secret there.
pub redact_payload-Safe :
    (texts : Texts) (capture : Bool) (v : Json)
    → Safe texts capture (redact_payload texts capture v)
redact_payload-Safe texts capture v = payload-Safe texts capture v

-- A secret key is not looked at inside a content: where its value passes the redaction of texts and
-- neither of the keys is another kind of key, the value is kept, although outside of the content it
-- is replaced by the placeholder.
pub redact_payload-leak :
    (texts : Texts) (content secret value : String)
    → texts.is_secret_key secret ≡ true
    → texts.is_secret_key content ≡ false
    → is_content_key texts content ≡ true
    → is_content_key texts secret ≡ false
    → redact_text texts value ≡ value
    → (redact_payload texts false
          (object (field content (object (field secret (str value) end)) end))
        ≡ object (field content (object (field secret (str value) end)) end))
      × (redact_payload texts false (object (field secret (str value) end))
          ≡ object (field secret (str redacted) end))
unfolding redact_payload
redact_payload-leak texts content secret value s c k n kept =
    elim (Bool-cases (is_metadata_key texts secret)) [
      | inl m ↦ (rw (c, k, m, kept), rw s)
      | inr m ↦ (rw (c, k, m, n, kept), rw s)
    ]
