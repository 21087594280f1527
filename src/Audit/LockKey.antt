-- ===== src/Audit/LockKey.antt =====
-- The numbers under which the appends of a workspace lock each other out.
use skill_kernel.Base.{ℕ, ℤ, pos, negsuc, ◌≡◌, ◌↔◌, ◌<◌, ◌-◌, ◌/◌, ◌%◌, ◌^◌, ap, arith, sym, ◌∙◌}
use skill_kernel.Audit.Store.{to_signed_int32, workspace_audit_lock_key}

-- The number fits an argument of type int4.
abbrev pub IsInt32 : ℤ → Type 0
IsInt32 (pos n) = n < 2147483648
IsInt32 (negsuc n) = n < 2147483648

-- The unsigned number with the same 32 bits.
abbrev pub to_unsigned : ℤ → ℕ
to_unsigned (pos n) = n
to_unsigned (negsuc n) = 4294967295 - n

-- Reading a 32-bit number as signed gives a number of that range, and loses nothing: read as
-- unsigned again, it is the same number.
pub to_signed_int32-to_unsigned :
    (v : ℕ) → v < 4294967296 → IsInt32 (to_signed_int32 v) × (to_unsigned (to_signed_int32 v) ≡ v)
unfolding to_signed_int32
to_signed_int32-to_unsigned v h = ground arith

abbrev upper : ℕ → ℕ
upper a = a / 2 ^ 96 % 2 ^ 32

abbrev lower : ℕ → ℕ
lower a = a % 2 ^ 32

below : (a : ℕ) → a % 2 ^ 32 < 4294967296
below a = omega arith

signed_injective :
    (v w : ℕ) → v < 4294967296 → w < 4294967296 → to_signed_int32 v ≡ to_signed_int32 w → v ≡ w
signed_injective v w h k e =
    sym (to_signed_int32-to_unsigned v h).1 ∙ ap to_unsigned e ∙ (to_signed_int32-to_unsigned w k).1

-- The two parts of a lock key fit the arguments of pg_advisory_xact_lock, and two workspaces have
-- the same lock key exactly if their identifiers agree in the upper and in the lower 32 bits: a
-- workspace is always locked under one key, and others may share it.
pub workspace_audit_lock_key_iff :
    (a b : ℕ)
    → IsInt32 (workspace_audit_lock_key a).0
      × IsInt32 (workspace_audit_lock_key a).1
      × ((workspace_audit_lock_key a ≡ workspace_audit_lock_key b)
          ↔ ((a / 2 ^ 96 % 2 ^ 32 ≡ b / 2 ^ 96 % 2 ^ 32) × (a % 2 ^ 32 ≡ b % 2 ^ 32)))
unfolding workspace_audit_lock_key
workspace_audit_lock_key_iff a b = (
  (to_signed_int32-to_unsigned (upper a) (below (a / 2 ^ 96))).0,
  (to_signed_int32-to_unsigned (lower a) (below a)).0,
  (
    λ same. (
      signed_injective (upper a) (upper b) (below (a / 2 ^ 96)) (below (b / 2 ^ 96))
          (ap (λ k. k.0) same),
      signed_injective (lower a) (lower b) (below a) (below b) (ap (λ k. k.1) same),
    ),
    λ same. cc (same.0, same.1),
  ),
)
