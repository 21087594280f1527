-- ===== src/Audit/Order.antt =====
-- The order of the rows of the audit table.
use skill_kernel.Base.{true, false, List, [], ◌∷◌, ◌++◌, ◌≡◌, refl, All, arith}
use skill_kernel.Audit.Store.{AuditRow, is_newer, insert_row, newest_first}

older : (x r : AuditRow) → is_newer r x ≡ true → is_newer x r ≡ false
older x r h = ground arith

-- A row that is newer than all others comes first, and the others keep their places.
pub newest_first-append :
    (rs : List AuditRow) (r : AuditRow)
    → All (λ x. is_newer r x ≡ true) rs
    → newest_first (rs ++ r ∷ []) ≡ r ∷ newest_first rs
unfolding newest_first insert_row
newest_first-append [] r h = refl
newest_first-append (x ∷ xs) r h = rw (newest_first-append xs r h.1, older x r h.0, insert_row) refl
