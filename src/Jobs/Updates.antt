-- ===== src/Jobs/Updates.antt =====
-- UPDATE statements keep the primary keys and the unique keys apart, and sound rows sound.
use skill_kernel.Base.{
  Bool, true, List, [], ◌∷◌, map, ◌≡◌, refl, ◌≢◌, inl, inr, ◌==◌, if◌then◌else◌, All, In, here,
  there, Apart, All-In, All-map, Apart-map, Bool-cases, sym, ==_refl, ==_ne,
}
use skill_kernel.Jobs.Types.{Job}
use skill_kernel.Jobs.Claim.{update_where}
use skill_kernel.Jobs.Rows.{JobIsValid, Differ}

abbrev pub RowsAreValid : List Job → Type 0
RowsAreValid jobs = All JobIsValid jobs × Apart Differ jobs

-- A row update that leaves the keys alone.
abbrev pub KeepsKeys : (Job → Job) → Type 0
KeepsKeys f =
    (j : Job)
    → ((f j).job_id ≡ j.job_id)
      × ((f j).workspace_id ≡ j.workspace_id)
      × ((f j).idempotency_key ≡ j.idempotency_key)

Differ-KeepsKeys : (f : Job → Job) → KeepsKeys f → (a b : Job) → Differ a b → Differ (f a) (f b)
Differ-KeepsKeys f keeps a b h = (
  λ e. h.0 (cc ((keeps a).0, (keeps b).0)),
  rw ((keeps a).1, (keeps a).2, (keeps b).1, (keeps b).2) h.1,
)

pub map-RowsAreValid :
    (f : Job → Job)
    → KeepsKeys f
    → ((j : Job) → JobIsValid j → JobIsValid (f j))
    → (jobs : List Job) → RowsAreValid jobs
    → RowsAreValid (map f jobs)
map-RowsAreValid f keeps sound jobs h = (
  All-map JobIsValid JobIsValid f sound jobs h.0,
  Apart-map Differ f (Differ-KeepsKeys f keeps) jobs h.1,
)

module _ (P : Job → Type 0) (c : Job) (f : Job → Job) where
  abbrev updated : Job → Job
  updated j = if j.job_id == c.job_id then f j else j

  updated_other : (j : Job) → j.job_id ≢ c.job_id → P j → P (updated j)
  updated_other j ne h = rw (==_ne j.job_id c.job_id ne) h

  updated_others : (jobs : List Job) → All (Differ c) jobs → All P jobs → All P (map updated jobs)
  updated_others [] apart h = tt
  updated_others (j ∷ js) apart h =
      (updated_other j (λ e. apart.0.0 (sym e)) h.0, updated_others js apart.1 h.1)

  -- In tables with distinct keys an UPDATE by primary key changes the one row.
  update_where-All :
      P (f c)
      → (jobs : List Job) → In c jobs
      → Apart Differ jobs
      → All P jobs
      → All P (update_where (λ j. j.job_id == c.job_id) f jobs)
  update_where-All new [] m apart h = elim m [ ]
  update_where-All new (j ∷ js) here apart h =
      (rw (==_refl c.job_id) new, updated_others js apart.0 h.1)
  update_where-All new (j ∷ js) (there m) apart h =
      (updated_other j (All-In (Differ j) m apart.0).0 h.0, update_where-All new js m apart.1 h.1)

pub update_where-KeepsKeys :
    (p : Job → Bool) (f : Job → Job) → KeepsKeys f → KeepsKeys (λ j. if p j then f j else j)
update_where-KeepsKeys p f keeps j = elim (Bool-cases (p j)) [
  | inl t ↦ rw t (keeps j)
  | inr t ↦ rw t (refl, refl, refl)
]

-- An UPDATE by primary key.
pub update_row-RowsAreValid :
    (c : Job) (f : Job → Job) (jobs : List Job)
    → KeepsKeys f
    → In c jobs
    → JobIsValid (f c)
    → RowsAreValid jobs
    → RowsAreValid (update_where (λ j. j.job_id == c.job_id) f jobs)
update_row-RowsAreValid c f jobs keeps m new h = (
  update_where-All JobIsValid c f new jobs m h.1 h.0,
  Apart-map Differ (λ j. if j.job_id == c.job_id then f j else j)
      (Differ-KeepsKeys (λ j. if j.job_id == c.job_id then f j else j)
        (update_where-KeepsKeys (λ j. j.job_id == c.job_id) f keeps))
      jobs h.1,
)

-- An UPDATE whose condition makes the new row sound.
pub update_where-RowsAreValid :
    (p : Job → Bool) (f : Job → Job) (jobs : List Job)
    → KeepsKeys f
    → ((j : Job) → JobIsValid j → p j ≡ true → JobIsValid (f j))
    → RowsAreValid jobs
    → RowsAreValid (update_where p f jobs)
update_where-RowsAreValid p f jobs keeps sound h =
    map-RowsAreValid (λ j. if p j then f j else j) (update_where-KeepsKeys p f keeps)
      (λ j v. elim (Bool-cases (p j)) [ inl t ↦ rw t (sound j v t) | inr t ↦ rw t v ]) jobs h
