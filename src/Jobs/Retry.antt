-- ===== src/Jobs/Retry.antt =====
-- Completion: the retry delay, the final states, and the overflow of the delay.
use native.Mathlib.Nat.{pow-le-pow_right}
use skill_kernel.Base.{
  ℕ, ◌-◌, ◌*◌, ◌^◌, ◌≤◌, ◌<◌, String, Bool, true, List, [], ◌∷◌, map, Option, some, ◌≡◌, arith,
  if◌then◌else◌, find?, find?-unique, In, here, there, sym, ◌∙◌, subst, le→leb,
}
use skill_kernel.Jobs.Types.{int4_max, Job, Db, DbError, commit, abort}
use skill_kernel.Jobs.Claim.{update_where, workspace_key_of}
use skill_kernel.Jobs.Complete.{
  Outcome, holds, backoff_cast, close_attempt, next_available, finish, complete_job,
}
use skill_kernel.Jobs.Invariant.{IsValid}
use skill_kernel.Jobs.Leases.{In-job_id}

-- 30 * 2 ^ 26 is the largest delay that fits.
pub backoff_fits : (n : ℕ) → n ≤ 27 → 30 * 2 ^ (n - 1) ≤ int4_max
backoff_fits n h =
    let p : 2 ^ (n - 1) ≤ 2 ^ 26 =
      pow-le-pow_right (omega arith) {i = n - 1} {j = 26} (omega arith) in
    omega arith

pub backoff_overflows : (n : ℕ) → 28 ≤ n → int4_max < 30 * 2 ^ (n - 1)
backoff_overflows n h =
    let p : 2 ^ 27 ≤ 2 ^ (n - 1) =
      pow-le-pow_right (omega arith) {i = 27} {j = n - 1} (omega arith) in
    omega arith

pub backoff_cast_fits : (n : ℕ) → n ≤ 27 → backoff_cast n ≡ commit (30 * 2 ^ (n - 1))
unfolding backoff_cast
backoff_cast_fits n h = rw (le→leb (30 * 2 ^ (n - 1)) int4_max (backoff_fits n h))

pub backoff_cast_overflows : (n : ℕ) → 28 ≤ n → backoff_cast n ≡ abort DbError.integer_out_of_range
unfolding backoff_cast
backoff_cast_overflows n h = ground (arith, backoff_overflows n h)

one_le_pow : (n : ℕ) → 1 ≤ 2 ^ n
one_le_pow n = pow-le-pow_right {n = 2} (omega arith) {i = 0} {j = n} (omega arith)

holds-job_id : (id : ℕ) (worker : String) (j : Job) → holds id worker j ≡ true → j.job_id ≡ id
unfolding holds
holds-job_id id worker j t = ground arith

In-update_where_self :
    (p : Job → Bool) (f : Job → Job) {j : Job} {jobs : List Job}
    → p j ≡ true
    → In j jobs
    → In (f j) (update_where p f jobs)
In-update_where_self p f {jobs = []} t m = elim m [ ]
In-update_where_self p f {j} {jobs = k ∷ ks} t here =
    let e : (if p j then f j else j) ≡ f j = rw t in
    subst (λ a. In a ((if p j then f j else j) ∷ update_where p f ks)) e here
In-update_where_self p f {jobs = k ∷ ks} t (there m) = there (In-update_where_self p f t m)

-- The one row that a worker holds under an identifier.
pub find?-holds :
    (id : ℕ) (worker : String) (db : Db) (j : Job)
    → IsValid db
    → In j db.jobs
    → holds id worker j ≡ true
    → find? (holds id worker) db.jobs ≡ some j
find?-holds id worker db j h m t = find?-unique (holds id worker) j db.jobs m t λ b n u.
    In-job_id db.jobs h.1 m n (holds-job_id id worker j t ∙ sym (holds-job_id id worker b u))

-- The call commits, and leaves `row` in place of `j`.
abbrev pub Becomes : ℕ → ℕ → String → Outcome → Option String → Db → Job → Type 0
Becomes now id worker outcome error db row =
    (key : Option String) × (db' : Db) × (complete_job now id worker outcome error db
      ≡ commit (some (record { row = row; workspace_key = key }), db'))
    × In row db'.jobs

pub becomes :
    (now id available : ℕ) (worker : String) (outcome : Outcome) (error : Option String) (db : Db)
    (j : Job)
    → IsValid db
    → In j db.jobs
    → holds id worker j ≡ true
    → next_available now outcome j ≡ commit available
    → Becomes now id worker outcome error db (finish now outcome available j)
unfolding complete_job
becomes now id available worker outcome error db j h m t e =
    let found : find? (holds id worker) db.jobs ≡ some j = find?-holds id worker db j h m t in
    (
      workspace_key_of j.workspace_id db.workspaces,
      record db {
        jobs = update_where (holds id worker) (finish now outcome available) db.jobs;
        job_attempts = map (close_attempt now id worker outcome error) db.job_attempts;
      },
      rw (found, complete_job) (rw (e, complete_job)),
      In-update_where_self (holds id worker) (finish now outcome available) t m,
    )
