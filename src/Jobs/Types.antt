-- ===== src/Jobs/Types.antt =====
-- The tables of the job queue: sidecar/autoskill/db/jobs.py, class JobRecord, and the columns that
-- the queries of class AsyncpgJobStore read and write.
use skill_kernel.Base.{
  ℕ, ℤ, pos, negsuc, leb, String, Bool, true, false, List, Option, ◌*◌, ◌≡◌, refl,
}

-- `JobStatus`
pub data JobStatus : Type 0 where
  queued leased succeeded failed : JobStatus

-- A row of `autoskill.jobs`. A UUID is a number, an instant is its count of microseconds.
pub record Job : Type 0 where
  pub job_id : ℕ
  pub workspace_id : ℕ
  pub trace_id : ℕ
  pub span_id : ℕ
  pub parent_span_id : Option ℕ
  pub job_kind : String
  pub status : JobStatus
  pub idempotency_key : String
  pub payload : String
  pub priority : ℤ
  pub lease_owner : Option String
  pub lease_expires_at : Option ℕ
  pub attempts : ℕ
  pub max_attempts : ℕ
  pub available_at : ℕ
  pub created_at : ℕ
  pub updated_at : ℕ

-- A row of `autoskill.job_attempts`.
pub record Attempt : Type 0 where
  pub attempt_job : ℕ
  pub attempt_number : ℕ
  pub worker_id : String
  pub attempt_status : JobStatus
  pub finished_at : Option ℕ
  pub error : Option String

-- A row of `autoskill.workspaces`.
pub record Workspace : Type 0 where
  pub id : ℕ
  pub external_key : String

pub record Db : Type 0 where
  pub workspaces : List Workspace
  pub jobs : List Job
  pub job_attempts : List Attempt

-- What `JobRecord.from_row` returns: the row and the key of its workspace.
pub record JobRecord : Type 0 where
  pub row : Job
  pub workspace_key : Option String

-- The errors that a statement of these queries may raise. Its transaction is rolled back.
pub data DbError : Type 0 where
  unique_violation integer_out_of_range : DbError

-- A transaction: committed with what it returns, or aborted.
pub data Tx {ℓ} (A : Type ℓ) : Type ℓ where
  abort : DbError → Tx A
  commit : A → Tx A

infixl 5 ◌>>=◌
abbrev pub ◌>>=◌ {ℓ κ} : {A : Type ℓ} {B : Type κ} → Tx A → (A → Tx B) → Tx B
◌>>=◌ t k = elim t [ abort e ↦ abort e | commit a ↦ k a ]

-- What holds of the result, if no error is raised.
abbrev pub OnCommit {ℓ κ} : {A : Type ℓ} → (A → Type κ) → Tx A → Type κ
OnCommit P (commit a) = P a
OnCommit P (abort e) = Unit

module _ {ℓ κ μ} {A : Type ℓ} {B : Type κ} (P : B → Type μ) where
  pub OnCommit->>= : (m : Tx A) (f : A → Tx B) → ((a : A) → OnCommit P (f a)) → OnCommit P (m >>= f)
  OnCommit->>= (commit a) f h = h a
  OnCommit->>= (abort e) f h = tt

  pub OnCommit-after {ν} :
      (Q : A → Type ν) (m : Tx A) (f : A → Tx B)
      → OnCommit Q m
      → ((a : A) → Q a → OnCommit P (f a))
      → OnCommit P (m >>= f)
  OnCommit-after Q (commit a) f q h = h a q
  OnCommit-after Q (abort e) f q h = tt

-- A chain commits only if its first part does.
pub >>=-commit {ℓ κ} :
    {A : Type ℓ} {B : Type κ} (t : Tx A) (k : A → Tx B) {b : B}
    → (t >>= k) ≡ commit b
    → (a : A) × (t ≡ commit a) × (k a ≡ commit b)
>>=-commit (abort e) k aborted = cc
>>=-commit (commit a) k committed = (a, refl, committed)

-- The largest value of a PostgreSQL `integer`, and the numbers that are encoded as one: the driver
-- refuses any other argument for a column of this type.
abbrev pub int4_max : ℕ
int4_max = 2_147_483_647

abbrev pub is_int4 : ℤ → Bool
is_int4 (pos n) = leb n int4_max
is_int4 (negsuc n) = leb n int4_max

abbrev pub is_queued : JobStatus → Bool
is_queued JobStatus.queued = true
is_queued _ = false

abbrev pub is_leased : JobStatus → Bool
is_leased JobStatus.leased = true
is_leased _ = false

-- `timedelta(seconds=n)` and `make_interval(secs => n)`
abbrev pub seconds : ℕ → ℕ
seconds n = n * 1_000_000
