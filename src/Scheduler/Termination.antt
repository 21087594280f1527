-- ===== src/Scheduler/Termination.antt =====
-- A tick returns.
use skill_kernel.Base.{
  ◌&&◌, ltb, ℕ, suc, ◌≤◌, ◌<◌, str_eq, Bool, true, false, List, [], ◌∷◌, ◌≡◌, ◌≢◌, refl, sym, ◌⊎◌,
  inl, inr, arith, ◌==◌, any, All, All-append, Bool-cases, subst, ==_ne,
}
use skill_kernel.Jobs.Types.{Job}
use skill_kernel.Jobs.Enqueue.{has_key}
use skill_kernel.Scheduler.Misfire.{
  Run, value, value_error, unique_violation, integer_out_of_range, out_of_fuel, is_supported,
  missed_run_count, should_enqueue_misfire, next_run_after,
}
use skill_kernel.Scheduler.NextRun.{next_run_after-missed}
use skill_kernel.Scheduler.Tick.{
  Schedule, Environment, ◌>>=◌, TickState, TickRequest, TickResult, dispatch,
  has_active_scheduled_job, enqueue_scheduled_job, scheduled_job, policy_of, closed, close_round,
  rest_of_round, tick_one, tick_all, begin, due_schedules, run_due_schedules,
}

-- The call returns a value, and the value has the property.
abbrev pub Returns {ℓ} : {A : Type ℓ} → (A → Type 0) → Run A → Type 0
Returns P (value a) = P a
Returns P _ = ⊥

module _ {ℓ κ} {A : Type ℓ} {B : Type κ} (P : B → Type 0) (Q : A → Type 0) where
  Returns-chain :
      (r : Run A) (k : A → Run B)
      → Returns Q r
      → ((a : A) → Q a → Returns P (k a))
      → Returns P (r >>= k)
  Returns-chain (value a) k q h = h a q
  Returns-chain value_error k q h = absurd q
  Returns-chain unique_violation k q h = absurd q
  Returns-chain integer_out_of_range k q h = absurd q
  Returns-chain out_of_fuel k q h = absurd q

Returns-value {ℓ} :
    {A : Type ℓ} (P : A → Type 0) (r : Run A) → Returns P r → (a : A) × (r ≡ value a)
Returns-value P (value a) h = (a, refl)
Returns-value P value_error h = absurd h
Returns-value P unique_violation h = absurd h
Returns-value P integer_out_of_range h = absurd h
Returns-value P out_of_fuel h = absurd h

module _ (env : Environment) (fuel now client_now : ℕ)
    (distinct : (m n : ℕ) → env.fresh_job m ≡ env.fresh_job n → m ≡ n) where
  -- No row has an identifier that a later round may generate.
  abbrev Unused : ℕ → List Job → Type 0
  Unused round = All (λ k. (n : ℕ) → round ≤ n → k.job_id ≢ env.fresh_job n)

  -- The schedule can be advanced within the fuel.
  abbrev pub Advances : Schedule → Type 0
  Advances s =
      (is_supported (policy_of s) ≡ true)
      × ((str_eq (policy_of s) "catch_up_limited" ≡ true)
          ⊎ ((0 < s.interval_seconds)
              × (missed_run_count s.next_run_at s.interval_seconds client_now < fuel)))

  Unused-suc : (round : ℕ) (jobs : List Job) → Unused round jobs → Unused (suc round) jobs
  Unused-suc round [] h = tt
  Unused-suc round (j ∷ js) h = ((λ n le. h.0 n (omega arith)), Unused-suc round js h.1)

  Unused-any :
      (round : ℕ) (jobs : List Job)
      → Unused round jobs
      → any (λ k. k.job_id == env.fresh_job round) jobs ≡ false
  Unused-any round [] h = refl
  Unused-any round (j ∷ js) h =
      rw (==_ne j.job_id (env.fresh_job round) (h.0 round (omega arith))) (Unused-any round js h.1)

  enqueue-Returns :
      (round : ℕ) (s : Schedule) (st : TickState)
      → Unused round st.table
      → Returns
          (λ st'. Unused (suc round) st'.table)
          (enqueue_scheduled_job (scheduled_job env now round s) st)
  unfolding enqueue_scheduled_job scheduled_job
  enqueue-Returns round s st h =
      elim (Bool-cases (any (has_key j.workspace_id j.idempotency_key) st.table)) [
        | inl old ↦ rw (old, enqueue_scheduled_job) (Unused-suc round st.table h)
        | inr new ↦
            rw (new, free, enqueue_scheduled_job)
              (All-append (λ k. (n : ℕ) → suc round ≤ n → k.job_id ≢ env.fresh_job n) st.table
                (j ∷ []) (Unused-suc round st.table h) (own, tt))
      ]
    where
      j : Job
      j = scheduled_job env now round s

      own : (n : ℕ) → suc round ≤ n → j.job_id ≢ env.fresh_job n
      own n le e = let same : round ≡ n = distinct round n e in absurd (omega arith)

      free : any (λ k. k.job_id == j.job_id) st.table ≡ false
      free = Unused-any round st.table h

  dispatch-Returns :
      (round : ℕ) (s : Schedule) (should : Bool) (st : TickState)
      → Unused round st.table
      → Returns (λ st'. Unused (suc round) st'.table) (dispatch env now round s should st)
  unfolding dispatch
  dispatch-Returns round s false st h = Unused-suc round st.table h
  dispatch-Returns round s true st h = elim (Bool-cases (has_active_scheduled_job s st.table)) [
    | inl active ↦ rw (active, dispatch) (Unused-suc round st.table h)
    | inr idle ↦ rw (idle, dispatch) (enqueue-Returns round s st h)
  ]

  next_run-Returns :
      (s : Schedule)
      → Advances s
      → Returns
          (λ at. Unit {0})
          (next_run_after fuel s.next_run_at s.interval_seconds client_now (policy_of s))
  unfolding next_run_after
  next_run-Returns s (known, way) = elim (Bool-cases (str_eq (policy_of s) "catch_up_limited")) [
    | inl limited ↦ rw (known, limited, next_run_after) tt
    | inr other ↦ elim way [
      | inl limited ↦ cc
      | inr (pos, enough) ↦
          let (at, e, _, _, _) =
            next_run_after-missed fuel s.next_run_at s.interval_seconds client_now (policy_of s)
              known other pos enough in
          subst (Returns (λ t. Unit {0})) (sym e) tt
    ]
  ]

  close_round-Returns :
      (round : ℕ) (s : Schedule) (st : TickState)
      → Advances s
      → Unused round st.table
      → Returns (λ st'. Unused round st'.table) (close_round fuel client_now s st)
  close_round-Returns round s st ok h =
      Returns-chain (λ st'. Unused round st'.table) (λ at. Unit {0})
        (next_run_after fuel s.next_run_at s.interval_seconds client_now (policy_of s))
        (λ at. value (closed client_now s st at)) (next_run-Returns s ok) (λ at _. h)

  should-Returns :
      (s : Schedule) (missed clock : ℕ)
      → Advances s
      → Returns (λ b. Unit {0}) (should_enqueue_misfire s.next_run_at (policy_of s) missed clock)
  unfolding should_enqueue_misfire
  should-Returns s missed clock (known, _) =
      elim (Bool-cases (str_eq (policy_of s) "skip" && ltb 1 missed)) [
        | inl skips ↦ rw (known, skips, should_enqueue_misfire) tt
        | inr runs ↦ rw (known, runs, should_enqueue_misfire) tt
      ]

  tick_one-Returns :
      (round : ℕ) (s : Schedule) (st : TickState)
      → Advances s
      → Unused round st.table
      → Returns (λ st'. Unused (suc round) st'.table) (tick_one env fuel now client_now round s st)
  unfolding tick_one rest_of_round
  tick_one-Returns round s st ok h =
      Returns-chain After (λ b. Unit {0})
        (should_enqueue_misfire s.next_run_at (policy_of s) missed (env.clock round))
        (rest_of_round env fuel now client_now round s st)
        (should-Returns s missed (env.clock round) ok)
        λ b _.
          Returns-chain After After (dispatch env now round s b st) (close_round fuel client_now s)
            (dispatch-Returns round s b st h) (λ st' u. close_round-Returns (suc round) s st' ok u)
    where
      After : TickState → Type 0
      After st' = Unused (suc round) st'.table

      missed : ℕ
      missed = missed_run_count s.next_run_at s.interval_seconds client_now

  tick_all-Returns :
      (round : ℕ) (ss : List Schedule) (st : TickState)
      → All Advances ss
      → Unused round st.table
      → Returns (λ st'. Unit {0}) (tick_all env fuel now client_now round ss st)
  unfolding tick_all
  tick_all-Returns round [] st ok h = tt
  tick_all-Returns round (s ∷ ss) st ok h =
      Returns-chain (λ st'. Unit {0}) (λ st'. Unused (suc round) st'.table)
        (tick_one env fuel now client_now round s st)
        (tick_all env fuel now client_now (suc round) ss) (tick_one-Returns round s st ok.0 h)
        (λ st' u. tick_all-Returns (suc round) ss st' ok.1 u)

-- A tick returns, if the generated job identifiers are distinct and not in the table, and every
-- schedule that it picks has a supported policy and either that policy is catch_up_limited or its
-- interval is at least a second and the fuel exceeds its number of missed runs.
pub run_due_schedules-value :
    (env : Environment) (r : TickRequest) (table : List Job) (schedules : List Schedule)
    → ((m n : ℕ) → env.fresh_job m ≡ env.fresh_job n → m ≡ n)
    → ((n : ℕ) → All (λ k. k.job_id ≢ env.fresh_job n) table)
    → All
        (λ s.
          (is_supported (policy_of s) ≡ true)
          × ((str_eq (policy_of s) "catch_up_limited" ≡ true)
              ⊎ ((0 < s.interval_seconds)
                  × (missed_run_count s.next_run_at s.interval_seconds r.client_now < r.fuel))))
        (due_schedules r.now r.locked r.limit schedules)
    → (result : TickResult × List Job × List Schedule) × (run_due_schedules env r table schedules
        ≡ value result)
unfolding run_due_schedules
run_due_schedules-value env r table schedules distinct unused ok =
    Returns-value (λ a. Unit {0}) (run_due_schedules env r table schedules)
      (returns r.lock_free refl)
  where
    never :
        (jobs : List Job)
        → ((n : ℕ) → All (λ k. k.job_id ≢ env.fresh_job n) jobs)
        → All (λ k. (n : ℕ) → 0 ≤ n → k.job_id ≢ env.fresh_job n) jobs
    never [] h = tt
    never (j ∷ js) h = ((λ n _. (h n).0), never js (λ n. (h n).1))

    returns :
        (b : Bool)
        → r.lock_free ≡ b
        → Returns (λ a. Unit {0}) (run_due_schedules env r table schedules)
    returns false e = rw (e, run_due_schedules) tt
    returns true e =
        rw (e, run_due_schedules)
          (Returns-chain (λ a. Unit {0}) (λ st. Unit {0})
            (tick_all env r.fuel r.now r.client_now 0
              (due_schedules r.now r.locked r.limit schedules) (begin table schedules))
            _
            (tick_all-Returns env r.fuel r.now r.client_now distinct 0 _ (begin table schedules) ok
              (never table unused))
            (λ st _. tt))
