-- ===== src/Scheduler/Rounds.antt =====
-- What the rounds of a tick do to the job table.
use skill_kernel.Base.{
  ℕ, suc, ◌+◌, ◌≤◌, max, String, str_eq_iff, Bool, true, false, List, [], ◌∷◌, ◌++◌, ◌≡◌, refl, sym,
  ◌∙◌, ap, inl, inr, arith, ◌==◌, length, any, countb, length-append, countb-append, countb-any,
  append-nil, append_assoc, Bool-cases,
}
use skill_kernel.Jobs.Types.{Job}
use skill_kernel.Jobs.Enqueue.{has_key}
use skill_kernel.Scheduler.Misfire.{
  Run, value, value_error, unique_violation, integer_out_of_range, out_of_fuel, missed_run_count,
  should_enqueue_misfire, next_run_after,
}
use skill_kernel.Scheduler.Tick.{
  Schedule, Environment, ◌>>=◌, is_active_of, has_active_scheduled_job, TickState, scheduled_job,
  enqueue_scheduled_job, dispatch, policy_of, closed, close_round, rest_of_round, tick_one,
  tick_all,
}

-- What holds of the value, if there is one.
abbrev pub OnValue {ℓ κ} : {A : Type ℓ} → (A → Type κ) → Run A → Type κ
OnValue P (value a) = P a
OnValue P _ = Unit

module _ {ℓ κ μ} {A : Type ℓ} {B : Type κ} (P : B → Type μ) where
  -- A chain has what its last part has, given what its first part has.
  pub OnValue-chain {ν} :
      (Q : A → Type ν) (r : Run A) (k : A → Run B)
      → OnValue Q r
      → ((a : A) → Q a → OnValue P (k a))
      → OnValue P (r >>= k)
  OnValue-chain Q (value a) k q h = h a q
  OnValue-chain Q value_error k q h = tt
  OnValue-chain Q unique_violation k q h = tt
  OnValue-chain Q integer_out_of_range k q h = tt
  OnValue-chain Q out_of_fuel k q h = tt

pub OnValue-any {ℓ} : {A : Type ℓ} (r : Run A) → OnValue (λ a. Unit {0}) r
OnValue-any (value a) = tt
OnValue-any _ = tt

-- After `rounds` more rounds: rows were only added, each is reported, each round reported or skipped
-- at most one, and there is no second active job of the workspace `ws` and the kind.
pub record Grows (ws : ℕ) (kind : String) (rounds : ℕ) (st st' : TickState) : Type 0 where
  pub added : List Job
  pub in_table : st'.table ≡ st.table ++ added
  pub reported : st'.jobs ≡ st.jobs ++ added
  pub counted : length st'.jobs + st'.skipped ≤ length st.jobs + st.skipped + rounds
  pub single :
      countb (is_active_of ws kind) st'.table ≤ max 1 (countb (is_active_of ws kind) st.table)

module _ (ws : ℕ) (kind : String) where
  Grows-skip : (st : TickState) → Grows ws kind 1 st (record st { skipped = st.skipped + 1 })
  Grows-skip st = record {
    added = [];
    in_table = sym (append-nil st.table);
    reported = sym (append-nil st.jobs);
    counted = omega arith;
    single = omega arith;
  }

  Grows-same : (st : TickState) → Grows ws kind 1 st st
  Grows-same st = record {
    added = [];
    in_table = sym (append-nil st.table);
    reported = sym (append-nil st.jobs);
    counted = omega arith;
    single = omega arith;
  }

  abbrev with_job : Job → TickState → TickState
  with_job j st = record st { table = st.table ++ j ∷ []; jobs = st.jobs ++ j ∷ [] }

  Grows-add :
      (j : Job) (st : TickState)
      → (is_active_of ws kind j ≡ true → any (is_active_of ws kind) st.table ≡ false)
      → Grows ws kind 1 st (with_job j st)
  Grows-add j st fresh = record {
    added = j ∷ [];
    in_table = refl;
    reported = refl;
    counted = omega (arith, length-append {0} st.jobs (j ∷ []));
    single =
        rw (countb-append (is_active_of ws kind) st.table (j ∷ []))
          (at_most_one (is_active_of ws kind j) refl);
  }
    where
      at_most_one :
          (b : Bool)
          → is_active_of ws kind j ≡ b
          → countb (is_active_of ws kind) st.table + countb (is_active_of ws kind) (j ∷ [])
            ≤ max 1 (countb (is_active_of ws kind) st.table)
      at_most_one true e =
          rw (e, countb-any (is_active_of ws kind) st.table (fresh e)) (omega arith)
      at_most_one false e = rw e (omega arith)

  enqueue-Grows :
      (j : Job) (st : TickState)
      → (is_active_of ws kind j ≡ true → any (is_active_of ws kind) st.table ≡ false)
      → OnValue (Grows ws kind 1 st) (enqueue_scheduled_job j st)
  unfolding enqueue_scheduled_job
  enqueue-Grows j st fresh =
      elim (Bool-cases (any (has_key j.workspace_id j.idempotency_key) st.table)) [
        | inl old ↦ rw (old, enqueue_scheduled_job) (Grows-same st)
        | inr new ↦ elim (Bool-cases (any (λ k. k.job_id == j.job_id) st.table)) [
          | inl taken ↦ rw (new, taken, enqueue_scheduled_job) tt
          | inr free ↦ rw (new, free, enqueue_scheduled_job) (Grows-add j st fresh)
        ]
      ]

  Grows-none : (st : TickState) → Grows ws kind 0 st st
  Grows-none st = record {
    added = [];
    in_table = sym (append-nil st.table);
    reported = sym (append-nil st.jobs);
    counted = omega arith;
    single = omega arith;
  }

  Grows-closed :
      (client_now : ℕ) (s : Schedule) (st st' : TickState) (at : ℕ)
      → Grows ws kind 1 st st'
      → Grows ws kind 1 st (closed client_now s st' at)
  Grows-closed client_now s st st' at g = record {
    added = g.added;
    in_table = g.in_table;
    reported = g.reported;
    counted = g.counted;
    single = g.single;
  }

  Grows-trans :
      (m n : ℕ) (a b c : TickState)
      → Grows ws kind m a b
      → Grows ws kind n b c
      → Grows ws kind (m + n) a c
  Grows-trans m n a b c g h = record {
    added = g.added ++ h.added;
    in_table =
        h.in_table ∙ ap (λ l. l ++ h.added) g.in_table ∙ append_assoc a.table g.added h.added;
    reported = h.reported ∙ ap (λ l. l ++ h.added) g.reported ∙ append_assoc a.jobs g.added h.added;
    counted = omega (arith, g.counted, h.counted);
    single = omega (arith, g.single, h.single);
  }

-- The new row is active of its own schedule's workspace and kind alone.
fresh_kind :
    (env : Environment) (now round : ℕ) (s : Schedule) (st : TickState) (ws : ℕ) (kind : String)
    → has_active_scheduled_job s st.table ≡ false
    → is_active_of ws kind (scheduled_job env now round s) ≡ true
    → any (is_active_of ws kind) st.table ≡ false
unfolding has_active_scheduled_job scheduled_job
fresh_kind env now round s st ws kind idle active =
    let same_ws : s.workspace_id ≡ ws = ground arith in
    let same_kind : s.job_kind ≡ kind = ground (arith, str_eq_iff s.job_kind kind) in
    rw (← same_ws, ← same_kind) idle

module _ (env : Environment) (ws : ℕ) (kind : String) (fuel now client_now : ℕ) where
  dispatch-Grows :
      (round : ℕ) (s : Schedule) (should : Bool) (st : TickState)
      → OnValue (Grows ws kind 1 st) (dispatch env now round s should st)
  unfolding dispatch
  dispatch-Grows round s false st = Grows-skip ws kind st
  dispatch-Grows round s true st = elim (Bool-cases (has_active_scheduled_job s st.table)) [
    | inl active ↦ rw (active, dispatch) (Grows-skip ws kind st)
    | inr idle ↦
        rw (idle, dispatch)
          (enqueue-Grows ws kind (scheduled_job env now round s) st
            (fresh_kind env now round s st ws kind idle))
  ]

  close_round-Grows :
      (s : Schedule) (st st' : TickState)
      → Grows ws kind 1 st st'
      → OnValue (Grows ws kind 1 st) (close_round fuel client_now s st')
  close_round-Grows s st st' g =
      OnValue-chain (Grows ws kind 1 st) (λ a. Unit {0}) next
        (λ at. value (closed client_now s st' at)) (OnValue-any next)
        (λ at _. Grows-closed ws kind client_now s st st' at g)
    where
      next : Run ℕ
      next = next_run_after fuel s.next_run_at s.interval_seconds client_now (policy_of s)

  rest_of_round-Grows :
      (round : ℕ) (s : Schedule) (st : TickState) (should : Bool)
      → OnValue (Grows ws kind 1 st) (rest_of_round env fuel now client_now round s st should)
  unfolding rest_of_round
  rest_of_round-Grows round s st should =
      OnValue-chain (Grows ws kind 1 st) (Grows ws kind 1 st) (dispatch env now round s should st)
        (close_round fuel client_now s) (dispatch-Grows round s should st) (close_round-Grows s st)

  tick_one-Grows :
      (round : ℕ) (s : Schedule) (st : TickState)
      → OnValue (Grows ws kind 1 st) (tick_one env fuel now client_now round s st)
  unfolding tick_one
  tick_one-Grows round s st =
      OnValue-chain (Grows ws kind 1 st) (λ a. Unit {0}) should
        (rest_of_round env fuel now client_now round s st) (OnValue-any should)
        (λ b _. rest_of_round-Grows round s st b)
    where
      should : Run Bool
      should =
          should_enqueue_misfire s.next_run_at (policy_of s)
            (missed_run_count s.next_run_at s.interval_seconds client_now) (env.clock round)

  OnValue-map :
      (m n : ℕ) (a b : TickState) (r : Run TickState)
      → Grows ws kind m a b
      → OnValue (Grows ws kind n b) r
      → OnValue (Grows ws kind (m + n) a) r
  OnValue-map m n a b (value c) g h = Grows-trans ws kind m n a b c g h
  OnValue-map m n a b _ g h = tt

  -- As many rounds as there are schedules.
  pub tick_all-Grows :
      (round : ℕ) (ss : List Schedule) (st : TickState)
      → OnValue (Grows ws kind (length ss) st) (tick_all env fuel now client_now round ss st)
  unfolding tick_all
  tick_all-Grows round [] st = Grows-none ws kind st
  tick_all-Grows round (s ∷ ss) st = rw one_more (
      OnValue-chain (Grows ws kind (1 + length ss) st) (Grows ws kind 1 st)
        (tick_one env fuel now client_now round s st)
        (tick_all env fuel now client_now (suc round) ss) (tick_one-Grows round s st)
        (λ st' g. OnValue-map 1 (length ss) st st' _ g (tick_all-Grows (suc round) ss st')))
    where
      one_more : suc (length ss) ≡ 1 + length ss
      one_more = omega arith
