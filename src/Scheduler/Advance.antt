-- ===== src/Scheduler/Advance.antt =====
-- The rounds of a tick move their schedules beyond the sidecar's clock.
use skill_kernel.Base.{
  ℕ, zero, suc, ◌+◌, ◌<◌, String, str_eq, Bool, true, false, List, [], ◌∷◌, ◌≡◌, ◌≢◌, refl, ◌⊎◌,
  inl, inr, arith, All, In, here, there, All-map, Bool-cases,
}
use skill_kernel.Jobs.Types.{seconds}
use skill_kernel.Scheduler.Misfire.{
  Run, value, is_supported, missed_run_count, should_enqueue_misfire, advance, next_run_after,
}
use skill_kernel.Scheduler.Tick.{
  Schedule, Environment, TickState, dispatch, policy_of, closed, close_round, reschedule,
  rest_of_round, tick_one, tick_all,
}
use skill_kernel.Scheduler.Rounds.{OnValue, OnValue-chain, OnValue-any}

-- A row is of another schedule, or is not due yet.
abbrev pub IsPast : ℕ → ℕ → Schedule → Type 0
IsPast client_now id s = (s.schedule_id ≢ id) ⊎ (client_now < s.next_run_at)

advance-above : (fuel p i now : ℕ) → OnValue (λ r. now < r) (advance fuel p i now)
unfolding advance
advance-above zero p i now = tt
advance-above (suc fuel) p i now = ground (arith, advance-above fuel (p + i) i now)

next_run-above :
    (fuel previous interval now : ℕ) (policy : String)
    → str_eq policy "catch_up_limited" ≡ false
    → OnValue (λ r. now < r) (next_run_after fuel previous interval now policy)
unfolding next_run_after
next_run-above fuel previous interval now policy other = elim (Bool-cases (is_supported policy)) [
  | inl known ↦
      rw (known, other, next_run_after) (advance-above fuel previous (seconds interval) now)
  | inr unknown ↦ rw (unknown, next_run_after) tt
]

module _ (env : Environment) (fuel now client_now id : ℕ) where
  abbrev Passed : TickState → Type 0
  Passed st = All (IsPast client_now id) st.schedules

  -- Writing a later time into one schedule's rows.
  reschedule-IsPast :
      (at : ℕ) (id' : ℕ) (ss : List Schedule)
      → client_now < at
      → All (IsPast client_now id) ss
      → All (IsPast client_now id) (reschedule id' at ss)
  reschedule-IsPast at id' ss later h =
      All-map (IsPast client_now id) (IsPast client_now id) _ (λ s p. ground arith) ss h

  reschedule-own :
      (at : ℕ) (ss : List Schedule)
      → client_now < at
      → All (IsPast client_now id) (reschedule id at ss)
  reschedule-own at [] later = tt
  reschedule-own at (s ∷ ss) later = (ground arith, reschedule-own at ss later)

  dispatch-schedules :
      (round : ℕ) (s : Schedule) (should : Bool) (st : TickState)
      → OnValue (λ st'. st'.schedules ≡ st.schedules) (dispatch env now round s should st)
  unfolding dispatch
  dispatch-schedules round s true st = ground arith
  dispatch-schedules round s false st = refl

  -- One more round keeps what the earlier ones have moved.
  close_round-Passed :
      (s : Schedule) (st : TickState)
      → str_eq (policy_of s) "catch_up_limited" ≡ false
      → Passed st
      → OnValue Passed (close_round fuel client_now s st)
  close_round-Passed s st other h =
      OnValue-chain Passed (λ at. client_now < at) next (λ at. value (closed client_now s st at))
        (next_run-above fuel s.next_run_at s.interval_seconds client_now (policy_of s) other)
        (λ at later. reschedule-IsPast at s.schedule_id st.schedules later h)
    where
      next : Run ℕ
      next = next_run_after fuel s.next_run_at s.interval_seconds client_now (policy_of s)

  close_round-own :
      (s : Schedule) (st : TickState)
      → str_eq (policy_of s) "catch_up_limited" ≡ false
      → s.schedule_id ≡ id
      → OnValue Passed (close_round fuel client_now s st)
  close_round-own s st other own =
      OnValue-chain Passed (λ at. client_now < at) next (λ at. value (closed client_now s st at))
        (next_run-above fuel s.next_run_at s.interval_seconds client_now (policy_of s) other)
        (λ at later. rw own (reschedule-own at st.schedules later))
    where
      next : Run ℕ
      next = next_run_after fuel s.next_run_at s.interval_seconds client_now (policy_of s)

  -- A round ends with its `close_round`, on the schedules as they were.
  tick_one_by :
      (Q : TickState → Type 0) (round : ℕ) (s : Schedule) (st : TickState)
      → ((st' : TickState)
          → st'.schedules ≡ st.schedules
          → OnValue Q (close_round fuel client_now s st'))
      → OnValue Q (tick_one env fuel now client_now round s st)
  unfolding tick_one rest_of_round
  tick_one_by Q round s st ends =
      OnValue-chain Q (λ a. Unit {0}) should (rest_of_round env fuel now client_now round s st)
        (OnValue-any should)
        λ b _.
          OnValue-chain Q (λ st'. st'.schedules ≡ st.schedules) (dispatch env now round s b st)
            (close_round fuel client_now s) (dispatch-schedules round s b st) ends
    where
      should : Run Bool
      should =
          should_enqueue_misfire s.next_run_at (policy_of s)
            (missed_run_count s.next_run_at s.interval_seconds client_now) (env.clock round)

  abbrev AllOther : List Schedule → Type 0
  AllOther ss = All (λ s. str_eq (policy_of s) "catch_up_limited" ≡ false) ss

  tick_all-Passed :
      (round : ℕ) (ss : List Schedule) (st : TickState)
      → AllOther ss
      → Passed st
      → OnValue Passed (tick_all env fuel now client_now round ss st)
  unfolding tick_all
  tick_all-Passed round [] st other h = h
  tick_all-Passed round (s ∷ ss) st other h =
      OnValue-chain Passed Passed (tick_one env fuel now client_now round s st)
        (tick_all env fuel now client_now (suc round) ss)
        (tick_one_by Passed round s st (λ st' same. close_round-Passed s st' other.0 (rw same h)))
        (λ st' p. tick_all-Passed (suc round) ss st' other.1 p)

  -- Each schedule that a tick goes through is moved beyond the clock.
  pub tick_all-own :
      (round : ℕ) (ss : List Schedule) (c : Schedule) (st : TickState)
      → c.schedule_id ≡ id
      → AllOther ss
      → In c ss
      → OnValue Passed (tick_all env fuel now client_now round ss st)
  unfolding tick_all
  tick_all-own round [] c st own other m = elim m [ ]
  tick_all-own round (s ∷ ss) c st own other here =
      OnValue-chain Passed Passed (tick_one env fuel now client_now round c st)
        (tick_all env fuel now client_now (suc round) ss)
        (tick_one_by Passed round c st (λ st' same. close_round-own c st' other.0 own))
        (λ st' p. tick_all-Passed (suc round) ss st' other.1 p)
  tick_all-own round (s ∷ ss) c st own other (there m) =
      OnValue-chain Passed (λ a. Unit {0}) (tick_one env fuel now client_now round s st)
        (tick_all env fuel now client_now (suc round) ss)
        (OnValue-any (tick_one env fuel now client_now round s st))
        (λ st' p. tick_all-own (suc round) ss c st' own other.1 m)
