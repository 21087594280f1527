-- ===== src/Scheduler/Misfire.antt =====
-- The misfire arithmetic of sidecar/autoskill/db/scheduler.py: `_validate_misfire_policy`,
-- `_missed_run_count`, `_should_enqueue_misfire` and `_next_run_after`.
use skill_kernel.Base.{
  ℕ, zero, suc, ◌+◌, ◌-◌, ◌/◌, max, String, str_eq, Bool, true, false, ◌&&◌, ◌||◌, ltb, leb,
  if◌then◌else◌,
}
use skill_kernel.Jobs.Types.{seconds}

-- How a call ends: with a value, by `raise ValueError`, by a violated primary key, by a
-- number that its column cannot hold, or not within the fuel of its loop.
pub data Run {ℓ} (A : Type ℓ) : Type ℓ where
  value : A → Run A
  value_error : Run A
  unique_violation : Run A
  integer_out_of_range : Run A
  out_of_fuel : Run A

-- The set of `_validate_misfire_policy`.
unfoldable pub is_supported : String → Bool
is_supported policy =
    str_eq policy "coalesce"
    || str_eq policy "catch_up_limited"
    || str_eq policy "skip"
    || str_eq policy "immediate"

unfoldable pub missed_run_count : ℕ → ℕ → ℕ → ℕ
missed_run_count previous interval_seconds now =
    if ltb now previous then 0 else (now - previous) / seconds (max 1 interval_seconds) + 1

-- `now` is the reading of the clock in the call itself.
unfoldable pub should_enqueue_misfire : ℕ → String → ℕ → ℕ → Run Bool
unfolding is_supported
should_enqueue_misfire previous policy missed_runs now =
    if is_supported policy
    then (if str_eq policy "skip" && ltb 1 missed_runs
        then value false
        else value (leb previous now))
    else value_error

-- `while next_run <= now: next_run += interval`, with fuel.
unfoldable pub advance : ℕ → ℕ → ℕ → ℕ → Run ℕ
advance zero next_run interval now = out_of_fuel
advance (suc fuel) next_run interval now = elim (leb next_run now) [
  | true ↦ advance fuel (next_run + interval) interval now
  | false ↦ value next_run
]

unfoldable pub next_run_after : ℕ → ℕ → ℕ → ℕ → String → Run ℕ
unfolding is_supported advance
next_run_after fuel previous interval_seconds now policy =
    if is_supported policy
    then (if str_eq policy "catch_up_limited"
        then value (previous + seconds interval_seconds)
        else advance fuel previous (seconds interval_seconds) now)
    else value_error
