-- ===== src/Scheduler/NextRun.antt =====
-- The next run of a schedule agrees with the count of missed runs.
use native.Mathlib.Nat.{div-eq-sub-div, div-eq_of_lt, lt-div-mul-add, div-mul-le_self}
use native.Mathlib.Decide.{dec_le}
use skill_kernel.Base.{
  ℕ, zero, suc, ◌+◌, ◌-◌, ◌*◌, ◌/◌, ◌≤◌, ◌<◌, max, String, str_eq, true, false, ◌≡◌, refl, ap, ◌∙◌,
  arith, ltb, le→leb, if◌then◌else◌,
}
use skill_kernel.Jobs.Types.{seconds}
use skill_kernel.Scheduler.Misfire.{
  value, out_of_fuel, is_supported, missed_run_count, advance, next_run_after,
}

-- Runs missed between `p` and `now` at one every `i` microseconds.
abbrev missed : ℕ → ℕ → ℕ → ℕ
missed p i now = if ltb now p then 0 else (now - p) / i + 1

missed_later : (p i now : ℕ) → 0 < i → p ≤ now → missed p i now ≡ missed (p + i) i now + 1
missed_later p i now pos due = elim (dec_le (p + i) now) [
  | yes still ↦
      let e : (now - p) / i ≡ (now - p - i) / i + 1 = div-eq-sub-div pos (omega arith) in
      let shift : now - p - i ≡ now - (p + i) = omega arith in
      let e' : (now - p) / i ≡ (now - (p + i)) / i + 1 = rw shift at e in ground arith
  | no over ↦ let e : (now - p) / i ≡ 0 = div-eq_of_lt (omega arith) in ground arith
]

-- With more fuel than missed runs the loop ends right behind them.
advance-value :
    (fuel p i now : ℕ)
    → 0 < i
    → missed p i now < fuel
    → advance fuel p i now ≡ value (p + missed p i now * i)
unfolding advance
advance-value zero p i now pos enough = absurd (omega arith)
advance-value (suc fuel) p i now pos enough = elim (dec_le p now) [
  | yes due ↦
      let later = missed_later p i now pos due in
      let rest = advance-value fuel (p + i) i now pos (omega arith) in
      let ends : p + i + missed (p + i) i now * i ≡ p + missed p i now * i =
        rw later (omega arith) in
      rw (le→leb p now due, advance) (rest ∙ ap value ends)
  | no late ↦ let none_missed : missed p i now ≡ 0 = ground arith in rw none_missed (ground arith)
]

-- The schedule's next run lies on the grid of its interval, behind `now`, and not more than one
-- interval behind.
on_grid :
    (p i now : ℕ)
    → 0 < i
    → (now < p + missed p i now * i) × (p + missed p i now * i ≤ max p (now + i))
on_grid p i now pos = elim (dec_le p now) [
  | yes due ↦
      let above = lt-div-mul-add {a = now - p} {b = i} pos in
      let below = div-mul-le_self (now - p) i in
      let m : missed p i now ≡ (now - p) / i + 1 = ground arith in
      rw m (omega (arith, above, below), omega (arith, above, below))
  | no late ↦ let m : missed p i now ≡ 0 = ground arith in rw m (omega arith, omega arith)
]

-- For a supported policy other than catch_up_limited and an interval of at least a second, the loop
-- ends within one round more than there are missed runs, and the next run is the missed runs' number
-- of intervals after the previous one. That instant is later than `now`, and at most one interval
-- later, unless the previous run itself was still further ahead.
pub next_run_after-missed :
    (fuel previous interval_seconds now : ℕ) (policy : String)
    → is_supported policy ≡ true
    → str_eq policy "catch_up_limited" ≡ false
    → 0 < interval_seconds
    → missed_run_count previous interval_seconds now < fuel
    → (r : ℕ) × (next_run_after fuel previous interval_seconds now policy ≡ value r)
      × (r ≡ previous + missed_run_count previous interval_seconds now * seconds interval_seconds)
      × (now < r)
      × (r ≤ max previous (now + seconds interval_seconds))
unfolding next_run_after missed_run_count
next_run_after-missed fuel previous interval_seconds now policy known other pos enough =
    let i : ℕ = seconds interval_seconds in
    let same : max 1 interval_seconds ≡ interval_seconds = omega arith in
    let count : missed_run_count previous interval_seconds now ≡ missed previous i now = rw same in
    let fits : missed previous i now < fuel = rw count at enough in
    let (above, below) = on_grid previous i now (omega arith) in
    (
      previous + missed previous i now * i,
      rw (known, other) (advance-value fuel previous i now (omega arith) fits),
      rw count,
      above,
      below,
    )

-- Under catch_up_limited the next run is one interval after the previous one, however late it is.
catch_up :
    (fuel previous interval_seconds now : ℕ)
    → next_run_after fuel previous interval_seconds now "catch_up_limited"
      ≡ value (previous + seconds interval_seconds)
unfolding next_run_after
catch_up fuel previous interval_seconds now = refl

advance_stays : (fuel p now : ℕ) → p ≤ now → advance fuel p (seconds 0) now ≡ out_of_fuel
unfolding advance
advance_stays zero p now due = refl
advance_stays (suc fuel) p now due =
    let stays : p + seconds 0 ≡ p = omega arith in
    rw (le→leb p now due, advance) (rw stays (advance_stays fuel p now due))

-- For a supported policy other than catch_up_limited, a schedule that is due with an interval of zero
-- seconds never gets a next run: the loop outlasts any fuel.
pub next_run_after_diverges :
    (fuel previous now : ℕ) (policy : String)
    → is_supported policy ≡ true
    → str_eq policy "catch_up_limited" ≡ false
    → previous ≤ now
    → next_run_after fuel previous 0 now policy ≡ out_of_fuel
unfolding next_run_after
next_run_after_diverges fuel previous now policy known other due =
    rw (known, other) (advance_stays fuel previous now due)
