-- ===== src/Evaluator/Replay.antt =====
-- The intervention replay of sidecar/autoskill/services/evaluator.py: its verdict and its metrics.
use skill_kernel.Base.{
  String, Bool, List, Json, Py, returned, ◌>>=◌, false, not, ◌&&◌, ◌||◌, [], ◌∷◌, Option, none,
  some, if◌then◌else◌, Fields, Float, get, dict_of, is_dict_empty,
}
use skill_kernel.Evaluator.Runtime.{
  Runtime, Probe, ProbeEvaluation, Status, result, truthy, optional_float, first_float,
}

pub record ReplayMetrics : Type 0 where
  pub utility_delta : Float
  pub token_delta : Float

module _ (rt : Runtime) where
  -- `a is not None and b is not None and a < b`
  abbrev pub both_less : Option Float → Option Float → Bool
  both_less (some a) (some b) = rt.less a b
  both_less _ _ = false

  -- `improved_success or reduced_retries or reduced_latency`
  unfoldable pub outperforms : Fields → Fields → Py Bool
  outperforms no_skill skill_visible =
      let no_skill_success : Bool = truthy rt (get "success" no_skill) in
      let skill_success : Bool = truthy rt (get "success" skill_visible) in
      optional_float rt (get "retries" no_skill) >>= λ no_skill_retries.
      optional_float rt (get "retries" skill_visible) >>= λ skill_retries.
      optional_float rt (get "latency_ms" no_skill) >>= λ no_skill_latency.
      optional_float rt (get "latency_ms" skill_visible) >>= λ skill_latency. returned (
        (skill_success && not no_skill_success)
        || (skill_success && both_less skill_retries no_skill_retries)
        || (skill_success && both_less skill_latency no_skill_latency))

  abbrev pub replay_verdict : Probe → Option String → Bool → ProbeEvaluation
  replay_verdict probe executor better =
      if better
      then result probe Status.passed (rt.milli 1000)
          "skill-visible replay outperformed no-skill control" executor
      else result probe Status.failed (rt.milli 0)
          "skill-visible replay did not improve on no-skill control" executor

  unfoldable pub evaluate_intervention_replay : Probe → Fields → Option String → Py ProbeEvaluation
  evaluate_intervention_replay probe replay executor =
      let no_skill : Fields = dict_of (get "no_skill" replay) in
      let skill_visible : Fields = dict_of (get "skill_visible" replay) in
      if is_dict_empty no_skill || is_dict_empty skill_visible
      then returned (
          result probe Status.needs_intervention (rt.milli 500)
            "intervention replay requires no-skill and skill-visible outcomes" executor)
      else outperforms no_skill skill_visible >>= λ better.
          returned (replay_verdict probe executor better)

  -- `max(0.0, x)` and `min(0.1, x)`
  abbrev at_least_zero : Float → Float
  at_least_zero x = if rt.less (rt.milli 0) x then x else rt.milli 0

  abbrev at_most_tenth : Float → Float
  at_most_tenth x = if rt.less x (rt.milli 100) then x else rt.milli 100

  abbrev success_value : Json → Float
  success_value v = if truthy rt v then rt.milli 1000 else rt.milli 0

  -- `utility += max(0.0, a - b) * weight`, where both are given.
  abbrev gain : Float → Option Float → Option Float → Float → Float
  gain weight (some a) (some b) utility =
      rt.add utility (rt.mul (at_least_zero (rt.sub a b)) weight)
  gain weight _ _ utility = utility

  abbrev latency_gain : Option Float → Option Float → Float → Float
  latency_gain (some a) (some b) utility =
      if rt.less (rt.milli 0) a && rt.less b a
      then rt.add utility (at_most_tenth (rt.mul (rt.div (rt.sub a b) a) (rt.milli 100)))
      else utility
  latency_gain _ _ utility = utility

  unfoldable pub derived_utility : Fields → Fields → Py Float
  derived_utility no_skill skill_visible =
      let utility : Float =
        rt.sub (success_value (get "success" skill_visible))
          (success_value (get "success" no_skill)) in
      optional_float rt (get "retries" no_skill) >>= λ no_skill_retries.
      optional_float rt (get "retries" skill_visible) >>= λ skill_retries.
      optional_float rt (get "latency_ms" no_skill) >>= λ no_skill_latency.
      optional_float rt (get "latency_ms" skill_visible) >>= λ skill_latency.
      optional_float rt (get "tool_errors" no_skill) >>= λ no_skill_errors.
      optional_float rt (get "tool_errors" skill_visible) >>= λ skill_errors. returned (
        gain (rt.milli 100) no_skill_errors skill_errors (
          latency_gain no_skill_latency skill_latency
            (gain (rt.milli 50) no_skill_retries skill_retries utility)))

  abbrev pub token_counts : Fields → List Json
  token_counts run =
      get "tokens" run
      ∷ get "token_count" run
      ∷ get "total_tokens" run
      ∷ get "context_tokens" run
      ∷ []

  abbrev pub utility_deltas : Fields → Fields → List Json
  utility_deltas replay skill_visible =
      get "utility_delta" replay
      ∷ get "marginal_utility_delta" replay
      ∷ get "utility_delta" skill_visible
      ∷ get "marginal_utility_delta" skill_visible
      ∷ []

  abbrev difference : Option Float → Option Float → Float
  difference (some a) (some b) = rt.sub a b
  difference _ _ = rt.milli 0

  -- The explicit delta, or else the derived one.
  abbrev pub utility_or_derived : Fields → Fields → Option Float → Py Float
  utility_or_derived no_skill skill_visible (some explicit) = returned explicit
  utility_or_derived no_skill skill_visible none = derived_utility no_skill skill_visible

  unfoldable pub intervention_replay_metrics : Fields → Py ReplayMetrics
  intervention_replay_metrics replay =
      let no_skill : Fields = dict_of (get "no_skill" replay) in
      let skill_visible : Fields = dict_of (get "skill_visible" replay) in
      first_float rt (utility_deltas replay skill_visible) >>= λ explicit.
      first_float rt (token_counts no_skill) >>= λ no_skill_tokens.
      first_float rt (token_counts skill_visible) >>= λ skill_tokens.
      utility_or_derived no_skill skill_visible explicit >>= λ utility.
      returned
        (record { utility_delta = utility; token_delta = difference skill_tokens no_skill_tokens })
