-- ===== src/Evaluator/Runtime.antt =====
-- The data of sidecar/autoskill/services/evaluator.py and what it takes from Python.
use skill_kernel.Base.{
  ℕ, ℤ, pos, String, str_eq, Bool, true, false, not, List, [], ◌∷◌, map, Option, none, some, Json,
  Float, null, boolean, integer, real, str, array, object, items_list, keys, is_dict_empty, eqb_ℤ,
  is_empty, Py, raised, returned, ◌>>=◌, type_error, value_error,
}
use skill_kernel.Scanner.Scan.{Matcher}

-- What the code takes from Python: `str`, `lower`, the characters of a text, `s in text`, the truth
-- of a text and of a float, `float` of a text and of an integer (which may be too large), `int` of a
-- text and of a float, the arithmetic and the orders < and <= of floats, `sum`, `round(x, 6)`, and
-- the float that a literal of so many thousandths denotes; and the patterns of the scanner.
pub record Runtime : Type 0 where
  pub str_of : Json → String
  pub lower : String → String
  pub chars : String → List String
  pub contains : String → String → Bool
  pub is_zero : Float → Bool
  pub float_of_text : String → Option Float
  pub float_of_int : ℤ → Py Float
  pub int_of_text : String → Py ℤ
  pub int_of_float : Float → Py ℤ
  pub add : Float → Float → Float
  pub sub : Float → Float → Float
  pub mul : Float → Float → Float
  pub div : Float → Float → Float
  pub less : Float → Float → Bool
  pub at_most : Float → Float → Bool
  pub sum : List Float → Float
  pub round6 : Float → Float
  pub milli : ℕ → Float
  pub matcher : Matcher

-- The statuses of a probe and of a gate.
pub data Status : Type 0 where
  passed failed needs_intervention blocked : Status

abbrev pub is_passed : Status → Bool
is_passed Status.passed = true
is_passed _ = false

abbrev pub is_failed : Status → Bool
is_failed Status.failed = true
is_failed _ = false

abbrev pub is_stalled : Status → Bool
is_stalled Status.needs_intervention = true
is_stalled _ = false

-- A probe, with the values that `probe.get("spec")` and `probe.get("expected")` give, and the text
-- that the dict is formatted as.
pub record Probe : Type 0 where
  pub probe_hash : String
  pub kind : String
  pub spec : Json
  pub expected : Json
  pub formatted : String

pub record ProbeEvaluation : Type 0 where
  pub probe_hash : String
  pub kind : String
  pub status : Status
  pub score : Float
  pub reason : String
  pub executor_profile_id : Option String

abbrev pub result : Probe → Status → Float → String → Option String → ProbeEvaluation
result probe status score reason executor = record {
  probe_hash = probe.probe_hash;
  kind = probe.kind;
  status = status;
  score = score;
  reason = reason;
  executor_profile_id = executor;
}

module _ (rt : Runtime) where
  -- `bool(value)`
  unfoldable pub truthy : Json → Bool
  truthy null = false
  truthy (boolean b) = b
  truthy (integer n) = not (eqb_ℤ n (pos 0))
  truthy (real x) = not (rt.is_zero x)
  truthy (str s) = not (str_eq s "")
  truthy (array xs) = not (is_empty (items_list xs))
  truthy (object fs) = not (is_dict_empty fs)

  -- `list(value or [])`
  unfoldable pub elements : Json → Py (List Json)
  unfolding truthy
  elements (array xs) = returned (items_list xs)
  elements (object fs) = returned (map str (keys fs))
  elements (str s) = returned (map str (rt.chars s))
  elements v = elim (truthy v) [ true ↦ raised type_error | false ↦ returned [] ]

  -- `int(value or 0)`
  unfoldable pub int_of : Json → Py ℤ
  unfolding truthy
  int_of v = elim (truthy v) [
    | false ↦ returned (pos 0)
    | true ↦ elim v [
      | boolean b ↦ returned (pos 1)
      | integer n ↦ returned n
      | real x ↦ rt.int_of_float x
      | str s ↦ rt.int_of_text s
      | _ ↦ raised type_error
    ]
  ]

  -- `float(value)`
  unfoldable pub to_float : Json → Py Float
  to_float (boolean true) = returned (rt.milli 1000)
  to_float (boolean false) = returned (rt.milli 0)
  to_float (integer n) = rt.float_of_int n
  to_float (real x) = returned x
  to_float (str s) = elim (rt.float_of_text s) [ some x ↦ returned x | none ↦ raised value_error ]
  to_float _ = raised type_error

  -- What `except (TypeError, ValueError)` makes of the conversion.
  abbrev pub caught : Py Float → Py (Option Float)
  caught (returned x) = returned (some x)
  caught (raised type_error) = returned none
  caught (raised value_error) = returned none
  caught (raised e) = raised e

  -- `_optional_float`; None is no number either.
  unfoldable pub optional_float : Json → Py (Option Float)
  optional_float v = caught (to_float v)

  -- `_first_float`
  unfoldable pub first_float : List Json → Py (Option Float)
  first_float [] = returned none
  first_float (v ∷ vs) =
      let rest : Py (Option Float) = first_float vs in
      optional_float v >>= λ o. elim o [ some x ↦ returned (some x) | none ↦ rest ]
