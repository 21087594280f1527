-- ===== src/Base/Values.antt =====
-- The JSON values that the services read as Python dicts and lists.
use Prim.Native.Nat.{ℕ}
use Prim.Native.String.{String}
use mathlib.Core.Bool.{Bool}
use mathlib.Core.List.{List, [], ◌∷◌}
use text.Mathlib.Text.{◌==◌ as str_eq}
use skill_kernel.Base.Tests.{if◌then◌else◌}
use skill_kernel.Base.Int.{ℤ}

-- A float, by a number that stands for it: what Python does with floats is a parameter.
pub record Float : Type 0 where
  pub code : ℕ

mutual
  pub data Json : Type 0 where
    null : Json
    boolean : Bool → Json
    integer : ℤ → Json
    real : Float → Json
    str : String → Json
    array : Items → Json
    object : Fields → Json

  pub data Items : Type 0 where
    nil : Items
    item : Json → Items → Items

  -- A dict, in its order, with a key at most once.
  pub data Fields : Type 0 where
    end : Fields
    field : String → Json → Fields → Fields

-- `d.get(key)`, where a missing key gives None.
abbrev pub get : String → Fields → Json
get key end = null
get key (field k v fs) = if str_eq k key then v else get key fs

-- `value if isinstance(value, dict) else {}`
abbrev pub dict_of : Json → Fields
dict_of (object fs) = fs
dict_of _ = end

abbrev pub items_list : Items → List Json
items_list nil = []
items_list (item v xs) = v ∷ items_list xs

abbrev pub keys : Fields → List String
keys end = []
keys (field k v fs) = k ∷ keys fs

abbrev pub is_dict_empty : Fields → Bool
is_dict_empty end = Bool.true
is_dict_empty (field k v fs) = Bool.false
