-- ===== src/Prelude/Json.antt =====
-- The values of a payload `dict[str, Any]`. `float` and `other` stand for a float and for any other
-- object, each by its truth value and an identity; a list and a tuple are told apart.
use Prim.Native.Nat.{ℕ, zero, suc}
use Prim.Native.String.{String}
use mathlib.Core.Bool.{Bool, true, false}
use mathlib.Core.Option.{Option, none, some}
use mathlib.Core.List.{List, [], ◌∷◌}
use text.Mathlib.Text.{◌==◌}
use agent_kernel.Prelude.Tests.{if◌then◌else◌}

mutual
  pub data Value : Type 0 where
    null : Value
    bool : Bool → Value
    int : ℕ → Value
    neg_int : ℕ → Value
    float : Bool → ℕ → Value
    str : String → Value
    list : Items → Value
    tuple : Items → Value
    dict : Fields → Value
    other : Bool → ℕ → Value

  pub data Items : Type 0 where
    nil : Items
    cons : Value → Items → Items

  pub data Fields : Type 0 where
    end : Fields
    field : String → Value → Fields → Fields

-- `payload.get(key)`
unfoldable pub get_item : String → Fields → Value
get_item k end = null
get_item k (field j v m) = if j == k then v else get_item k m

-- `payload.get(key, default)`
unfoldable pub get_or : String → Fields → Value → Value
get_or k end d = d
get_or k (field j v m) d = if j == k then v else get_or k m d

-- `isinstance(value, dict)`, with the dict
abbrev pub as_dict : Value → Option Fields
as_dict (dict m) = some m
as_dict _ = none

abbrev pub as_str : Value → Option String
as_str (str s) = some s
as_str _ = none

abbrev pub as_bool : Value → Option Bool
as_bool (bool b) = some b
as_bool _ = none

-- `value` where it is an `int` above 0; `True` is one, and counts 1.
abbrev pub as_positive : Value → Option ℕ
as_positive (bool true) = some 1
as_positive (int (suc n)) = some (suc n)
as_positive _ = none

-- `bool(value)`
abbrev pub truthy : Value → Bool
truthy null = false
truthy (bool b) = b
truthy (int zero) = false
truthy (int (suc n)) = true
truthy (neg_int n) = true
truthy (float b n) = b
truthy (str s) = if s == "" then false else true
truthy (list nil) = false
truthy (list (cons v vs)) = true
truthy (tuple nil) = false
truthy (tuple (cons v vs)) = true
truthy (dict end) = false
truthy (dict (field k v m)) = true
truthy (other b n) = b

abbrev pub text_items : List String → Items
text_items [] = nil
text_items (s ∷ r) = cons (str s) (text_items r)
