-- ===== src/Prelude/Text.antt =====
-- Python's text: f-strings, `str` of a number, `strip` and `startswith`.
use Prim.Native.Nat.{ℕ, zero, suc, ◌/◌, ◌%◌}
use Prim.Native.Char.{Char, code}
use Prim.Native.String.{String, ◌++◌}
use mathlib.Core.Path.{◌≡◌, refl}
use mathlib.Core.Bool.{true, false, Bool, ◌&&◌, ◌||◌}
use mathlib.Core.List.{List, [], ◌∷◌}
use mathlib.Core.Option.{Option, none, some}
use text.Mathlib.Text.{◌==◌, starts_with}
use agent_kernel.Prelude.Json
use agent_kernel.Prelude.Tests.{ltb, leb, if◌then◌else◌}

-- The parts of an f-string, joined.
abbrev pub concat : List String → String
concat [] = ""
concat (s ∷ []) = s
concat (s ∷ t ∷ r) = s ++ concat (t ∷ r)

abbrev digit : ℕ → String
digit zero = "0"
digit (suc zero) = "1"
digit (suc (suc zero)) = "2"
digit (suc (suc (suc zero))) = "3"
digit (suc (suc (suc (suc zero)))) = "4"
digit (suc (suc (suc (suc (suc zero))))) = "5"
digit (suc (suc (suc (suc (suc (suc zero)))))) = "6"
digit (suc (suc (suc (suc (suc (suc (suc zero))))))) = "7"
digit (suc (suc (suc (suc (suc (suc (suc (suc zero)))))))) = "8"
digit _ = "9"

digits : ℕ → ℕ → String
digits zero n = ""
digits (suc f) n =
    let more = digits f (n / 10) ++ digit (n % 10) in if ltb n 10 then digit n else more

-- `str(n)`; a number has at most n + 1 digits, so the fuel is enough.
unfoldable pub str : ℕ → String
unfolding digits
str n = digits (suc n) n

-- Python's `int`; `negsuc n` is -(n + 1).
pub data ℤ : Type 0 where
  pos : ℕ → ℤ
  negsuc : ℕ → ℤ

abbrev pub is_negative : ℤ → Bool
is_negative (pos n) = false
is_negative (negsuc n) = true

unfoldable pub str_ℤ : ℤ → String
unfolding str
str_ℤ (pos n) = str n
str_ℤ (negsuc n) = "-" ++ str (suc n)

abbrev pub is_empty : String → Bool
is_empty s = s == ""

-- Whether an optional text is there and not empty.
abbrev pub is_given : Option String → Bool
is_given none = false
is_given (some s) = if s == "" then false else true

-- What the code takes from the standard library's `json` and `hashlib`, and `repr` and `str`: the two
-- serialisations of a payload with sorted keys, the hex digest, and the texts of other values.
pub record Codec : Type 0 where
  pub dumps : Json.Value → String
  pub dumps_unicode : Json.Value → String
  pub sha256 : String → String
  pub repr : Json.Value → String
  pub to_str : Json.Value → String

-- `str(value)`; a text is itself, and `to_str` answers for all else.
abbrev pub str_of : Codec → Json.Value → String
str_of c (Json.Value.str s) = s
str_of c v = c.to_str v

-- `c.isspace()`, the characters that `strip()` drops.
abbrev is_space : Char → Bool
is_space c =
    let n = code c in
    (leb 9 n && leb n 13)
    || (leb 28 n && leb n 32)
    || leb 133 n && leb n 133
    || leb 160 n && leb n 160
    || leb 5760 n && leb n 5760
    || leb 8192 n && leb n 8202
    || leb 8232 n && leb n 8233
    || leb 8239 n && leb n 8239
    || leb 8287 n && leb n 8287
    || leb 12288 n && leb n 12288

unfoldable pub lstrip : String → String
lstrip String.[] = ""
lstrip (String.◌∷◌ c s) = if is_space c then lstrip s else (String.◌∷◌ c s)

-- A character stays if it, or one behind it, is no space.
abbrev keep : Char → String → String
keep c String.[] = if is_space c then "" else (String.◌∷◌ c String.[])
keep c (String.◌∷◌ d t) = String.◌∷◌ c (String.◌∷◌ d t)

unfoldable pub rstrip : String → String
rstrip String.[] = ""
rstrip (String.◌∷◌ c s) = keep c (rstrip s)

unfoldable pub strip : String → String
unfolding lstrip rstrip
strip s = rstrip (lstrip s)

-- `part in s`
unfoldable pub is_in : String → String → Bool
is_in part String.[] = starts_with "" part
is_in part (String.◌∷◌ c s) = if starts_with (String.◌∷◌ c s) part then true else is_in part s

is_in_runs : is_in "cancel" "user cancelled" ≡ true
unfolding is_in
is_in_runs = refl

strip_runs : strip "  ab c " ≡ "ab c"
unfolding strip
strip_runs = refl

str_runs : str 4070 ≡ "4070"
unfolding str
str_runs = refl

-- `a or b` on optional texts: the empty text counts as absent.
abbrev pub or_text : Option String → Option String → Option String
or_text none b = b
or_text (some s) b = if s == "" then b else some s
