-- ===== src/Base/Texts.antt =====
-- Template literals, `trim`, and the text tests of the code.
use Prim.Native.Nat.{ℕ, zero, suc, ◌/◌, ◌%◌, ◌+◌}
use Prim.Native.Char.{Char, code}
use Prim.Native.String.{String, ◌++◌, slice}
use mathlib.Core.Bool.{Bool, false, ◌&&◌, ◌||◌}
use mathlib.Core.List.{List, [], ◌∷◌}
use eventcommerce_os.Base.Tests.{◌==◌, string_eq, nat_eq, leb, ltb, if◌then◌else◌}

-- `${a}b${c}` as the list of its pieces
abbrev pub template : List String → String
template [] = ""
template (s ∷ ss) = s ++ template ss

-- the truthiness of a string, negated
abbrev pub is_empty : String → Bool
is_empty s = s == ""

-- the white space of JavaScript's `trim`, by its code points
abbrev pub is_space : ℕ → Bool
is_space n =
    (leb 9 n && leb n 13)
    || n == 32
    || n == 160
    || n == 5760
    || (leb 8192 n && leb n 8202)
    || n == 8232
    || n == 8233
    || n == 8239
    || n == 8287
    || n == 12288
    || n == 65279

unfoldable pub trim_start : String → String
trim_start String.[] = String.[]
trim_start (String.◌∷◌ c s) =
    let rest = trim_start s in if is_space (code c) then rest else String.◌∷◌ c s

unfoldable pub trim_end : String → String
trim_end String.[] = String.[]
trim_end (String.◌∷◌ c s) =
    let rest = trim_end s in
    if is_empty rest && is_space (code c) then String.[] else String.◌∷◌ c rest

-- `s.trim()`
unfoldable pub trim : String → String
unfolding trim_start trim_end
trim s = trim_end (trim_start s)

-- `/^[A-Z]{3}$/.test(s)`
abbrev pub is_capital : Char → Bool
is_capital c = leb 65 (code c) && leb (code c) 90

unfoldable pub is_currency_code : String → Bool
is_currency_code (String.◌∷◌ a (String.◌∷◌ b (String.◌∷◌ c String.[]))) =
    is_capital a && is_capital b && is_capital c
is_currency_code _ = false

-- a number in a template literal; a number has no more digits than it has units, and one
abbrev pub digits : ℕ → ℕ → String
digits zero n = ""
digits (suc fuel) n =
    let rest = digits fuel (n / 10) in
    (if ltb n 10 then "" else rest) ++ slice "0123456789" (n % 10) (n % 10 + 1)

unfoldable pub decimal : ℕ → String
decimal n = digits (suc n) n
