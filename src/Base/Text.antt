-- ===== src/Base/Text.antt =====
-- The functions on texts that the program takes from Go's `strings`, `path` and `strconv`.
use Prim.Native.Nat.{ℕ, zero, suc, ◌+◌, ◌/◌, ◌%◌}
use Prim.Native.Char.{Char}
use Prim.Native.String.{String, ◌++◌}
use Prim.Native.String
use mathlib.Core.Path.{◌≡◌}
use mathlib.Core.Logic.{◌≢◌}
use native.Mathlib.Omega.{arith}
use text.Mathlib.TextLemmas.{cons-append}
use text.Mathlib.TextEquality.{eq_iff}
use mathlib.Core.Bool.{Bool, true, false}
use mathlib.Core.Option.{none, some}
use mathlib.Core.List.{List, [], ◌∷◌}
use text.Mathlib.Text.{◌==◌, find?}
use lc_extension.Base.Tests.{eqb, ltb, if◌then◌else◌}

-- strings.Contains
unfoldable pub contains : String → String → Bool
contains text part = elim (find? text part) [ none ↦ false | some _ ↦ true ]

-- slices.Contains on texts
abbrev pub has_text : List String → String → Bool
has_text [] t = false
has_text (x ∷ xs) t = if x == t then true else has_text xs t

-- One decimal digit.
unfoldable pub digit : ℕ → String
digit n =
    if eqb n 0
    then "0"
    else if eqb n 1
    then "1"
    else if eqb n 2
    then "2"
    else if eqb n 3
    then "3"
    else if eqb n 4
    then "4"
    else if eqb n 5
    then "5"
    else if eqb n 6
    then "6"
    else if eqb n 7
    then "7"
    else if eqb n 8
    then "8"
    else "9"

-- The digits of `n`, before `rest`. A number has no more digits than the fuel, its successor.
unfoldable pub decimal_onto : ℕ → ℕ → String → String
decimal_onto zero n rest = rest
decimal_onto (suc fuel) n rest =
    let text = Prim.Native.String.◌++◌ (digit (n % 10)) rest in
    let more = decimal_onto fuel (n / 10) text in if ltb n 10 then text else more

-- `%d` of a number that is not negative
unfoldable pub decimal : ℕ → String
unfolding decimal_onto digit
decimal n = decimal_onto (n + 1) n ""

-- A text with a character in front is not empty, whatever is behind it.
pub append_not_empty : (c : Char) (front rest : String) → String.◌∷◌ c front ++ rest ≢ ""
append_not_empty c front rest h = let e = cons-append c front rest in cc

pub append_is_said : (c : Char) (front rest : String) → (String.◌∷◌ c front ++ rest == "") ≡ false
append_is_said c front rest =
    ground (arith, eq_iff (String.◌∷◌ c front ++ rest) "", append_not_empty c front rest)
