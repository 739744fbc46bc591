-- ===== src/Server/Ports.antt =====
-- Which ports a server can be asked for.
use Prim.Native.Char.{Char, code}
use text.Mathlib.TextLemmas.{cons-append, nil-append}
use lc_extension.Base.{
  ℕ, zero, suc, String, ◌<>◌, ◌==◌, ◌+◌, ◌-◌, ◌*◌, ◌/◌, ◌%◌, ◌≤◌, ◌<◌, ◌≡◌, ◌≢◌, refl, ap, ◌∙◌, sym,
  true, false, none, some, ltb, decimal, decimal_onto, digit, arith, eq_iff, inl, inr, Bool,
  Bool-cases, eqb, if◌then◌else◌,
}
use lc_extension.Common.Schema.{pos}
use lc_extension.Server.{
  is_digit, number_onto, digits, positive, parse_int16, listening, listen_address,
}

-- The text is the digit of a number.
abbrev Reads : ℕ → String → Type 0
Reads d s = (c : Char) × (s ≡ String.◌∷◌ c String.[]) × (code c ≡ 48 + d)

digit-Reads : (n : ℕ) → n < 10 → Reads n (digit n)
unfolding digit
digit-Reads zero h = ("0", refl, refl)
digit-Reads (suc zero) h = ("1", refl, refl)
digit-Reads (suc (suc zero)) h = ("2", refl, refl)
digit-Reads (suc (suc (suc zero))) h = ("3", refl, refl)
digit-Reads (suc (suc (suc (suc zero)))) h = ("4", refl, refl)
digit-Reads (suc (suc (suc (suc (suc zero))))) h = ("5", refl, refl)
digit-Reads (suc (suc (suc (suc (suc (suc zero)))))) h = ("6", refl, refl)
digit-Reads (suc (suc (suc (suc (suc (suc (suc zero))))))) h = ("7", refl, refl)
digit-Reads (suc (suc (suc (suc (suc (suc (suc (suc zero)))))))) h = ("8", refl, refl)
digit-Reads (suc (suc (suc (suc (suc (suc (suc (suc (suc zero))))))))) h = ("9", refl, refl)
digit-Reads (suc (suc (suc (suc (suc (suc (suc (suc (suc (suc n)))))))))) h = absurd (omega arith)

digit_first :
    (d : ℕ) (first rest : String) (digit_is : Reads d first)
    → first <> rest ≡ String.◌∷◌ digit_is.0 rest
digit_first d first rest (c, is, value) =
    ap (λ s. s <> rest) is ∙ cons-append c String.[] rest ∙ ap (String.◌∷◌ c) (nil-append rest)

number_onto-cons :
    (n d : ℕ) (c : Char) (rest : String)
    → d < 10
    → code c ≡ 48 + d
    → number_onto n (String.◌∷◌ c rest) ≡ number_onto (n * 10 + d) rest
unfolding number_onto
number_onto-cons n d c rest h value =
    let ranges : is_digit c ≡ true = ground arith in
    let offset : code c - 48 ≡ d = omega arith in
    rw ranges (ap (λ k. number_onto (n * 10 + k) rest) offset)

number_onto-digit :
    (n d : ℕ) (first rest : String)
    → d < 10
    → Reads d first
    → number_onto n (first <> rest) ≡ number_onto (n * 10 + d) rest
number_onto-digit n d first rest h digit_is =
    ap (number_onto n) (digit_first d first rest digit_is)
    ∙ number_onto-cons n d digit_is.0 rest h digit_is.2

number_onto-decimal_onto :
    (fuel n : ℕ) (rest : String)
    → n < fuel
    → number_onto 0 (decimal_onto fuel n rest) ≡ number_onto n rest
unfolding decimal_onto
number_onto-decimal_onto zero n rest h = absurd (omega arith)
number_onto-decimal_onto (suc fuel) n rest h = elim (Bool-cases (ltb n 10)) [
  | inl last ↦ rw last (
      number_onto-digit 0 (n % 10) (digit (n % 10)) rest (omega arith)
        (digit-Reads (n % 10) (omega arith))
      ∙ ap (λ k. number_onto k rest) (let e : 0 * 10 + n % 10 ≡ n = ground arith in e))
  | inr more ↦ rw more (
      number_onto-decimal_onto fuel (n / 10) (digit (n % 10) <> rest) (ground arith)
      ∙ number_onto-digit (n / 10) (n % 10) (digit (n % 10)) rest (omega arith)
          (digit-Reads (n % 10) (omega arith))
      ∙ ap (λ k. number_onto k rest) (let e : n / 10 * 10 + n % 10 ≡ n = omega arith in e))
]

-- A text that a digit begins
abbrev HeadDigit : String → Type 0
HeadDigit s = (c : Char) × (t : String) × (s ≡ String.◌∷◌ c t) × (48 ≤ code c) × (code c ≤ 57)

if-HeadDigit :
    (b : Bool) (s t : String) → HeadDigit s → HeadDigit t → HeadDigit (if b then s else t)
if-HeadDigit true s t h k = h
if-HeadDigit false s t h k = k

digit-HeadDigit : (n : ℕ) (rest : String) → n < 10 → HeadDigit (digit n <> rest)
digit-HeadDigit n rest h =
    let (c, is, value) = digit-Reads n h in
    (c, rest, digit_first n (digit n) rest (c, is, value), omega arith, omega arith)

decimal_onto-HeadDigit :
    (fuel n : ℕ) (rest : String) → HeadDigit rest → HeadDigit (decimal_onto fuel n rest)
unfolding decimal_onto
decimal_onto-HeadDigit zero n rest h = h
decimal_onto-HeadDigit (suc fuel) n rest h =
    let last = digit-HeadDigit (n % 10) rest (omega arith) in
    if-HeadDigit (ltb n 10) _ _ last (decimal_onto-HeadDigit fuel (n / 10) _ last)

decimal-HeadDigit : (fuel n : ℕ) → 0 < fuel → HeadDigit (decimal_onto fuel n "")
unfolding decimal_onto
decimal-HeadDigit zero n h = absurd (omega arith)
decimal-HeadDigit (suc fuel) n h =
    let last = digit-HeadDigit (n % 10) "" (omega arith) in
    if-HeadDigit (ltb n 10) _ _ last (decimal_onto-HeadDigit fuel (n / 10) _ last)

parse_int16-HeadDigit : (s : String) → HeadDigit s → parse_int16 s ≡ positive (number_onto 0 s)
unfolding parse_int16 digits
parse_int16-HeadDigit s (c, t, is, low, high) =
    let no_plus : eqb (code c) 43 ≡ false = ground arith in
    let no_minus : eqb (code c) 45 ≡ false = ground arith in
    let parsed : parse_int16 (String.◌∷◌ c t) ≡ positive (number_onto 0 (String.◌∷◌ c t)) =
      rw (no_plus, no_minus) refl in
    ap parse_int16 is ∙ parsed ∙ ap (λ u. positive (number_onto 0 u)) (sym is)

parse_int16-decimal :
    (n : ℕ) → parse_int16 (decimal n) ≡ (if ltb n 32768 then some (pos n) else none)
unfolding decimal positive number_onto
parse_int16-decimal n =
    parse_int16-HeadDigit _ (decimal-HeadDigit (n + 1) n (omega arith))
    ∙ ap positive (number_onto-decimal_onto (n + 1) n "" (omega arith))

HeadDigit-not_empty : (s : String) → HeadDigit s → s ≢ ""
HeadDigit-not_empty s (c, t, is, low, high) empty = cc

decimal-said : (n : ℕ) → (decimal n == "") ≡ false
unfolding decimal
decimal-said n =
    let said = HeadDigit-not_empty _ (decimal-HeadDigit (n + 1) n (omega arith)) in
    ground (arith, eq_iff (decimal_onto (n + 1) n "") "", said)

-- RunExtension listens on the port that stands in PORT in decimal notation if the port is below
-- 32768, and panics on every other number, those of ports among them.
pub listen_address-decimal :
    (n : ℕ) → listen_address (decimal n) ≡ (if ltb n 32768 then some (":" <> decimal n) else none)
unfolding listen_address listening
listen_address-decimal n =
    let said = decimal-said n in
    let parsed = parse_int16-decimal n in
    rw (said, parsed)
      (elim (Bool-cases (ltb n 32768)) [ inl fits ↦ rw fits refl | inr exceeds ↦ rw exceeds refl ])
