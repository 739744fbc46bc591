-- ===== src/Server.antt =====
-- server/webserver/server.go: the address that RunExtension listens on. strconv.ParseInt is written
-- out; starting the server and stopping it on a signal are not modelled.
pub mod Ports
use Prim.Native.Char.{Char, code}
use Prim.Native.String.{[], ◌∷◌}
use lc_extension.Base.{
  ℕ, String, ◌<>◌, ◌==◌, ◌+◌, ◌-◌, ◌*◌, ◌&&◌, Bool, Option, none, some, ltb, leb, eqb,
  if◌then◌else◌,
}
use lc_extension.Common.Schema.{ℤ, pos, negsuc, decimal_int}

abbrev pub is_digit : Char → Bool
is_digit c = leb 48 (code c) && leb (code c) 57

-- The value of digits, behind those of `n`
unfoldable pub number_onto : ℕ → String → Option ℕ
number_onto n [] = some n
number_onto n (c ∷ s) =
    let rest = number_onto (n * 10 + (code c - 48)) s in if is_digit c then rest else none

-- The digits behind a sign; there has to be one.
unfoldable pub digits : String → Option ℕ
unfolding number_onto
digits [] = none
digits (c ∷ s) = number_onto 0 (c ∷ s)

unfoldable pub positive : Option ℕ → Option ℤ
positive none = none
positive (some n) = if ltb n 32768 then some (pos n) else none

unfoldable pub negative : Option ℕ → Option ℤ
negative none = none
negative (some n) =
    if eqb n 0 then some (pos 0) else if leb n 32768 then some (negsuc (n - 1)) else none

-- strconv.ParseInt(p, 10, 16); `none` is an error.
unfoldable pub parse_int16 : String → Option ℤ
unfolding digits positive negative
parse_int16 [] = none
parse_int16 (c ∷ s) =
    if eqb (code c) 43
    then positive (digits s)
    else if eqb (code c) 45
    then negative (digits s)
    else positive (digits (c ∷ s))

listening : Option ℤ → Option String
listening none = none
listening (some port) = some (":" <> decimal_int port)

-- `srv.Addr`, by what stands in PORT; `none` is a panic.
unfoldable pub listen_address : String → Option String
unfolding parse_int16 listening
listen_address p = listening (if p == "" then some (pos 80) else parse_int16 p)
