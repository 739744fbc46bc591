-- ===== src/Base/GoMap.antt =====
-- Go maps with text keys, as association lists. Go leaves the order of iteration open: a theorem
-- about every list holds for every order.
use Prim.Native.String.{String}
use mathlib.Core.Path.{◌≡◌, refl}
use mathlib.Core.Option.{Option, none, some}
use mathlib.Core.List.{List, [], ◌∷◌}
use native.Mathlib.Omega.{arith}
use text.Mathlib.Text.{◌==◌}
use text.Mathlib.TextEquality.{eq_iff}
use lc_extension.Base.Tests.{if◌then◌else◌}

abbrev pub GoMap {ℓ} : Type ℓ → Type ℓ
GoMap V = List (String × V)

module _ {ℓ} {V : Type ℓ} where
  -- `v, ok := m[k]`
  unfoldable pub lookup : String → GoMap V → Option V
  lookup k [] = none
  lookup k ((j, v) ∷ m) = if j == k then some v else lookup k m

  -- `m[k] = v`
  unfoldable pub insert : String → V → GoMap V → GoMap V
  insert k v [] = (k, v) ∷ []
  insert k v ((j, w) ∷ m) = if j == k then (k, v) ∷ m else (j, w) ∷ insert k v m

  -- `delete(m, k)`
  unfoldable pub erase : String → GoMap V → GoMap V
  erase k [] = []
  erase k ((j, v) ∷ m) = let rest = erase k m in if j == k then rest else (j, v) ∷ rest

  -- The keys, in the order in which a range loop meets them.
  unfoldable pub keys : GoMap V → List String
  keys [] = []
  keys ((k, v) ∷ m) = k ∷ keys m

  -- What a write and a deletion do to every later read.
  pub lookup-insert :
      (written read : String) (v : V) (m : GoMap V)
      → lookup read (insert written v m) ≡ (if written == read then some v else lookup read m)
  unfolding lookup insert
  lookup-insert written read v [] = refl
  lookup-insert written read v ((here, old) ∷ m) = ground (
    arith,
    lookup-insert written read v m,
    eq_iff here written,
    eq_iff here read,
    eq_iff written read,
  )

  pub lookup-erase :
      (gone read : String) (m : GoMap V)
      → lookup read (erase gone m) ≡ (if gone == read then none else lookup read m)
  unfolding lookup erase
  lookup-erase gone read [] = ground arith
  lookup-erase gone read ((here, old) ∷ m) =
      ground (arith, lookup-erase gone read m, eq_iff here gone, eq_iff here read, eq_iff gone read)
