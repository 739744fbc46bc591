-- ===== src/Base/MapKeys.antt =====
-- Maps in which no key stands twice, as in every Go map.
use Prim.Native.String.{String}
use mathlib.Core.Path.{◌≡◌, refl, subst}
use mathlib.Core.Logic.{inl, inr}
use mathlib.Core.Bool.{false}
use mathlib.Core.Option.{none, some}
use mathlib.Core.List.{[], ◌∷◌}
use native.Mathlib.Omega.{arith}
use text.Mathlib.Text.{◌==◌}
use text.Mathlib.TextEquality.{eq_iff}
use text.Mathlib.TextPositions.{eq_refl}
use lc_extension.Base.Tests.{Bool-cases}
use lc_extension.Base.Lists.{All}
use lc_extension.Base.GoMap.{GoMap, lookup, insert, erase}

-- No key stands twice, as in a Go map.
abbrev pub UniqueKeys : {V : Type 0} → GoMap V → Type 0
UniqueKeys [] = Unit
UniqueKeys ((k, v) ∷ m) = All (λ e. (e.0 == k) ≡ false) m × UniqueKeys m

pub lookup-absent :
    {V : Type 0} (k n : String) (m : GoMap V)
    → All (λ e. (e.0 == k) ≡ false) m
    → k ≡ n
    → lookup n m ≡ none
unfolding lookup
lookup-absent k n [] h e = refl
lookup-absent k n ((j, v) ∷ m) h e =
    ground (arith, eq_iff j n, eq_iff j k, lookup-absent k n m h.1 e)

-- Writes and deletions keep the keys apart.
module _ {V : Type 0} where
  abbrev Avoids : String → GoMap V → Type 0
  Avoids k m = All (λ e. (e.0 == k) ≡ false) m

  insert-Avoids :
      (j k : String) (v : V) (m : GoMap V) → (k == j) ≡ false → Avoids j m → Avoids j (insert k v m)
  unfolding insert
  insert-Avoids j k v [] other h = (other, tt)
  insert-Avoids j k v ((i, w) ∷ m) other h = elim (Bool-cases (i == k)) [
    | inl here ↦ rw here (other, h.1)
    | inr there ↦ rw there (h.0, insert-Avoids j k v m other h.1)
  ]

  pub insert-UniqueKeys :
      (k : String) (v : V) (m : GoMap V) → UniqueKeys m → UniqueKeys (insert k v m)
  unfolding insert
  insert-UniqueKeys k v [] h = (tt, tt)
  insert-UniqueKeys k v ((i, w) ∷ m) h = elim (Bool-cases (i == k)) [
    | inl here ↦ rw here (subst (λ j. Avoids j m) (ground (arith, eq_iff i k)) h.0, h.1)
    | inr there ↦ rw there (
      insert-Avoids i k v m (ground (arith, eq_iff i k, eq_iff k i)) h.0,
      insert-UniqueKeys k v m h.1,
    )
  ]

  erase-Avoids : (j k : String) (m : GoMap V) → Avoids j m → Avoids j (erase k m)
  unfolding erase
  erase-Avoids j k [] h = tt
  erase-Avoids j k ((i, w) ∷ m) h = elim (Bool-cases (i == k)) [
    | inl here ↦ rw here (erase-Avoids j k m h.1)
    | inr there ↦ rw there (h.0, erase-Avoids j k m h.1)
  ]

  pub erase-UniqueKeys : (k : String) (m : GoMap V) → UniqueKeys m → UniqueKeys (erase k m)
  unfolding erase
  erase-UniqueKeys k [] h = tt
  erase-UniqueKeys k ((i, w) ∷ m) h = elim (Bool-cases (i == k)) [
    | inl here ↦ rw here (erase-UniqueKeys k m h.1)
    | inr there ↦ rw there (erase-Avoids i k m h.0, erase-UniqueKeys k m h.1)
  ]

  -- Every entry is found under its key.
  entry-lookup :
      (k : String) (v : V) (m rest : GoMap V)
      → Avoids k rest
      → All (λ e. lookup e.0 m ≡ some e.1) rest
      → All (λ e. lookup e.0 ((k, v) ∷ m) ≡ some e.1) rest
  unfolding lookup
  entry-lookup k v m [] apart h = tt
  entry-lookup k v m ((j, w) ∷ rest) apart h =
      (ground (arith, eq_iff j k, eq_iff k j, apart.0, h.0), entry-lookup k v m rest apart.1 h.1)

  pub entries-lookup : (m : GoMap V) → UniqueKeys m → All (λ e. lookup e.0 m ≡ some e.1) m
  unfolding lookup
  entries-lookup [] h = tt
  entries-lookup ((k, v) ∷ m) h =
      (ground (arith, eq_refl k), entry-lookup k v m m h.0 (entries-lookup m h.1))
