-- ===== src/Base/Effect.antt =====
-- Calls that change the world and return a value or an error, `(A, error)` in Go. An error is its
-- text, `err.Error()`; what a call did before it failed stays done.
use Prim.Native.String.{String, ◌++◌}
use mathlib.Core.Path.{◌≡◌, refl, ap}
use mathlib.Core.Logic.{◌≢◌}
use native.Mathlib.Omega.{arith}

pub data Result {ℓ} (A : Type ℓ) : Type ℓ where
  ok : A → Result A
  err : String → Result A

-- `fmt.Errorf("context%v", err)`
abbrev pub wrap {ℓ} : {A : Type ℓ} → String → Result A → Result A
wrap context (ok a) = ok a
wrap context (err e) = err (context ++ e)

abbrev pub Action {ℓ} : Type 0 → Type ℓ → Type ℓ
Action W A = W → Result A × W

module _ {W : Type 0} where
  abbrev pub pure {ℓ} : {A : Type ℓ} → A → Action W A
  pure a w = (ok a, w)

  abbrev pub fail {ℓ} : {A : Type ℓ} → String → Action W A
  fail e w = (err e, w)

  abbrev pub context {ℓ} : {A : Type ℓ} → String → Action W A → Action W A
  context text m w = let (r, w') = m w in (wrap text r, w')

  -- `if v, err := m; err != nil { handle } else { follow v }`
  abbrev pub on_result {ℓ κ} :
      {A : Type ℓ} {B : Type κ} → Result A → (A → Action W B) → (String → Action W B) → Action W B
  on_result (ok a) f g w = f a w
  on_result (err e) f g w = g e w

  abbrev pub attempt {ℓ κ} :
      {A : Type ℓ} {B : Type κ} → Action W A → (A → Action W B) → (String → Action W B) → Action W B
  attempt m f g w = let (r, w') = m w in on_result r f g w'

  infixl 5 ◌>>=◌ ◌>>◌
  abbrev pub ◌>>=◌ {ℓ κ} : {A : Type ℓ} {B : Type κ} → Action W A → (A → Action W B) → Action W B
  m >>= f = attempt m f fail

  abbrev pub ◌>>◌ {ℓ} : {B : Type ℓ} → Action W (Unit {0}) → Action W B → Action W B
  m >> k = m >>= λ _. k

pub ok_of_not_err {ℓ} :
    {A : Type ℓ} (r : Result A) → ((e : String) → r ≢ err e) → (a : A) × (r ≡ ok a)
ok_of_not_err (ok a) h = (a, refl)
ok_of_not_err (err e) h = absurd (h e refl)

pub ok_inj {ℓ} : {A : Type ℓ} {a b : A} → ok a ≡ ok b → a ≡ b
ok_inj p = cc

-- Inversion of calls that succeed.
wrap-eq-ok {ℓ} : {A : Type ℓ} (text : String) (r : Result A) {a : A} → wrap text r ≡ ok a → r ≡ ok a
wrap-eq-ok text (ok b) h = h
wrap-eq-ok text (err e) h = cc

module _ {W : Type 0} where
  on_result-eq-ok {ℓ κ} :
      {A : Type ℓ} {B : Type κ} (r : Result A) (f : A → Action W B) (v : W) {b : B} {w' : W}
      → on_result r f fail v ≡ (ok b, w')
      → (a : A) × (r ≡ ok a) × (f a v ≡ (ok b, w'))
  on_result-eq-ok (ok a) f v h = (a, refl, h)
  on_result-eq-ok (err e) f v h = cc

  pub >>=-eq-ok {ℓ κ} :
      {A : Type ℓ} {B : Type κ} (m : Action W A) (f : A → Action W B) (w : W) {b : B} {w' : W}
      → (m >>= f) w ≡ (ok b, w')
      → (a : A) × (v : W) × (m w ≡ (ok a, v)) × (f a v ≡ (ok b, w'))
  >>=-eq-ok m f w h =
      let (a, r, k) = on_result-eq-ok (m w).0 f (m w).1 h in (a, (m w).1, ground arith, k)

  pub context-eq-ok {ℓ} :
      {A : Type ℓ} (text : String) (m : Action W A) (w : W) {a : A} {w' : W}
      → context text m w ≡ (ok a, w')
      → m w ≡ (ok a, w')
  context-eq-ok text m w h = ground (arith, wrap-eq-ok text (m w).0)

  -- The same of a call whose error gets a context, and what follows it.
  pub context->>=-eq-ok {ℓ κ} :
      {A : Type ℓ} {B : Type κ} (text : String) (m : Action W A) (f : A → Action W B) (w : W)
      {b : B} {w' : W}
      → (context text m >>= f) w ≡ (ok b, w')
      → (a : A) × (v : W) × (m w ≡ (ok a, v)) × (f a v ≡ (ok b, w'))
  context->>=-eq-ok text m f w h =
      let (a, v, first, rest) = >>=-eq-ok (context text m) f w h in
      (a, v, context-eq-ok text m w first, rest)

  -- A call that succeeds, and what follows it
  pub >>=-of_ok {ℓ κ} :
      {A : Type ℓ} {B : Type κ} (m : Action W A) (f : A → Action W B) (w : W) {a : A} {v : W}
      → m w ≡ (ok a, v)
      → (m >>= f) w ≡ f a v
  >>=-of_ok m f w h = ap (λ x. on_result x.0 f fail x.1) h

  pub context-of_ok {ℓ} :
      {A : Type ℓ} (text : String) (m : Action W A) (w : W) {a : A} {v : W}
      → m w ≡ (ok a, v)
      → context text m w ≡ (ok a, v)
  context-of_ok text m w h = ap (λ x. (wrap text x.0, x.1)) h

  -- No error of the call has an empty text, so a response tells whether it failed.
  abbrev pub Speaks {ℓ} : {A : Type ℓ} → Action W A → Type ℓ
  Speaks m = (w : W) → (m w).0 ≢ err ""

  on_result-Speaks {ℓ κ} :
      {A : Type ℓ} {B : Type κ} (r : Result A) (f : A → Action W B) (w : W)
      → r ≢ err ""
      → ((a : A) → Speaks (f a))
      → (on_result r f fail w).0 ≢ err ""
  on_result-Speaks (ok a) f w h k = k a w
  on_result-Speaks (err e) f w h k = λ p. h (cc)

  pub >>=-Speaks {ℓ κ} :
      {A : Type ℓ} {B : Type κ} (m : Action W A) (f : A → Action W B)
      → Speaks m
      → ((a : A) → Speaks (f a))
      → Speaks (m >>= f)
  >>=-Speaks m f h k w = on_result-Speaks (m w).0 f (m w).1 (h w) k
