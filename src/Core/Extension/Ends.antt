-- ===== src/Core/Extension/Ends.antt =====
-- Rules for what holds at the end of an exchange, one for each way to build a `Serve`.
use lc_extension.Base.{◌≡◌, refl, String, Bool, true, false, Option, none, some, if◌then◌else◌}
use lc_extension.Base.Effect.{Result, ok, err}
use lc_extension.Core.Extension.Exchange.{
  Exchange, Outcome, finished, panicked, Serve, on_option, on_result, follow, ◌>>=◌,
}

abbrev pub Relation : Type 0 → Type 1
Relation W = Exchange W → Exchange W → Type 0

-- `Done` relates the start to a normal end, `Dead` to a panic.
abbrev pub Ended : {W A : Type 0} → Relation W → Relation W → Exchange W → Outcome W A → Type 0
Ended Done Dead x (finished a y) = Done x y
Ended Done Dead x (panicked y) = Dead x y

pub record Ends {W A : Type 0} (Done Dead : Relation W) (m : Serve W A) : Type 0 where
  pub at : (x : Exchange W) → Ended Done Dead x (m x)

module _ {W : Type 0} {Done Dead : Relation W} {A : Type 0} where
  pub Ends-option :
      {B : Type 0} (o : Option B) (g : Serve W A) (f : B → Serve W A)
      → Ends Done Dead g
      → ((b : B) → Ends Done Dead (f b))
      → Ends Done Dead (on_option o g f)
  Ends-option none g f h k = h
  Ends-option (some b) g f h k = k b

  -- The same with the equation at hand
  pub Ends-option_at :
      {B : Type 0} (o : Option B) (g : Serve W A) (f : B → Serve W A)
      → Ends Done Dead g
      → ((b : B) → o ≡ some b → Ends Done Dead (f b))
      → Ends Done Dead (on_option o g f)
  Ends-option_at none g f h k = h
  Ends-option_at (some b) g f h k = k b refl

  pub Ends-result :
      {B : Type 0} (r : Result B) (g : String → Serve W A) (f : B → Serve W A)
      → ((c : String) → Ends Done Dead (g c))
      → ((b : B) → Ends Done Dead (f b))
      → Ends Done Dead (on_result r g f)
  Ends-result (err c) g f h k = h c
  Ends-result (ok b) g f h k = k b

  pub Ends-if :
      (b : Bool) (m n : Serve W A)
      → Ends Done Dead m
      → Ends Done Dead n
      → Ends Done Dead (if b then m else n)
  Ends-if true m n h k = h
  Ends-if false m n h k = k

module _ {W : Type 0} {First Rest RestDead Done Dead : Relation W}
    (join : (x y z : Exchange W) → First x y → Rest y z → Done x z)
    (join_dead : (x y z : Exchange W) → First x y → RestDead y z → Dead x z) where
  follow-Ended :
      {A B : Type 0} (f : A → Serve W B) (x : Exchange W) (o : Outcome W A)
      → Ended First Dead x o
      → ((a : A) → Ends Rest RestDead (f a))
      → Ended Done Dead x (follow o f)
  follow-Ended {B = B} f x (finished a y) q h = rest (f a y) ((h a).at y)
    where
      rest : (o : Outcome W B) → Ended Rest RestDead y o → Ended Done Dead x o
      rest (finished b z) d = join x y z q d
      rest (panicked z) d = join_dead x y z q d
  follow-Ended f x (panicked y) q h = q

  pub Ends-bind :
      {A B : Type 0} (m : Serve W A) (f : A → Serve W B)
      → Ends First Dead m
      → ((a : A) → Ends Rest RestDead (f a))
      → Ends Done Dead (m >>= f)
  Ends-bind m f q h = record { at = λ x. follow-Ended f x (m x) (q.at x) h }
