-- ===== src/Core/Extension/Exchange.antt =====
-- One HTTP exchange: what the handler has written, whom it has told of errors, and the small
-- monad that `ServeHTTP` runs in. A panic keeps the exchange as it stood.
use lc_extension.Base.{ℕ, String, ◌<>◌, ◌==◌, ◌&&◌, not, List, [], ◌∷◌, ◌++◌}
use lc_extension.Base.{Option, none, some, eqb, if◌then◌else◌}
use lc_extension.Base.Effect.{Result, ok, err}
use lc_extension.Common.Messages.{ErrorReportMessage, Response}
use lc_extension.Core.Platform.{Platform, Reply, response}
use lc_extension.Core.Extension.{ExtensionOf, Called, returned, crashed}

-- A status line with the body behind it.
pub record Written : Type 0 where
  pub status : ℕ
  pub body : String

pub record Exchange (W : Type 0) : Type 0 where
  pub world : W
  -- what ErrorHandler was called with
  pub reports : List ErrorReportMessage
  pub written : List Written

pub data Outcome (W A : Type 0) : Type 0 where
  finished : A → Exchange W → Outcome W A
  panicked : Exchange W → Outcome W A

abbrev pub Serve : Type 0 → Type 0 → Type 0
Serve W A = Exchange W → Outcome W A

module _ {W : Type 0} where
  abbrev pub pure : {A : Type 0} → A → Serve W A
  pure a x = finished a x

  abbrev pub panic : {A : Type 0} → Serve W A
  panic x = panicked x

  abbrev pub follow : {A B : Type 0} → Outcome W A → (A → Serve W B) → Outcome W B
  follow (finished a x) f = f a x
  follow (panicked x) f = panicked x

  infixl 5 ◌>>=◌ ◌>>◌
  abbrev pub ◌>>=◌ : {A B : Type 0} → Serve W A → (A → Serve W B) → Serve W B
  ◌>>=◌ m f x = follow (m x) f

  abbrev pub ◌>>◌ : {B : Type 0} → Serve W (Unit {0}) → Serve W B → Serve W B
  m >> k = m >>= λ _. k

  -- `if err != nil`, and a member or a map entry that may be missing
  abbrev pub on_result :
      {A B : Type 0} → Result A → (String → Serve W B) → (A → Serve W B) → Serve W B
  on_result (err c) g f = g c
  on_result (ok a) g f = f a

  abbrev pub on_option : {A B : Type 0} → Option A → Serve W B → (A → Serve W B) → Serve W B
  on_option none g f = g
  on_option (some a) g f = f a

  -- A call of the SDK changes the world alone.
  abbrev pub call : {A : Type 0} → (W → A × W) → Serve W A
  call m x = let (a, w) = m x.world in finished a (record x { world = w })

  -- A callback of the extension
  abbrev pub ended_call : Called W → Exchange W → Outcome W Response
  ended_call (returned r w) x = finished r (record x { world = w })
  ended_call (crashed w) x = panicked (record x { world = w })

  abbrev pub call_back : (W → Called W) → Serve W Response
  call_back m x = ended_call (m x.world) x

module _ (P : Platform) (e : ExtensionOf P) where
  -- e.Callbacks.ErrorHandler(...)
  unfoldable pub report : ErrorReportMessage → Serve P.World (Unit {0})
  report m x = elim (e.callbacks.error_handler) [
    | none ↦ panicked x
    | some handler ↦
        finished tt (record x { world = handler m x.world; reports = x.reports ++ (m ∷ []) })
  ]

  -- net/http refuses a body behind "204 No Content".
  send : ℕ → Reply → Result String
  send status r =
      if eqb status 204
      then err "http: request method or response status code does not allow body"
      else P.encode r

  -- respond: what goes on the wire, and the error of encoding
  unfoldable pub respond : ℕ → Option Reply → Written × Result (Unit {0})
  unfolding send
  respond status none = (record { status = status; body = "" }, ok tt)
  respond status (some r) = elim (send status r) [
    | ok text ↦ (record { status = status; body = text }, ok tt)
    | err m ↦ (record { status = status; body = "" }, err ("failed to encode response: " <> m))
  ]

  -- The error text that `isLogAllErrors` repeats to ErrorHandler: that of a response.
  abbrev pub logged_error : Option Reply → String
  logged_error (some (response r)) = r.error
  logged_error _ = ""

  -- `w.WriteHeader` and the body behind it
  unfoldable pub write : Written → Serve P.World (Unit {0})
  write line x = finished tt (record x { written = x.written ++ (line ∷ []) })

  -- Extension.respondAndLog
  unfoldable pub respond_and_log : ℕ → Option Reply → Serve P.World (Unit {0})
  unfolding respond report write
  respond_and_log status r = do
    if e.is_log_all_errors && not (logged_error r == "")
        then report (record { error = logged_error r; oid = "" })
        else pure tt
    write (respond status r).0
    on_result (respond status r).1
        (λ m. report (record { error = "failed to respond: " <> m; oid = "" })) pure
