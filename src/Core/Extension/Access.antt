-- ===== src/Core/Extension/Access.antt =====
-- Who reaches the callbacks: the signature check of `ServeHTTP`.
use lc_extension.Base.{
  String, ◌≡◌, refl, ◌≢◌, ◌⊎◌, inl, inr, false, [], ◌∷◌, ◌++◌, none, some, arith, eq_iff,
}
use lc_extension.Base.Effect.{Result, ok, err}
use lc_extension.Common.Schema.{no_schema}
use lc_extension.Common.Messages.{ErrorReportMessage}
use lc_extension.Core.Platform.{Platform}
use lc_extension.Core.Extension.{ExtensionOf, verify_origin}
use lc_extension.Core.Extension.Exchange.{Exchange, finished, respond_and_log}
use lc_extension.Core.Extension.Serve.{HttpRequest, open_body, authenticate, serve_http}

module _ (P : Platform) where
  -- An SDK that fails for every organization and touches nothing
  abbrev pub without_sdk : Platform
  without_sdk = record P { new_organization = λ oad w. (err "no SDK", w) }

  -- All that is left of the extension: its secret, ErrorHandler and whether that hears every error
  abbrev pub without_callbacks : ExtensionOf P → ExtensionOf P
  without_callbacks e = record e {
    extension_name = "";
    callbacks = record {
      validate_config = none;
      request_handlers = [];
      event_handlers = [];
      error_handler = e.callbacks.error_handler;
    };
    views_schema = [];
    config_schema = no_schema;
    request_schema = [];
    required_events = [];
    org_from_access = none;
  }

  -- The request carries no signature, or none that fits its body.
  abbrev pub IsUnauthentic : ExtensionOf P → HttpRequest → Type 0
  IsUnauthentic e r =
      (r.signature ≡ "")
      ⊎ ((content : String)
          → open_body P e r ≡ ok (ok content)
          → verify_origin P content r.signature e.secret_key ≡ false)

  module _ (e : ExtensionOf P) (r : HttpRequest) (x : Exchange P.World) where
    serve_body :
        (body : Result (Result String))
        → open_body P e r ≡ body
        → ((content : String)
            → open_body P e r ≡ ok (ok content)
            → verify_origin P content r.signature e.secret_key ≡ false)
        → serve_http P e r x ≡ serve_http without_sdk (without_callbacks e) r x
    unfolding serve_http open_body authenticate verify_origin respond_and_log
    serve_body (err cause) p h = ground arith
    serve_body (ok (err cause)) p h = ground arith
    serve_body (ok (ok content)) p h = ground (arith, h content)

    -- A request with no signature, or with one that does not fit its body, is handled exactly as by
    -- an extension with no name, no callback but ErrorHandler and no schema at all, over an SDK that
    -- always fails: no event, request or config handler runs, nothing of the schemas or the required
    -- events is told, and no organization is opened.
    pub serve_http-unauthentic :
        IsUnauthentic e r → serve_http P e r x ≡ serve_http without_sdk (without_callbacks e) r x
    unfolding serve_http respond_and_log
    serve_http-unauthentic (inl unsigned) = ground (arith, eq_iff r.signature "")
    serve_http-unauthentic (inr misfit) = serve_body (open_body P e r) refl misfit

    -- With an ErrorHandler: a request whose signature is not empty and does not fit its body, which
    -- can be read, makes ErrorHandler hear "invalid signature" and is answered 401 with no body;
    -- nothing else happens.
    pub serve_http-rejects :
        {handler : ErrorReportMessage → P.World → P.World} {content : String}
        → e.callbacks.error_handler ≡ some handler
        → r.signature ≢ ""
        → open_body P e r ≡ ok (ok content)
        → verify_origin P content r.signature e.secret_key ≡ false
        → let m : ErrorReportMessage = record { error = "invalid signature"; oid = "" } in
          serve_http P e r x
          ≡ finished tt (record {
            world = handler m x.world;
            reports = x.reports ++ (m ∷ []);
            written = x.written ++ (record { status = 401; body = "" } ∷ []);
          })
    unfolding serve_http authenticate respond_and_log
    serve_http-rejects has_handler signed body wrong = ground (arith, eq_iff r.signature "")
