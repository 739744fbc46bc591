-- ===== src/Simulator/Signed.antt =====
-- What the simulator sends, as the webhook handler of the extension under test takes it: the
-- signature and the compression of one side fit the other.
use lc_extension.Base.{
  String, ◌≡◌, ◌≢◌, refl, sym, ap, ◌∙◌, Bool-cases, inl, inr, arith, eq_refl, ◌==◌,
}
use lc_extension.Base.Effect.{ok}
use lc_extension.Common.Messages.{Message}
use lc_extension.Core.Platform.{Platform}
use lc_extension.Core.Extension.{ExtensionOf, verify_origin}
use lc_extension.Core.Extension.Exchange.{Exchange}
use lc_extension.Core.Extension.Serve.{HttpRequest, open_body, dispatch, serve_http}
use lc_extension.Core.Extension.Delivery.{serve_http-dispatch}
use lc_extension.Simulator.{Backend, Simulator, Posted}
use lc_extension.Simulator.Send.{prepare}

-- The POST as the test server hands it on: both headers and the whole body.
abbrev pub delivered : Posted → HttpRequest
delivered p = record {
  signature = p.signature;
  content_encoding = p.content_encoding;
  body = ok p.body;
}

module _ (B : Backend) (P : Platform) (e : ExtensionOf P)
    (same_mac : (key payload : String) → B.hmac_hex key payload ≡ P.hmac_hex key payload)
    (mac_not_empty : (key payload : String) → P.hmac_hex key payload ≢ "")
    (gunzip-gzip : (text : String) → P.gunzip (ok (B.gzip text)) ≡ ok (ok text)) (s : Simulator B)
    (same_secret : s.secret_key ≡ e.secret_key) (payload : String) where
  pub prepare-signature :
      (delivered (prepare B s payload)).signature ≡ P.hmac_hex e.secret_key payload
  unfolding prepare
  prepare-signature = elim (Bool-cases s.use_gzip) [
    | inl gz ↦ ground (arith, same_mac s.secret_key payload)
    | inr raw ↦ ground (arith, same_mac s.secret_key payload)
  ]

  pub prepare-open_body : open_body P e (delivered (prepare B s payload)) ≡ ok (ok payload)
  unfolding prepare open_body
  prepare-open_body = elim (Bool-cases s.use_gzip) [
    | inl gz ↦ rw gz (gunzip-gzip payload)
    | inr raw ↦ rw raw refl
  ]

  -- If both sides compute the same HMAC, which is never empty, and gunzip undoes gzip: what the
  -- simulator sends with the extension's secret, compressed or not, passes the extension's
  -- signature check, and a message that decodes is dispatched just as it was marshalled.
  pub serve_http-prepare :
      {m : Message}
      → P.unmarshal_message payload ≡ ok m
      → (x : Exchange P.World)
      → serve_http P e (delivered (prepare B s payload)) x ≡ dispatch P e payload m x
  unfolding verify_origin
  serve_http-prepare json x =
      serve_http-dispatch P e (delivered (prepare B s payload))
        (λ empty. mac_not_empty e.secret_key payload (sym prepare-signature ∙ empty))
        prepare-open_body
        (ap (λ t. P.hmac_hex e.secret_key payload == t) prepare-signature ∙ eq_refl _) json x
