-- ===== src/Simulator/Send.antt =====
-- How the simulator puts a message on the wire and reads the answer.
use lc_extension.Base.{ℕ, String, ◌<>◌, ◌+◌, ◌%◌, ◌^◌, ◌==◌, decimal, if◌then◌else◌}
use lc_extension.Base.Effect.{Result, ok, err}
use lc_extension.Common.Messages.{Message, Response, empty_response}
use lc_extension.Simulator.{
  Backend, Simulator, Posted, Reception, no_response, unreadable, received,
}

-- `(body, status, err)` of sendRaw
pub data Raw : Type 0 where
  answer : String → ℕ → Raw
  failure : ℕ → String → Raw

-- `(resp, status, err)` of sendAndParse
pub data Parsed : Type 0 where
  parsed : Response → ℕ → Parsed
  unparsed : ℕ → String → Parsed

module _ (B : Backend) where
  -- sign, and the request that sendRaw builds around the payload
  unfoldable pub prepare : Simulator B → String → Posted
  prepare s payload =
      let sig = B.hmac_hex s.secret_key payload in
      if s.use_gzip
      then record { signature = sig; content_encoding = "gzip"; body = B.gzip payload }
      else record { signature = sig; content_encoding = ""; body = payload }

  raw_of : Reception → Raw
  raw_of (no_response e) = failure 0 ("failed to send request: " <> e)
  raw_of (unreadable status e) = failure status ("failed to read response: " <> e)
  raw_of (received status body) = answer body status

  -- sendRaw, behind and with the marshalling of the message
  unfoldable pub send_payload : Result String → Simulator B → Raw × Simulator B
  unfolding raw_of
  send_payload (err e) s = (failure 0 ("failed to marshal message: " <> e), s)
  send_payload (ok payload) s =
      let (r, w) = B.post (prepare s payload) s.world in (raw_of r, record s { world = w })

  unfoldable pub send_raw : Message → Simulator B → Raw × Simulator B
  unfolding send_payload
  send_raw m s = send_payload (B.marshal m) s

  unfoldable pub parse_raw : Raw → Parsed
  parse_raw (failure status e) = unparsed status e
  parse_raw (answer body status) =
      if body == "" then parsed empty_response status else elim (B.unmarshal_response body) [
        | ok r ↦ parsed r status
        | err e ↦ unparsed status (
            "failed to unmarshal response (status "
            <> decimal status
            <> ", body: "
            <> body
            <> "): "
            <> e)
      ]

  -- sendAndParse
  unfoldable pub send_and_parse : Message → Simulator B → Parsed × Simulator B
  send_and_parse m s = let (r, s') = send_raw m s in (parse_raw r, s')

  -- generateIdempotencyKey; the counter is a uint64
  unfoldable pub generate_idempotency_key : Simulator B → String × Simulator B
  generate_idempotency_key s =
      let n = (s.counter + 1) % 2 ^ 64 in
      let (t, w) = B.now s.world in
      ("sim-" <> decimal t <> "-" <> decimal n, record s { world = w; counter = n })
