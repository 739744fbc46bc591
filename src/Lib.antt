-- ===== src/Lib.antt =====
-- A model of the LimaCharlie extension framework, with proofs. An extension is a webhook: the
-- platform posts signed JSON messages to it, and it answers with responses that may ask for
-- continuations.
--
-- The parts, with the code of each by its path from the repository's root:
--
-- - Common (common/messages.go, common/metrics.go, common/config_schema.go,
--   common/request_schema.go): the messages, the schemas and `Response.IsRetriable`. A pointer is an
--   `Option`, a map an association list, `interface{}` the type `Value`.
-- - Core.Extension (core/extension.go): `Extension.ServeHTTP` is `serve_http`, in a monad that
--   carries what was written to the client and what ErrorHandler was told, and that a panic ends;
--   a callback returns or panics, too (`Called`).
--   Each branch of the handler is a function of Core.Extension.Serve: `on_event`, `on_request`,
--   `on_config_validation`, `dispatch`, `conclude`; `respondAndLog` and `respond` stand in
--   Core.Extension.Exchange. HMAC, gzip, JSON and the SDK are the parameters of Core.Platform.
-- - Core.Adapter (core/adapter.go): `CreateExtensionAdapter` and `DeleteExtensionAdapter`, over the
--   installation keys and Hive records of an organization. Core.Api has the SDK's calls as
--   parameters, and in `IsLawful` what the program relies on: what calls that succeed do.
-- - Core.Webhooks (core/adapter.go): `getAdapterClient` in the steps between which its lock is free,
--   and runs of any number of calls, by a data type of step sequences; `SendToWebhookAdapter`.
-- - Core.Secrets (core/utils.go): `UseSecretValue` and `GetSecret` with the cache of secrets.
-- - Core.Mask (core/utils.go): `MaskSecrets`, with `strings.ReplaceAll` written out.
-- - Simplified.Rules (simplified/dr.go): Init is `rule_extension`; what an update plans for a
--   namespace is `plan_update`;
--   Simplified.Rules.Rewriting has `addSuppression`, Simplified.Rules.Update `onUpdate` and the
--   validation of a configuration, Simplified.Rules.Events the events, over the Hive of an
--   organization as a parameter; Simplified.Rules.Applied says what executing a batch does to
--   what List gives back.
-- - Simplified.Lookups (simplified/lookup.go): Init is `lookup_extension`, the events are
--   `subscribe_lookups` and `unsubscribe_lookups`, and `onUpdate` is `update_lookups`, whose
--   goroutines are a list in the order in which they reach Hive, any order of the lookups.
--   Simplified.Lookups.Stored says what the calls of Hive do. Simplified.Handlers has what it
--   shares with the rules.
-- - Simplified.Commands (simplified/cli.go): `doRun` is `do_run`, over shlex, the tools and the
--   senders of Core.Webhooks; Simplified.Commands.Output has `TryParsingOutput` over encoding/json,
--   Simplified.Commands.Described the schemas and the events.
-- - Multiplexer (multiplexer/multiplexer.go): the state is the cache of services and the world;
--   Multiplexer.Services has `getService`, `createService` and `deleteService`, Multiplexer.Worker
--   the service that is asked for, Multiplexer.Forward the forwarding, Multiplexer.Events the
--   callbacks and Multiplexer.Init the package's `init`, with `multiplexer_extension`; the method
--   Init is `init_extension` of Multiplexer.Relay. `Cloud` has Cloud Run, Datastore, HTTP and the
--   clock as parameters, and Multiplexer.CloudLaws what calls that succeed do; the deletion of a
--   service is only begun by the call, as the code does not wait for its end.
-- - Simulator (simulator/simulator.go): the state of the simulator and its options; Simulator.Send
--   has `sendRaw` and `sendAndParse`, Simulator.Continue has `processResponse`,
--   `handleContinuations` and `ExecuteContinuation`, Simulator.Requests has the senders.
--   Simulator.Backend has the clock, JSON, gzip, HMAC and the HTTP client as parameters.
-- - Server (server/webserver/server.go): `listen_address` is the address that `RunExtension`
--   listens on, with `strconv.ParseInt` written out.
-- - Base: Boolean tests, lists, Go maps, and calls that may fail.
-- - Tests: concrete services, and each theorem at concrete inputs.
--
-- How they interact: the simulator signs with the secret that the handler checks
-- (Simulator.Signed), and stands for the platform that calls the handler. The adapter, the secrets
-- and the masking are what the callbacks of an extension use, and the modules of Simplified are
-- made of such callbacks: a command line extension sends its log through the adapter's clients,
-- with its credentials masked. A multiplexer signs what it forwards with the secret that it gave to
-- a worker, whose handler is Core.Extension again (Multiplexer.Signed), as is its own
-- (Multiplexer.Relay). Simulator.Served has an extension behind the simulator's test server, and
-- Simplified.Lookups.Simulated a lookup extension.
--
-- Fuel: `processResponse`, `handleContinuations` and `ExecuteContinuation` call one another, and
-- each round raises the level by one, in uint64. The fuel is 12: levels 0 to 10, and one that may
-- wrap around. Simulator.Fuel shows that more fuel changes nothing. `TryParsingOutput` has a round
-- for each byte and one more, which Simplified.Commands.Output shows to be enough. All else needs
-- none: `UseSecretValue` counts two rounds, and all else goes over lists.
--
-- Not modelled: deferred calls of `org.Close`; panics of the handlers that a description brings
-- along; connections that break while an answer is written; the locks of the secret cache and of the
-- simulator, whose calls run one at a time here, as do those of a multiplexer; the deadline of a
-- command, and the signal that ends its instance. What server/ does besides reading its port, and
-- multiplexer/simple/, only starts net/http, examples/ are examples of use, and python/ has the same
-- protocol in another language: these are not modelled.
pub mod Base
pub mod Common
pub mod Core
pub mod Multiplexer
pub mod Server
pub mod Simplified
pub mod Simulator
pub mod Tests
