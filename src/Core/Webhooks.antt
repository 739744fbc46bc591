-- ===== src/Core/Webhooks.antt =====
-- getAdapterClient and SendToWebhookAdapter of core/adapter.go: the senders of webhook data, one
-- for each organization. The lock is released between the steps of a call, so calls interleave.
pub mod Shared
use lc_extension.Base.{ℕ, String, Option, none, some, eqb, if◌then◌else◌}
use lc_extension.Base.GoMap.{GoMap, lookup, insert}
use lc_extension.Base.Effect.{Result, ok, err, Action}
use lc_extension.Common.Value.{Value}

-- What the SDK has for it: NewWebhookSender of an organization, and Send and Close of a sender.
pub record Senders : Type 1 where
  pub World : Type 0
  pub Org : Type 0
  pub Sender : Type 0
  pub get_oid : Org → String
  pub new_webhook_sender : Org → String → String → Action World Sender
  pub send : Sender → Value → Action World (Unit {0})
  pub close : Sender → World → World

module _ (A : Senders) where
  -- The world and `whClients`, which all calls share
  pub record Clients : Type 0 where
    pub world : A.World
    pub wh_clients : GoMap A.Sender

  -- Where a call stands: before the read lock; behind it, with no client found; behind
  -- NewWebhookSender; returned.
  pub data Phase : Type 0 where
    looking : Phase
    missing : Phase
    holding : A.Sender → Phase
    returned : Result A.Sender → Phase

  -- `c, ok := e.whClients[oid]` under the read lock
  unfoldable pub look_up : Option A.Sender → Phase
  look_up none = missing
  look_up (some c) = returned (ok c)

  -- `o.NewWebhookSender(...)`
  unfoldable pub created : Result A.Sender × A.World → Clients → Phase × Clients
  created (err e, w) s = (returned (err e), record s { world = w })
  created (ok c, w) s = (holding c, record s { world = w })

  -- Under the write lock: the client of another call wins, and the new one is closed.
  unfoldable pub register : String → A.Sender → Option A.Sender → Clients → Phase × Clients
  register oid c (some d) s = (returned (ok d), record s { world = A.close c s.world })
  register oid c none s = (returned (ok c), record s { wh_clients = insert oid c s.wh_clients })

  module _ (extension_name : String) (webhook_secret : String → String) where
    -- One step of getAdapterClient for an organization
    unfoldable pub advance : A.Org → Phase → Clients → Phase × Clients
    unfolding look_up created register
    advance o looking s = (look_up (lookup (A.get_oid o) s.wh_clients), s)
    advance o missing s =
        created (A.new_webhook_sender o extension_name (webhook_secret (A.get_oid o)) s.world) s
    advance o (holding c) s = register (A.get_oid o) c (lookup (A.get_oid o) s.wh_clients) s
    advance o (returned r) s = (returned r, s)

    unfoldable pub result_of : Phase × Clients → Result A.Sender × Clients
    result_of (returned r, s) = (r, s)
    result_of (_, s) = (err "the call has not returned", s)

    -- getAdapterClient, alone: it returns after three steps at most.
    unfoldable pub get_adapter_client : A.Org → Clients → Result A.Sender × Clients
    unfolding result_of advance
    get_adapter_client o s =
        let (p, t) = advance o looking s in let (q, u) = advance o p t in result_of (advance o q u)

    sent_data : Value → Result A.Sender × Clients → Result (Unit {0}) × Clients
    sent_data v (err e, s) = (err e, s)
    sent_data v (ok c, s) = let (r, w) = A.send c v s.world in (r, record s { world = w })

    -- SendToWebhookAdapter, alone
    unfoldable pub send_to_webhook_adapter : A.Org → Value → Clients → Result (Unit {0}) × Clients
    unfolding sent_data
    send_to_webhook_adapter o v s = sent_data v (get_adapter_client o s)

    -- Calls that run at once, by number, over the shared clients.
    pub record Calls : Type 0 where
      pub phase : ℕ → Phase
      pub clients : Clients

    -- A step of call `t`.
    unfoldable pub step : (ℕ → A.Org) → ℕ → Calls → Calls
    unfolding advance
    step org t y =
        let (p, s) = advance (org t) (y.phase t) y.clients in
        record { phase = λ u. if eqb t u then p else y.phase u; clients = s }

    -- Any interleaving of such steps.
    pub data Runs (org : ℕ → A.Org) : Calls → Calls → Type 0 where
      stop : {y : Calls} → Runs org y y
      go : {y z : Calls} (t : ℕ) → Runs org y z → Runs org y (step org t z)
