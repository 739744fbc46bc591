-- ===== src/Tests/Clients.antt =====
-- Two calls for the client of one organization that interleave: both create one, one is closed.
use lc_extension.Base.{ℕ, ◌+◌, String, ◌≡◌, refl, some, [], ◌∷◌}
use lc_extension.Base.GoMap.{lookup, insert}
use lc_extension.Base.Effect.{ok}
use lc_extension.Core.Webhooks.{
  Senders, Clients, looking, returned, look_up, created, register, advance, result_of,
  get_adapter_client, Calls, step, stop, go,
}
use lc_extension.Core.Webhooks.Shared.{one_client, get_adapter_client_twice}

-- The world numbers the senders.
abbrev pub senders : Senders
senders = record {
  World = ℕ;
  Org = String;
  Sender = ℕ;
  get_oid = λ o. o;
  new_webhook_sender = λ o name secret w. (ok w, w + 1);
  send = λ c v w. (ok tt, w);
  close = λ c w. w + 10;
}

abbrev secret : String → String
secret oid = oid

abbrev org : ℕ → String
org t = "org-1"

abbrev fresh : Clients senders
fresh = record { world = 5; wh_clients = [] }

abbrev started : Calls senders "scanner" secret
started = record { phase = λ t. looking; clients = fresh }

abbrev after : ℕ → Calls senders "scanner" secret → Calls senders "scanner" secret
after t y = step senders "scanner" secret org t y

abbrev ended : Calls senders "scanner" secret
ended = after 1 (after 0 (after 1 (after 0 (after 1 (after 0 started)))))

ended_0 : ended.phase 0 ≡ returned (ok 5)
unfolding step advance look_up created register lookup insert
ended_0 = refl

ended_1 : ended.phase 1 ≡ returned (ok 5)
unfolding step advance look_up created register lookup insert
ended_1 = refl

abbrev first : ℕ
first = 5

one_client_example : (first ≡ first) × (lookup "org-1" ended.clients.wh_clients ≡ some 5)
one_client_example =
    one_client senders "scanner" secret org fresh ended
      (go 1 (go 0 (go 1 (go 0 (go 1 (go 0 stop)))))) 0 1 5 5 refl ended_0 ended_1

abbrev one_sender : Clients senders
one_sender = record { world = 6; wh_clients = ("org-1", 5) ∷ [] }

get_adapter_client_twice_example :
    get_adapter_client senders "scanner" secret "org-1" one_sender ≡ (ok 5, one_sender)
unfolding get_adapter_client result_of advance look_up created register lookup insert
get_adapter_client_twice_example =
    get_adapter_client_twice senders "scanner" secret "org-1" fresh one_sender 5 refl
