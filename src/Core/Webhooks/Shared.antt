-- ===== src/Core/Webhooks/Shared.antt =====
-- However calls of getAdapterClient interleave, an organization has one client.
use mathlib.Core.Path.{subst}
use lc_extension.Base.{
  ℕ, Bool, String, ◌≡◌, refl, ◌∙◌, Option, none, some, eqb, true, false, arith, eq_iff, eq_refl,
  if◌then◌else◌,
}
use lc_extension.Base.GoMap.{lookup, lookup-insert}
use lc_extension.Base.Effect.{Result, ok, err}
use lc_extension.Core.Webhooks.{
  Senders, Clients, Phase, looking, missing, holding, returned, look_up, created, register, advance,
  result_of, get_adapter_client, Calls, step, Runs, stop, go,
}

module _ (A : Senders) where
  -- Clients that were registered stay.
  abbrev Keeps : Clients A → Clients A → Type 0
  Keeps s s' =
      (oid : String) (d : A.Sender)
      → lookup oid s.wh_clients ≡ some d
      → lookup oid s'.wh_clients ≡ some d

  -- A call that has returned a client returned the registered one.
  abbrev Registered : String → Phase A → Clients A → Type 0
  Registered oid p s = (c : A.Sender) → p ≡ returned (ok c) → lookup oid s.wh_clients ≡ some c

  created-Keeps : (r : Result A.Sender × A.World) (s : Clients A) → Keeps s (created A r s).1
  unfolding created
  created-Keeps (ok c, w) s oid d h = h
  created-Keeps (err e, w) s oid d h = h

  created-Registered :
      (oid : String) (r : Result A.Sender × A.World) (s : Clients A)
      → Registered oid (created A r s).0 (created A r s).1
  unfolding created
  created-Registered oid (ok c, w) s d h = cc
  created-Registered oid (err e, w) s d h = cc

  register-Keeps :
      (oid : String) (c : A.Sender) (found : Option A.Sender) (s : Clients A)
      → lookup oid s.wh_clients ≡ found
      → Keeps s (register A oid c found s).1
  unfolding register
  register-Keeps oid c (some b) s is oid' d h = h
  register-Keeps oid c none s is oid' d h =
      ground (arith, eq_iff oid oid', lookup-insert oid oid' c s.wh_clients)

  register-Registered :
      (oid : String) (c : A.Sender) (found : Option A.Sender) (s : Clients A)
      → lookup oid s.wh_clients ≡ found
      → Registered oid (register A oid c found s).0 (register A oid c found s).1
  unfolding register
  register-Registered oid c (some b) s is d h = is ∙ cc
  register-Registered oid c none s is d h =
      ground (arith, eq_refl oid, lookup-insert oid oid c s.wh_clients)

  look_up-Registered :
      (oid : String) (found : Option A.Sender) (s : Clients A)
      → lookup oid s.wh_clients ≡ found
      → Registered oid (look_up A found) s
  unfolding look_up
  look_up-Registered oid none s is d h = cc
  look_up-Registered oid (some c) s is d h = is ∙ cc

  module _ (extension_name : String) (webhook_secret : String → String) where
    advance-Keeps :
        (o : A.Org) (p : Phase A) (s : Clients A)
        → Keeps s (advance A extension_name webhook_secret o p s).1
    unfolding advance
    advance-Keeps o looking s oid d h = h
    advance-Keeps o missing s oid d h = created-Keeps _ s oid d h
    advance-Keeps o (holding c) s oid d h = register-Keeps (A.get_oid o) c _ s refl oid d h
    advance-Keeps o (returned r) s oid d h = h

    advance-Registered :
        (o : A.Org) (p : Phase A) (s : Clients A)
        → Registered (A.get_oid o) p s
        → Registered
            (A.get_oid o)
            (advance A extension_name webhook_secret o p s).0
            (advance A extension_name webhook_secret o p s).1
    unfolding advance
    advance-Registered o looking s h = look_up-Registered (A.get_oid o) _ s refl
    advance-Registered o missing s h = created-Registered (A.get_oid o) _ s
    advance-Registered o (holding c) s h = register-Registered (A.get_oid o) c _ s refl
    advance-Registered o (returned r) s h = h

    module _ (org : ℕ → A.Org) where
      AllRegistered : Calls A extension_name webhook_secret → Type 0
      AllRegistered y = (t : ℕ) → Registered (A.get_oid (org t)) (y.phase t) y.clients

      -- The phase of call `u` after a step of call `t`
      after_step :
          (t u : ℕ) (y : Calls A extension_name webhook_secret) (c : A.Sender) (same : Bool)
          → AllRegistered y
          → (same ≡ true → t ≡ u)
          → (if same
              then (advance A extension_name webhook_secret (org t) (y.phase t) y.clients).0
              else y.phase u)
            ≡ returned (ok c)
          → lookup
              (A.get_oid (org u))
              (advance A extension_name webhook_secret (org t) (y.phase t) y.clients).1.wh_clients
            ≡ some c
      unfolding AllRegistered
      after_step t u y c true all is h =
          let s' = (advance A extension_name webhook_secret (org t) (y.phase t) y.clients).1 in
          subst (λ v. lookup (A.get_oid (org v)) s'.wh_clients ≡ some c) (is refl)
            (advance-Registered (org t) (y.phase t) y.clients (all t) c h)
      after_step t u y c false all is h =
          advance-Keeps (org t) (y.phase t) y.clients (A.get_oid (org u)) c (all u c h)

      step-AllRegistered :
          (t : ℕ) (y : Calls A extension_name webhook_secret)
          → AllRegistered y
          → AllRegistered (step A extension_name webhook_secret org t y)
      unfolding AllRegistered step
      step-AllRegistered t y all u c h = after_step t u y c (eqb t u) all (λ same. ground arith) h

      Runs-AllRegistered :
          {y z : Calls A extension_name webhook_secret}
          → Runs A extension_name webhook_secret org y z
          → AllRegistered y
          → AllRegistered z
      Runs-AllRegistered stop all = all
      Runs-AllRegistered (go t run) all = step-AllRegistered t _ (Runs-AllRegistered run all)

      -- However many calls of getAdapterClient run at once and however their steps interleave, from
      -- clients that were there before: all calls for one organization that return a client return
      -- the same one, and it is the one that is kept for the organization.
      pub one_client :
          (clients : Clients A) (z : Calls A extension_name webhook_secret)
          → Runs A extension_name webhook_secret org
              (record { phase = λ t. looking; clients = clients })
              z
          → (t u : ℕ) (c d : A.Sender) → A.get_oid (org t) ≡ A.get_oid (org u)
          → z.phase t ≡ returned (ok c)
          → z.phase u ≡ returned (ok d)
          → (c ≡ d) × (lookup (A.get_oid (org t)) z.clients.wh_clients ≡ some c)
      unfolding AllRegistered
      one_client clients z run t u c d same ht hu =
          let all = Runs-AllRegistered run (λ v b h. cc) in
          let at_t = all t c ht in let at_u = all u d hu in (ground arith, at_t)

    result_of-eq-ok :
        (x : Phase A × Clients A) (s : Clients A) (c : A.Sender)
        → result_of A extension_name webhook_secret x ≡ (ok c, s)
        → (x.0 ≡ returned (ok c)) × (x.1 ≡ s)
    unfolding result_of
    result_of-eq-ok (returned r, t) s c h = (cc, cc)
    result_of-eq-ok (looking, t) s c h = cc
    result_of-eq-ok (missing, t) s c h = cc
    result_of-eq-ok (holding d, t) s c h = cc

    get_adapter_client-registers :
        (o : A.Org) (s s' : Clients A) (c : A.Sender)
        → get_adapter_client A extension_name webhook_secret o s ≡ (ok c, s')
        → lookup (A.get_oid o) s'.wh_clients ≡ some c
    unfolding get_adapter_client
    get_adapter_client-registers o s s' c h =
        let (p, t) = advance A extension_name webhook_secret o looking s in
        let (q, u) = advance A extension_name webhook_secret o p t in
        let (here, at) = result_of-eq-ok (advance A extension_name webhook_secret o q u) s' c h in
        subst (λ v. lookup (A.get_oid o) v.wh_clients ≡ some c) at
          (advance-Registered o q u
            (advance-Registered o p t (advance-Registered o looking s (λ d e. cc))) c here)

    -- If getAdapterClient, running alone, returned a client, then the next call for the organization
    -- returns the same client and changes nothing: no second one is created.
    pub get_adapter_client_twice :
        (o : A.Org) (s s' : Clients A) (c : A.Sender)
        → get_adapter_client A extension_name webhook_secret o s ≡ (ok c, s')
        → get_adapter_client A extension_name webhook_secret o s' ≡ (ok c, s')
    unfolding get_adapter_client advance look_up result_of
    get_adapter_client_twice o s s' c h = ground (arith, get_adapter_client-registers o s s' c h)
