-- ===== src/Simulator/Records.antt =====
-- What the simulator does with the continuations of a response in record mode.
use lc_extension.Base.{
  ℕ, zero, suc, String, ◌+◌, ◌<◌, ◌≤◌, ◌≡◌, refl, ap, sym, ◌∙◌, List, [], ◌∷◌, ◌++◌, map, Bool,
  true, false, ◌&&◌, Bool-cases, inl, inr, arith, ltb, length, take, take-all, map-append, extend,
  if◌then◌else◌,
}
use mathlib.Core.List.{append-nil}
use lc_extension.Common.Schema.{ℤ, pos, negsuc}
use lc_extension.Common.Messages.{ContinuationRequest}
use lc_extension.Simulator.{
  Backend, Simulator, ContinuationRecord, mode_record, add_error, max_continuation_level,
  max_continuation_delay, get_max_continuations_per_response, limit_of,
}
use lc_extension.Simulator.Continue.{
  next_level, level_message, Execute, check_delay, queue, run_now, handle_one, handle_each,
  handle_continuations, limit_fan_out, exceeds_fan_out,
}

-- A record without its time.
abbrev pub Planned : Type 0
Planned = String × String × ℕ × ContinuationRequest

abbrev pub planned : ContinuationRecord → Planned
planned r = (r.oid, r.idempotency_key, r.level, r.request)

abbrev pub plan : String → String → ℕ → ContinuationRequest → Planned
plan oid key level cont = (oid, key, level, cont)

-- What is left of a response's continuations under a limit: a negative limit is none, and 0 stands
-- for 100.
abbrev pub capped {ℓ} : {A : Type ℓ} → ℤ → List A → List A
capped (negsuc n) xs = xs
capped (pos zero) xs = take 100 xs
capped (pos (suc n)) xs = take (suc n) xs

ltb-false : (n : ℕ) → n ≤ max_continuation_level → ltb max_continuation_level n ≡ false
ltb-false n h = ground arith

take-if {ℓ} :
    {A : Type ℓ} (n : ℕ) (xs : List A)
    → 0 < n
    → (if ltb 0 n && ltb n (length xs) then take n xs else xs) ≡ take n xs
take-if n xs h = elim (Bool-cases (ltb 0 n && ltb n (length xs))) [
  | inl over ↦ ap (λ b. if b then take n xs else xs) over
  | inr under ↦ ap (λ b. if b then take n xs else xs) under ∙ sym (take-all n xs (ground arith))
]

limit_of-capped {ℓ} :
    {A : Type ℓ} (max : ℤ) (xs : List A)
    → (if ltb 0 (limit_of max) && ltb (limit_of max) (length xs)
        then take (limit_of max) xs
        else xs)
      ≡ capped max xs
unfolding limit_of
limit_of-capped (negsuc n) xs = refl
limit_of-capped (pos zero) xs = take-if 100 xs (omega arith)
limit_of-capped (pos (suc n)) xs = take-if (suc n) xs (omega arith)

-- The first part of a conditional pair
if-first {ℓ κ} :
    {A : Type ℓ} {B : Type κ} (b : Bool) (p q : A × B)
    → (if b then p else q).0 ≡ (if b then p.0 else q.0)
if-first true p q = refl
if-first false p q = refl

module _ (B : Backend) where
  -- Which continuations are left, under the limit of the state.
  limit_fan_out-capped :
      (oid : String) (conts : List ContinuationRequest) (s : Simulator B)
      → (limit_fan_out B oid conts s).0 ≡ capped s.max_continuations_per_response conts
  unfolding limit_fan_out exceeds_fan_out get_max_continuations_per_response
  limit_fan_out-capped oid conts s =
      if-first (exceeds_fan_out B conts s) _ _
      ∙ limit_of-capped s.max_continuations_per_response conts

  -- The states that differ in neither the mode nor the recorded continuations.
  abbrev Same : Simulator B → Simulator B → Type 0
  Same s t = (t.continuation_mode ≡ s.continuation_mode) × (t.continuations ≡ s.continuations)

  limit_fan_out-Same :
      (oid : String) (conts : List ContinuationRequest) (s : Simulator B)
      → Same s (limit_fan_out B oid conts s).1
  unfolding limit_fan_out add_error
  limit_fan_out-Same oid conts s = elim (Bool-cases (exceeds_fan_out B conts s)) [
    | inl h ↦ ground arith
    | inr h ↦ ground arith
  ]

  check_delay-Same :
      (oid : String) (cont : ContinuationRequest) (s : Simulator B)
      → Same s (check_delay B oid cont s)
  unfolding check_delay add_error
  check_delay-Same oid cont s =
      elim (Bool-cases (ltb max_continuation_delay cont.in_delay_seconds)) [
        | inl h ↦ ground arith
        | inr h ↦ ground arith
      ]

  module _ (execute : Execute B) (oid key : String) (level : ℕ) where
    run_now-record :
        (r : ContinuationRecord) (s : Simulator B)
        → s.continuation_mode ≡ mode_record
        → run_now B execute oid r s.continuation_mode s ≡ s
    unfolding run_now
    run_now-record r s h = ap (λ mode. run_now B execute oid r mode s) h

    handle_one-record :
        (cont : ContinuationRequest) (s : Simulator B)
        → s.continuation_mode ≡ mode_record
        → handle_one B execute oid key level cont s
          ≡ (queue B oid key level cont (check_delay B oid cont s)).1
    unfolding handle_one queue
    handle_one-record cont s h =
        let (r, t) = queue B oid key level cont (check_delay B oid cont s) in
        run_now-record r t ((check_delay-Same oid cont s).0 ∙ h)

    handle_one-Same :
        (cont : ContinuationRequest) (s : Simulator B)
        → s.continuation_mode ≡ mode_record
        → let t = handle_one B execute oid key level cont s in
          (t.continuation_mode ≡ mode_record)
          × (map planned t.continuations
              ≡ map planned s.continuations ++ (plan oid key level cont ∷ []))
    unfolding queue
    handle_one-Same cont s h =
        let t = check_delay B oid cont s in
        let here = handle_one-record cont s h in
        let (mode, conts) = check_delay-Same oid cont s in
        (
          ap (λ (u : Simulator B). u.continuation_mode) here ∙ mode ∙ h,
          ap (λ (u : Simulator B). map planned u.continuations) here
              ∙ map-append planned t.continuations _
              ∙ ap
                  (λ (rs : List ContinuationRecord).
                    map planned rs ++ (plan oid key level cont ∷ []))
                  conts,
        )

    handle_each-record :
        (conts : List ContinuationRequest) (s : Simulator B)
        → s.continuation_mode ≡ mode_record
        → let t = handle_each B execute oid key level conts s in
          map planned t.continuations
          ≡ map planned s.continuations ++ map (plan oid key level) conts
    unfolding handle_each
    handle_each-record [] s h = sym (append-nil _)
    handle_each-record (cont ∷ conts) s h =
        let (mode, first) = handle_one-Same cont s h in
        extend (map planned s.continuations) (plan oid key level cont ∷ []) _ first
          (handle_each-record conts (handle_one B execute oid key level cont s) mode)

    handle_continuations-low :
        (conts : List ContinuationRequest) (s : Simulator B)
        → level + 1 ≤ 10
        → handle_continuations B execute oid key level conts s
          ≡ handle_each B execute oid key level
              (limit_fan_out B oid conts s).0
              (limit_fan_out B oid conts s).1
    unfolding handle_continuations
    handle_continuations-low conts s low =
        ap
          (λ b.
            if b
            then add_error B oid (level_message (next_level level)) s
            else handle_each B execute oid key level (limit_fan_out B oid conts s).0
                (limit_fan_out B oid conts s).1)
          (ltb-false (next_level level) (ground arith))

  module _ (execute execute' : Execute B) (oid key : String) (level : ℕ) where
    -- Two ways to execute continuations make no difference.
    handle_each-same :
        (conts : List ContinuationRequest) (s : Simulator B)
        → s.continuation_mode ≡ mode_record
        → handle_each B execute oid key level conts s ≡ handle_each B execute' oid key level conts s
    unfolding handle_each
    handle_each-same [] s h = refl
    handle_each-same (cont ∷ conts) s h =
        handle_each-same conts (handle_one B execute oid key level cont s)
          (handle_one-Same execute oid key level cont s h).0
        ∙ ap (handle_each B execute' oid key level conts) (
            handle_one-record execute oid key level cont s h
            ∙ sym (handle_one-record execute' oid key level cont s h))

    -- In record mode, at a level up to 9: handling the continuations of a response appends to the
    -- records exactly the continuations that the limit on their number leaves (the first 100 for
    -- the limit 0, all for a negative limit), in their order, each with the organization, the
    -- idempotency key and the level it was handled at; and any other way to execute continuations
    -- gives the same state, so none is executed.
    pub handle_continuations-record :
        (conts : List ContinuationRequest) (s : Simulator B)
        → s.continuation_mode ≡ mode_record
        → level + 1 ≤ 10
        → let t = handle_continuations B execute oid key level conts s in
          (map planned t.continuations
            ≡ map planned s.continuations
              ++ map (plan oid key level) (capped s.max_continuations_per_response conts))
          × (handle_continuations B execute' oid key level conts s ≡ t)
    handle_continuations-record conts s mode low =
        let (kept, s') = limit_fan_out B oid conts s in
        let (same_mode, same) = limit_fan_out-Same oid conts s in
        let mode' = same_mode ∙ mode in
        let here = handle_continuations-low execute oid key level conts s low in
        (
          ap (λ (u : Simulator B). map planned u.continuations) here
              ∙ handle_each-record execute oid key level kept s' mode'
              ∙ ap
                  (λ (rs : List ContinuationRecord).
                    map planned rs ++ map (plan oid key level) kept)
                  same
              ∙ ap
                  (λ (cs : List ContinuationRequest).
                    map planned s.continuations ++ map (plan oid key level) cs)
                  (limit_fan_out-capped oid conts s),
          handle_continuations-low execute' oid key level conts s low
              ∙ sym (handle_each-same kept s' mode')
              ∙ sym here,
        )
