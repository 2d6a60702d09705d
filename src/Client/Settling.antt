-- ===== src/Client/Settling.antt =====
-- What disconnect and end of src/client.ts call, and when the promise that they return settles.
use node_celery_ts.Prelude.{
  ℕ, ◌==◌, ◌≡◌, refl, sym, ap, ◌∙◌, if◌then◌else◌, Bool, true, false, ◌&&◌, List, [], ◌∷◌, ◌++◌,
  map, arith, append_assoc, append-nil,
}
use node_celery_ts.Text.Laws.{if-then}
use node_celery_ts.Task.Publish.{Response, returned}
use node_celery_ts.Client.{Client}
use node_celery_ts.Client.Closing.{
  ToInvoke, disconnects, ends, Target, of_broker, of_backend, Turn, fulfills, rejects, pending,
  fulfilled, rejected, contains, remove, promise_all, invoke_all, with_first, disconnect_or_end_all,
  disconnect, end,
}

-- Every promise of the first list is in the second.
abbrev pub covers : List ℕ → List ℕ → Bool
covers [] qs = true
covers (p ∷ ps) qs = contains p qs && covers ps qs

covers-remove : (q : ℕ) (ps qs : List ℕ) → covers (remove q ps) qs ≡ covers ps (q ∷ qs)
covers-remove q [] qs = refl
covers-remove q (p ∷ ps) qs = ground (arith, covers-remove q ps qs)

contains-remove :
    (p q : ℕ) (ps : List ℕ)
    → (p == q) ≡ false
    → contains p ps ≡ true
    → contains p (remove q ps) ≡ true
contains-remove p q [] other h = h
contains-remove p q (x ∷ ps) other h = ground (arith, contains-remove p q ps other)

module _ {E : Type 0} where
  -- Promises that are fulfilled one after another.
  abbrev pub fulfilling : List ℕ → List (Turn E)
  fulfilling = map (λ q. fulfills q)

  promise_all-fulfilling :
      (ps qs : List ℕ)
      → promise_all ps (fulfilling qs) ≡ (if covers ps qs then fulfilled else pending)
  unfolding promise_all
  promise_all-fulfilling [] [] = refl
  promise_all-fulfilling (p ∷ ps) [] = refl
  promise_all-fulfilling ps (q ∷ qs) =
      promise_all-fulfilling (remove q ps) qs
      ∙ ap (λ b. if b then fulfilled else pending) (covers-remove q ps qs)

  promise_all-rejects :
      (ps qs : List ℕ) (p : ℕ) (x : E) (after : List (Turn E))
      → contains p ps ≡ true
      → contains p qs ≡ false
      → promise_all ps (fulfilling qs ++ rejects p x ∷ after) ≡ rejected x
  unfolding promise_all
  promise_all-rejects ps [] p x after waits out =
      if-then (contains p ps) (rejected x) (promise_all ps after) waits
  promise_all-rejects ps (q ∷ qs) p x after waits out =
      promise_all-rejects (remove q ps) qs p x after (contains-remove p q ps (ground arith) waits)
        (ground arith)

module _ {Broker Backend : Type 0} (promise_of : ToInvoke → Target Broker Backend → ℕ) where
  -- A call that is written down and returns a promise.
  abbrev pub calls :
      ToInvoke
      → Target Broker Backend
      → List (ToInvoke × Target Broker Backend)
      → Response ℕ × List (ToInvoke × Target Broker Backend)
  calls to_invoke t log = (returned (promise_of to_invoke t), log ++ (to_invoke, t) ∷ [])

  invoke_all-calls :
      (to_invoke : ToInvoke) (ts : List (Target Broker Backend))
      (log : List (ToInvoke × Target Broker Backend))
      → invoke_all calls to_invoke ts log
        ≡ (returned (map (promise_of to_invoke) ts), log ++ map (λ t. (to_invoke, t)) ts)
  unfolding invoke_all
  invoke_all-calls to_invoke [] log = ap (λ l. (returned [], l)) (sym (append-nil log))
  invoke_all-calls to_invoke (t ∷ ts) log =
      ap (with_first calls (promise_of to_invoke t))
        (invoke_all-calls to_invoke ts (log ++ (to_invoke, t) ∷ []))
      ∙ ap (λ l. (returned (promise_of to_invoke t ∷ map (promise_of to_invoke) ts), l))
          (append_assoc log ((to_invoke, t) ∷ []) (map (λ u. (to_invoke, u)) ts))

  abbrev pub targets : {S : Type 0} → Client Broker Backend S → List (Target Broker Backend)
  targets c = map (λ b. of_broker b) c.brokers ++ of_backend c.client_backend ∷ []

  -- The promises of the calls, and the calls.
  abbrev pub closing :
      {S : Type 0}
      → ToInvoke
      → Client Broker Backend S
      → List (ToInvoke × Target Broker Backend)
      → Response (List ℕ) × List (ToInvoke × Target Broker Backend)
  closing to_invoke c log = (
    returned (map (promise_of to_invoke) (targets c)),
    log ++ map (λ t. (to_invoke, t)) (targets c),
  )

  -- When every call of disconnect and end returns a promise, disconnect and end of the client call
  -- it on every broker, in order, and then on the backend, each once, and wait for all of the
  -- promises: while promises are only fulfilled, in any order, theirs is fulfilled if all are, and
  -- else pending; and once a promise that has not been fulfilled is rejected, it is rejected for
  -- the same reason, whether the others have settled or not.
  pub closes_all :
      {S E : Type 0} (to_invoke : ToInvoke) (c : Client Broker Backend S)
      (log : List (ToInvoke × Target Broker Backend)) (qs : List ℕ) (p : ℕ) (x : E)
      (after : List (Turn E))
      → contains p (map (promise_of to_invoke) (targets c)) ≡ true
      → contains p qs ≡ false
      → let ps = map (promise_of to_invoke) (targets c) in
        (disconnect calls c log ≡ closing disconnects c log)
        × (end calls c log ≡ closing ends c log)
        × (promise_all {E = E} ps (fulfilling qs) ≡ (if covers ps qs then fulfilled else pending))
        × (promise_all ps (fulfilling qs ++ rejects p x ∷ after) ≡ rejected x)
  unfolding disconnect end disconnect_or_end_all
  closes_all to_invoke c log qs p x after waits out = (
    invoke_all-calls disconnects (targets c) log,
    invoke_all-calls ends (targets c) log,
    promise_all-fulfilling (map (promise_of to_invoke) (targets c)) qs,
    promise_all-rejects (map (promise_of to_invoke) (targets c)) qs p x after waits out,
  )
