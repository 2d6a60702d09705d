-- ===== src/Client/Closing.antt =====
-- `disconnect` and `end` of src/client.ts. What a call of a broker or a backend does is a
-- parameter; it throws, or returns a promise, a number.
use node_celery_ts.Prelude.{ℕ, ◌==◌, if◌then◌else◌, Bool, true, false, List, [], ◌∷◌, ◌++◌, map}
use node_celery_ts.Task.Publish.{Response, thrown, returned, ResultBackend}
use node_celery_ts.Client.{Client}

-- The name of the function to invoke.
pub data ToInvoke : Type 0 where
  disconnects ends : ToInvoke

pub data Target (Broker Backend : Type 0) : Type 0 where
  of_broker : Broker → Target Broker Backend
  of_backend : ResultBackend Backend → Target Broker Backend

-- What happens to a promise that Promise.all waits for.
pub data Turn (E : Type 0) : Type 0 where
  fulfills : ℕ → Turn E
  rejects : ℕ → E → Turn E

pub data Outcome (E : Type 0) : Type 0 where
  pending fulfilled : Outcome E
  rejected : E → Outcome E

abbrev pub contains : ℕ → List ℕ → Bool
contains p [] = false
contains p (q ∷ qs) = if p == q then true else contains p qs

abbrev pub remove : ℕ → List ℕ → List ℕ
remove p [] = []
remove p (q ∷ qs) = let rest = remove p qs in if p == q then rest else q ∷ rest

abbrev pub at_end : {E : Type 0} → List ℕ → Outcome E
at_end [] = fulfilled
at_end (p ∷ ps) = pending

-- `Promise.all`, from what happens to its promises in order.
unfoldable pub promise_all : {E : Type 0} → List ℕ → List (Turn E) → Outcome E
promise_all waiting [] = at_end waiting
promise_all waiting (fulfills p ∷ turns) = promise_all (remove p waiting) turns
promise_all waiting (rejects p e ∷ turns) =
    let rest = promise_all waiting turns in if contains p waiting then rejected e else rest

module _ {Broker Backend W : Type 0}
    (invoke : ToInvoke → Target Broker Backend → W → Response ℕ × W) where
  abbrev pub with_first : ℕ → Response (List ℕ) × W → Response (List ℕ) × W
  with_first p (thrown, w) = (thrown, w)
  with_first p (returned ps, w) = (returned (p ∷ ps), w)

  -- The calls in order, up to one that throws.
  unfoldable pub invoke_all : ToInvoke → List (Target Broker Backend) → W → Response (List ℕ) × W
  invoke_all to_invoke [] w = (returned [], w)
  invoke_all to_invoke (t ∷ ts) w =
      let (response, w') = invoke to_invoke t w in
      elim response [
        | thrown ↦ (thrown, w')
        | returned p ↦ with_first p (invoke_all to_invoke ts w')
      ]

  -- The promises that Promise.all is called with, or an exception, for which the returned promise
  -- is rejected at once.
  unfoldable pub disconnect_or_end_all :
      List Broker → ResultBackend Backend → ToInvoke → W → Response (List ℕ) × W
  unfolding invoke_all
  disconnect_or_end_all brokers result_backend to_invoke =
      invoke_all to_invoke (map (λ b. of_broker b) brokers ++ of_backend result_backend ∷ [])

  unfoldable pub disconnect : {S : Type 0} → Client Broker Backend S → W → Response (List ℕ) × W
  unfolding disconnect_or_end_all
  disconnect c = disconnect_or_end_all c.brokers c.client_backend disconnects

  unfoldable pub end : {S : Type 0} → Client Broker Backend S → W → Response (List ℕ) × W
  unfolding disconnect_or_end_all
  end c = disconnect_or_end_all c.brokers c.client_backend ends
