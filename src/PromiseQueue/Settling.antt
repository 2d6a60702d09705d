-- ===== src/PromiseQueue/Settling.antt =====
-- Who is settled, in which order, by the methods of src/containers/promise_queue.ts.
use node_celery_ts.Prelude.{
  ◌≤◌, ◌≢◌, ℕ, ◌+◌, ◌<◌, ◌≡◌, refl, sym, subst, Bool, true, false, ◌||◌, List, [], ◌∷◌, ◌++◌, arith,
  ◌==◌,
}
use node_celery_ts.Deque.{Deque}
use node_celery_ts.PromiseQueue.{
  Promise, pending, Settlement, outcome, settle, PromiseQueue, push, settle_one, new_queue,
}

abbrev pub contains : ℕ → List ℕ → Bool
contains p [] = false
contains p (q ∷ qs) = (p == q) || contains p qs

contains-snoc :
    (r : ℕ) (ps : List ℕ) (p : ℕ) → contains r (ps ++ p ∷ []) ≡ (contains r ps || (r == p))
contains-snoc r [] p = ground arith
contains-snoc r (q ∷ ps) p = ground (arith, contains-snoc r ps p)

module _ {V E : Type 0} (D : Deque ℕ) where
  -- The queued promises are distinct, were made by `push`, and are pending.
  abbrev pub AreQueued : (ℕ → Promise V E) → ℕ → List ℕ → Type 0
  AreQueued promises bound [] = Unit {0}
  AreQueued promises bound (p ∷ ps) =
      (promises p ≡ pending) × (p < bound) × (contains p ps ≡ false) × AreQueued promises bound ps

  pub record IsValid (q : PromiseQueue V E D) : Type 0 where
    pub queued : AreQueued q.promises q.created (D.view q.queue)
    pub untouched : (p : ℕ) → q.created ≤ p → q.promises p ≡ pending

  AreQueued-settle :
      (s : Settlement V E) (p : ℕ) (promises : ℕ → Promise V E) (bound : ℕ) (ps : List ℕ)
      → contains p ps ≡ false
      → AreQueued promises bound ps
      → AreQueued (settle s p promises) bound ps
  unfolding settle
  AreQueued-settle s p promises bound [] out v = tt
  AreQueued-settle s p promises bound (q ∷ ps) out v =
      (ground arith, v.1, v.2, AreQueued-settle s p promises bound ps (ground arith) v.3)

  AreQueued-fresh :
      (promises : ℕ → Promise V E) (bound : ℕ) (ps : List ℕ)
      → AreQueued promises bound ps
      → contains bound ps ≡ false
  AreQueued-fresh promises bound [] v = refl
  AreQueued-fresh promises bound (p ∷ ps) v = ground (arith, AreQueued-fresh promises bound ps v.3)

  AreQueued-push :
      (promises : ℕ → Promise V E) (bound : ℕ) (ps : List ℕ) (p : ℕ)
      → p < bound
      → promises p ≡ pending
      → contains p ps ≡ false
      → AreQueued promises bound ps
      → AreQueued promises bound (ps ++ p ∷ [])
  AreQueued-push promises bound [] p lt e out v = (e, lt, refl, tt)
  AreQueued-push promises bound (q ∷ ps) p lt e out v = (
    v.0,
    v.1,
    ground (arith, contains-snoc q ps p),
    AreQueued-push promises bound ps p lt e (ground arith) v.3,
  )

  AreQueued-mono :
      (promises : ℕ → Promise V E) (bound : ℕ) (ps : List ℕ)
      → AreQueued promises bound ps
      → AreQueued promises (bound + 1) ps
  AreQueued-mono promises bound [] v = tt
  AreQueued-mono promises bound (p ∷ ps) v =
      (v.0, omega arith, v.2, AreQueued-mono promises bound ps v.3)

  pub new_queue-IsValid : IsValid (new_queue V E D)
  unfolding new_queue
  new_queue-IsValid = record {
    queued = subst (AreQueued (λ _. pending) 0) (sym D.view-empty) tt;
    untouched = λ p h. refl;
  }

  -- `push` queues a new, pending promise behind the others and settles none.
  pub push-IsValid :
      (q : PromiseQueue V E D)
      → IsValid q
      → let (p, q') = push V E D q in
        IsValid q'
        × (D.view q'.queue ≡ D.view q.queue ++ p ∷ [])
        × (q'.promises p ≡ pending)
        × (contains p (D.view q.queue) ≡ false)
  unfolding push
  push-IsValid q v =
      let new = AreQueued-fresh q.promises q.created (D.view q.queue) v.queued in
      let free = v.untouched q.created (omega arith) in
      (
        record {
          queued =
              subst (AreQueued q.promises (q.created + 1)) (sym (D.view-push q.created q.queue)) (
                AreQueued-push q.promises (q.created + 1) (D.view q.queue) q.created (omega arith)
                  free new (AreQueued-mono q.promises q.created (D.view q.queue) v.queued));
          untouched = λ p h. v.untouched p (omega arith);
        },
        D.view-push q.created q.queue,
        free,
        new,
      )

  -- What settling the first promise of the queue comes to.
  pub record SettledFirst (s : Settlement V E) (q : PromiseQueue V E D) (p : ℕ) (ps : List ℕ)
      (r : Bool × PromiseQueue V E D) : Type 0 where
    pub found : r.0 ≡ true
    pub left : D.view (r.1).queue ≡ ps
    pub settled : (r.1).promises p ≡ outcome s
    pub others : (o : ℕ) → o ≢ p → (r.1).promises o ≡ q.promises o
    pub valid : IsValid r.1

  settled_promises :
      (s : Settlement V E) (q : PromiseQueue V E D) (p : ℕ) (ps : List ℕ)
      → D.view q.queue ≡ p ∷ ps
      → settle_one V E D s q
        ≡ (true, record q { queue = (D.shift q.queue).1; promises = settle s p q.promises })
  unfolding settle_one
  settled_promises s q p ps e = rw (D.shift-first q.queue p ps e, settle_one)

  -- On a valid queue with a first promise, `settleOne` returns true, settles that promise as asked,
  -- dequeues it, leaves every other promise as it was, and keeps the queue valid.
  pub settle_one-SettledFirst :
      (s : Settlement V E) (q : PromiseQueue V E D) (p : ℕ) (ps : List ℕ)
      → IsValid q
      → D.view q.queue ≡ p ∷ ps
      → SettledFirst s q p ps (settle_one V E D s q)
  unfolding settle
  settle_one-SettledFirst s q p ps v e =
      let a : AreQueued q.promises q.created (p ∷ ps) =
        subst (AreQueued q.promises q.created) e v.queued in
      rw (settled_promises s q p ps e) (record {
        found = refl;
        left = D.shift-rest q.queue p ps e;
        settled = ground arith;
        others = λ o ne. ground arith;
        valid = record {
          queued =
              subst (AreQueued (settle s p q.promises) q.created)
                (sym (D.shift-rest q.queue p ps e))
                (AreQueued-settle s p q.promises q.created ps a.2 a.3);
          untouched = λ o h. ground (arith, v.untouched o);
        };
      })

  -- On an empty queue nothing is settled.
  pub settle_one-empty :
      (s : Settlement V E) (q : PromiseQueue V E D)
      → D.view q.queue ≡ []
      → settle_one V E D s q ≡ (false, q)
  unfolding settle_one
  settle_one-empty s q e = ground (arith, D.shift-empty q.queue e)
