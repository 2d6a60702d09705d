-- ===== src/PromiseQueue/Draining.antt =====
-- `resolveAll` and `rejectAll` of src/containers/promise_queue.ts: the loop ends, and settles
-- every queued promise.
use node_celery_ts.Prelude.{
  ◌≢◌, ℕ, zero, suc, ◌<◌, ◌≡◌, refl, ap, some, List, [], ◌∷◌, arith, if◌then◌else◌, length,
}
use node_celery_ts.Deque.{Deque}
use node_celery_ts.PromiseQueue.{
  Promise, Settlement, resolve, reject, resolved, rejected, outcome, invoke_while, PromiseQueue,
  settle_one, resolve_all, reject_all, resolve_one, reject_one,
}
use node_celery_ts.PromiseQueue.Settling.{
  contains, IsValid, settle_one-SettledFirst, settle_one-empty,
}

module _ {V E : Type 0} (D : Deque ℕ) where
  -- `q'` is `q` with the promises `ps` settled to `o` and nothing queued.
  pub record Drained (o : Promise V E) (q : PromiseQueue V E D) (ps : List ℕ)
      (q' : PromiseQueue V E D) : Type 0 where
    pub left : D.view q'.queue ≡ []
    pub promises : (r : ℕ) → q'.promises r ≡ (if contains r ps then o else q.promises r)
    pub valid : IsValid D q'

  promises-step :
      (o : Promise V E) (q q₁ q₂ : PromiseQueue V E D) (p : ℕ) (ps : List ℕ) (r : ℕ)
      → q₁.promises p ≡ o
      → (r ≢ p → q₁.promises r ≡ q.promises r)
      → q₂.promises r ≡ (if contains r ps then o else q₁.promises r)
      → q₂.promises r ≡ (if contains r (p ∷ ps) then o else q.promises r)
  promises-step o q q₁ q₂ p ps r hit miss e = ground arith

  drain :
      (s : Settlement V E) (ps : List ℕ) (fuel : ℕ) (q : PromiseQueue V E D)
      → IsValid D q
      → D.view q.queue ≡ ps
      → length ps < fuel
      → (q' : PromiseQueue V E D) × (invoke_while fuel (settle_one V E D s) q
          ≡ some (length ps, q'))
        × Drained (outcome s) q ps q'
  unfolding invoke_while
  drain s ps zero q v e enough = absurd (omega arith)
  drain s [] (suc fuel) q v e enough = (
    q,
    ground (arith, settle_one-empty D s q e),
    record { left = e; promises = λ r. refl; valid = v },
  )
  drain s (p ∷ ps) (suc fuel) q v e enough =
      let f = settle_one-SettledFirst D s q p ps v e in
      let q₁ = (settle_one V E D s q).1 in
      let (q', run, d) = drain s ps fuel q₁ f.valid f.left (omega arith) in
      (
        q',
        rw (f.found, invoke_while, run) (ap (λ (n : ℕ). some (n, q')) (omega arith)),
        record {
          left = d.left;
          promises =
              λ r. promises-step (outcome s) q q₁ q' p ps r f.settled (f.others r) (d.promises r);
          valid = d.valid;
        },
      )

  -- On a valid queue and with a round more than there are queued promises, `resolveAll` ends,
  -- returns how many it resolved, leaves the queue empty and valid, and resolves exactly the queued
  -- promises.
  pub resolve_all-Drained :
      (v : V) (fuel : ℕ) (q : PromiseQueue V E D)
      → IsValid D q
      → length (D.view q.queue) < fuel
      → (q' : PromiseQueue V E D) × (resolve_all V E D fuel v q
          ≡ some (length (D.view q.queue), q'))
        × Drained (resolved v) q (D.view q.queue) q'
  unfolding resolve_all resolve_one
  resolve_all-Drained v fuel q valid enough =
      drain (resolve v) (D.view q.queue) fuel q valid refl enough

  -- On a valid queue and with a round more than there are queued promises, `rejectAll` ends,
  -- returns how many it rejected, leaves the queue empty and valid, and rejects exactly the queued
  -- promises.
  pub reject_all-Drained :
      (reason : E) (fuel : ℕ) (q : PromiseQueue V E D)
      → IsValid D q
      → length (D.view q.queue) < fuel
      → (q' : PromiseQueue V E D) × (reject_all V E D fuel reason q
          ≡ some (length (D.view q.queue), q'))
        × Drained (rejected reason) q (D.view q.queue) q'
  unfolding reject_all reject_one
  reject_all-Drained reason fuel q valid enough =
      drain (reject reason) (D.view q.queue) fuel q valid refl enough
