-- ===== src/PromiseMap/History.antt =====
-- Histories of src/containers/promise_map.ts: calls of the methods and turns of the event loop.
use node_celery_ts.Prelude.{
  ℕ, ◌≡◌, true, false, Option, some, List, [], ◌∷◌, ◌++◌, refl, arith, ◌⊎◌,
}
use node_celery_ts.JsMap
use node_celery_ts.JsMap.{Eq, beq_refl}
use node_celery_ts.PromiseMap.{
  World, MapData, Input, Awaited, Reason, deleted, timed_out, remove_timer, new_map, has,
  is_pending, is_fulfilled, is_rejected, finish_resolve, resolve, reject, reject_all, get, delete,
  clear, fire_timer,
}
use node_celery_ts.PromiseMap.Linked.{
  IsLinked, Paired, get-IsLinked, do_delete-IsLinked, resolve-IsLinked, reject-IsLinked,
  reject_keys-IsLinked, clear-IsLinked, finish_resolve-IsLinked,
}

-- A call of a method, or a turn of the event loop.
pub data Event (K V E : Type 0) : Type 0 where
  gets deletes : K → Event K V E
  resolves : K → Input V → Event K V E
  rejects : K → Reason E → Event K V E
  rejects_all : Reason E → Event K V E
  clears : Event K V E
  comes_back : ℕ → Awaited V E → Event K V E
  fires : ℕ → K → Event K V E

module _ {K : Type 0} (V E : Type 0) ⦃e : Eq K⦄ where
  pub new_map-IsLinked :
      (timeout : Option ℕ) (k : K)
      → let w = new_map {K = K} {V = V} {E = E} timeout in
        Paired (JsMap.get k w.promises) (JsMap.get k w.entries)
  unfolding new_map
  new_map-IsLinked timeout k =
      ground (arith, JsMap.get-nil {V = ℕ} k, JsMap.get-nil {V = MapData} k)

module _ {K V E : Type 0} ⦃e : Eq K⦄ where
  unfoldable pub step : World K V E → Event K V E → World K V E
  step w (gets key) = (get key w).1
  step w (deletes key) = (delete key w).1
  step w (resolves key input) = (resolve key input w).1
  step w (rejects key reason) = (reject key reason w).1
  step w (rejects_all reason) = (reject_all reason w).1
  step w clears = (clear w).1
  step w (comes_back n a) = finish_resolve n a w
  step w (fires t key) = fire_timer t key w

  unfoldable pub run : World K V E → List (Event K V E) → World K V E
  unfolding step
  run w [] = w
  run w (ev ∷ evs) = run (step w ev) evs

  pub run-append :
      (w : World K V E) (xs ys : List (Event K V E)) → run w (xs ++ ys) ≡ run (run w xs) ys
  unfolding run
  run-append w [] ys = refl
  run-append w (x ∷ xs) ys = run-append (step w x) xs ys

  pub step-IsLinked : (w : World K V E) (ev : Event K V E) → IsLinked w → IsLinked (step w ev)
  unfolding step reject_all delete fire_timer
  step-IsLinked w (gets key) i = get-IsLinked key w i
  step-IsLinked w (deletes key) i = do_delete-IsLinked key deleted w i
  step-IsLinked w (resolves key input) i = resolve-IsLinked key input w i
  step-IsLinked w (rejects key reason) i = reject-IsLinked key reason w i
  step-IsLinked w (rejects_all reason) i = reject_keys-IsLinked w.entries reason w i
  step-IsLinked w clears i = clear-IsLinked w
  step-IsLinked w (comes_back n a) i = finish_resolve-IsLinked n a w i
  step-IsLinked w (fires t key) i =
      do_delete-IsLinked key timed_out (record w { timers = remove_timer t w.timers }) i

  pub run-IsLinked :
      (w : World K V E) (evs : List (Event K V E)) → IsLinked w → IsLinked (run w evs)
  unfolding run
  run-IsLinked w [] i = i
  run-IsLinked w (ev ∷ evs) i = run-IsLinked (step w ev) evs (step-IsLinked w ev i)

  -- The tests of a key's status.
  abbrev pub OneStatus : K → World K V E → Type 0
  OneStatus k w =
      ((is_pending k w ≡ true) × (is_fulfilled k w ≡ false) × (is_rejected k w ≡ false))
      ⊎ ((is_pending k w ≡ false) × (is_fulfilled k w ≡ true) × (is_rejected k w ≡ false))
      ⊎ ((is_pending k w ≡ false) × (is_fulfilled k w ≡ false) × (is_rejected k w ≡ true))

  IsLinked-OneStatus : (k : K) (w : World K V E) → IsLinked w → has k w ≡ true → OneStatus k w
  unfolding is_pending is_fulfilled is_rejected has
  IsLinked-OneStatus k w i h = ground (arith, i k, JsMap.has-get k w.promises)

  -- After any sequence of calls and turns from an empty map: a key that the map has is exactly one
  -- of pending, fulfilled and rejected, and an entry that holds functions holds those of the
  -- promise that `get` hands out for its key.
  pub run-OneStatus :
      (timeout : Option ℕ) (evs : List (Event K V E)) (k : K)
      → let w = run (new_map {K = K} {V = V} {E = E} timeout) evs in
        (has k w ≡ true → OneStatus k w)
        × ((d : MapData) (p : ℕ)
            → JsMap.get k w.entries ≡ some d
            → d.functions ≡ some p
            → JsMap.get k w.promises ≡ some p)
  run-OneStatus timeout evs k =
      let w = run (new_map {K = K} {V = V} {E = E} timeout) evs in
      let i =
        run-IsLinked (new_map {K = K} {V = V} {E = E} timeout) evs (new_map-IsLinked V E timeout) in
      (IsLinked-OneStatus k w i, λ d p at fn. ground (arith, i k))
