-- ===== src/PromiseMap/Stale.antt =====
-- What outlives a key of src/containers/promise_map.ts: a `doResolve` that comes back after the key
-- was deleted, and a timer that fires after the map was cleared.
use node_celery_ts.Prelude.{
  ℕ, ◌≡◌, refl, ap, ◌∙◌, true, false, none, some, List, [], length, is_some, arith,
}
use node_celery_ts.JsMap
use node_celery_ts.JsMap.{Eq, beq_refl}
use node_celery_ts.PromiseMap.{
  World, pending, MapData, plain, Awaited, timed_out, unsettled, with_reason, has, is_fulfilled,
  finish_resolve, resolve, get, delete, clear, fire_timer,
}
use node_celery_ts.PromiseMap.Resolving.{resolve_resolving, finish_resolve-absent}

module _ {K V E : Type 0} ⦃e : Eq K⦄ where
  delete-resolving :
      (key : K) (w : World K V E)
      → ((delete key w).1.resolving ≡ w.resolving)
        × (JsMap.get key (delete key w).1.entries ≡ none)
        × (JsMap.get key (delete key w).1.promises ≡ none)
  unfolding delete
  delete-resolving key w = (
    ground arith,
    ground (arith, JsMap.get-delete key key w.entries, beq_refl key),
    ground (arith, JsMap.get-delete key key w.promises, beq_refl key),
  )

  -- A key that is resolved and then deleted before its value has been awaited is reported as
  -- fulfilled in the end, although the map does not have it.
  pub deleted_key_fulfilled :
      (key : K) (v : V) (a : Awaited V E) (w : World K V E)
      → JsMap.get key w.entries ≡ none
      → let w₁ = (resolve key (plain v) w).1 in
        let w₂ = (delete key w₁).1 in
        let w₃ = finish_resolve (length w.resolving) a w₂ in
        (has key w₂ ≡ false) × (has key w₃ ≡ false) × (is_fulfilled key w₃ ≡ true)
  unfolding has is_fulfilled
  deleted_key_fulfilled key v a w absent =
      let w₁ = (resolve key (plain v) w).1 in
      let w₂ = (delete key w₁).1 in
      let gone = delete-resolving key w₁ in
      let last =
        finish_resolve-absent key v w.fresh w.resolving a w₂
          (gone.0 ∙ resolve_resolving key v w absent) gone.1 in
      (
        JsMap.has-get key w₂.promises ∙ ap is_some gone.2,
        JsMap.has-get key (finish_resolve (length w.resolving) a w₂).promises
            ∙ ap is_some (ap (JsMap.get key) last.0 ∙ gone.2),
        ground (arith, last.1),
      )

  -- `clear` leaves the timers running. When the timer of a key that was cleared fires, it rejects a
  -- promise that was handed out for that key after the `clear`, and removes the key.
  pub cleared_timer_fires :
      (t : ℕ) (key : K) (w : World K V E)
      → let w₁ = (clear w).1 in
        let (p, w₂) = get key w₁ in
        let w₃ = fire_timer t key w₂ in
        (w₁.timers ≡ w.timers)
        × (w₂.states p ≡ unsettled)
        × (w₃.states p ≡ with_reason timed_out)
        × (has key w₂ ≡ true)
        × (has key w₃ ≡ false)
  unfolding clear get fire_timer has
  cleared_timer_fires t key w =
      let d : MapData = record { functions = some w.fresh; status = pending; timer = none } in
      let at_entry : JsMap.get key (JsMap.set key d []) ≡ some d =
        JsMap.get-set key key d [] ∙ ground (arith, beq_refl key) in
      let m : List (K × ℕ) = JsMap.set key w.fresh [] in
      let at_promise : JsMap.get key m ≡ some w.fresh =
        JsMap.get-set key key w.fresh [] ∙ ground (arith, beq_refl key) in
      let none_at : JsMap.get {V = ℕ} key [] ≡ none = JsMap.get-nil key in
      (
        refl,
        ground (arith, none_at),
        ground (arith, none_at, at_entry),
        ground (arith, none_at, at_promise, JsMap.has-get key m),
        ground (
          arith,
          none_at,
          at_entry,
          JsMap.has-get key (JsMap.delete key m),
          JsMap.get-delete key key m,
          beq_refl key,
        ),
      )
