-- ===== src/PromiseMap/Resolving.antt =====
-- `resolve` of src/containers/promise_map.ts, from the call to the end of `doResolve`.
use node_celery_ts.Prelude.{
  ℕ, ◌<◌, ◌≡◌, refl, ap, ◌∙◌, true, false, none, some, List, [], ◌∷◌, ◌++◌, length, get_elem?,
  arith, get_elem?-length,
}
use node_celery_ts.JsMap
use node_celery_ts.JsMap.{Eq, beq_refl}
use node_celery_ts.PromiseMap.{
  World, pending, fulfilled, MapData, plain, Awaited, unsettled, follows, with_value, settle_state,
  Resolution, is_pending, is_fulfilled, finish_resolve, set_timeout, resolve, get,
}
use node_celery_ts.PromiseMap.Branches.{
  set_timeout-entry, set_timeout-same, following, resolve-following, inserted_with,
  resolve-inserted_with,
}

module _ {K V E : Type 0} ⦃e : Eq K⦄ where
  -- What the end of `doResolve` does, for the call that was made last.
  finish_resolve-last :
      (key : K) (v : V) (result : ℕ) (rs : List (Resolution K V)) (a : Awaited V E)
      (w : World K V E) (d : MapData)
      → w.resolving ≡ rs ++ record { key = key; input = plain v; result = result } ∷ []
      → JsMap.get key w.entries ≡ some d
      → let w' = finish_resolve (length rs) a w in
        (w'.states ≡ settle_state result (with_value v) w.states)
        × (w'.promises ≡ w.promises)
        × (JsMap.get key w'.entries ≡ some (record d { status = fulfilled }))
  unfolding finish_resolve
  finish_resolve-last key v result rs a w d e at =
      let here : get_elem? w.resolving (length rs)
          ≡ some (record { key = key; input = plain v; result = result }) =
        ap (λ t. get_elem? t (length rs)) e ∙ get_elem?-length rs _ in
      ground (
        arith,
        here,
        JsMap.get-set key key (record d { status = fulfilled }) w.entries,
        beq_refl key,
      )

  -- `resolve` of a key that somebody waits for returns false, and the promise that was handed out
  -- earlier follows the value: at the end it has that value, and the key is fulfilled.
  pub resolve_waiting :
      (key : K) (v : V) (a : Awaited V E) (w : World K V E) (d : MapData) (p : ℕ)
      → JsMap.get key w.entries ≡ some d
      → d.functions ≡ some p
      → w.states p ≡ unsettled
      → p < w.fresh
      → let (inserted, w₁) = resolve key (plain v) w in
        let w₂ = finish_resolve (length w.resolving) a w₁ in
        (inserted ≡ false)
        × (is_pending key w₁ ≡ true)
        × (w₂.states p ≡ follows w.fresh)
        × (w₂.states w.fresh ≡ with_value v)
        × (is_fulfilled key w₂ ≡ true)
        × (JsMap.get key w₂.promises ≡ JsMap.get key w.promises)
  unfolding is_pending is_fulfilled
  resolve_waiting key v a w d p at fn un lt =
      let d' : MapData = record { functions = none; status = pending; timer = d.timer } in
      let mid = following key (plain v) w d p in
      let at' : JsMap.get key mid.entries ≡ some d' =
        ground (arith, JsMap.get-set key key d' w.entries, beq_refl key) in
      let run = resolve-following key (plain v) w d p at fn in
      let entry = set_timeout-entry key d' mid at' in
      let same = set_timeout-same key mid in
      let last =
        finish_resolve-last key v w.fresh w.resolving a (set_timeout key mid).1 _ same.1 entry in
      let states_at : (q : ℕ)
          → (finish_resolve (length w.resolving) a (set_timeout key mid).1).states q
            ≡ settle_state w.fresh (with_value v) mid.states q =
        λ q. ap (λ f. f q) (last.0 ∙ ap (settle_state w.fresh (with_value v)) same.3) in
      rw run (
        refl,
        ground (arith, entry),
        states_at p ∙ ground arith,
        states_at w.fresh ∙ ground arith,
        ground (arith, last.2),
        ap (JsMap.get key) (last.1 ∙ same.0),
      )

  get-present :
      (key : K) (p : ℕ) (w : World K V E) → JsMap.get key w.promises ≡ some p → get key w ≡ (p, w)
  unfolding get
  get-present key p w at = ground arith

  -- `resolve` of a key that the map has no entry for returns true, and whoever asks for the key, at
  -- once or when the value has arrived, gets one and the same promise, which in the end has the
  -- value.
  pub resolve_then_get :
      (key : K) (v : V) (a : Awaited V E) (w : World K V E)
      → JsMap.get key w.entries ≡ none
      → let (inserted, w₁) = resolve key (plain v) w in
        let w₂ = finish_resolve (length w.resolving) a w₁ in
        (inserted ≡ true)
        × (get key w₁ ≡ (w.fresh, w₁))
        × (get key w₂ ≡ (w.fresh, w₂))
        × (w₂.states w.fresh ≡ with_value v)
        × (is_fulfilled key w₂ ≡ true)
  unfolding is_fulfilled
  resolve_then_get key v a w absent =
      let d' : MapData = record { functions = none; status = pending; timer = none } in
      let mid = inserted_with key (plain v) w in
      let at' : JsMap.get key mid.entries ≡ some d' =
        ground (arith, JsMap.get-set key key d' w.entries, beq_refl key) in
      let has' : JsMap.get key mid.promises ≡ some w.fresh =
        ground (arith, JsMap.get-set key key w.fresh w.promises, beq_refl key) in
      let run = resolve-inserted_with key (plain v) w absent in
      let entry = set_timeout-entry key d' mid at' in
      let same = set_timeout-same key mid in
      let last =
        finish_resolve-last key v w.fresh w.resolving a (set_timeout key mid).1 _ same.1 entry in
      let states_at =
        ap (λ f. f w.fresh) (last.0 ∙ ap (settle_state w.fresh (with_value v)) same.3) in
      rw run (
        refl,
        get-present key w.fresh _ (ap (JsMap.get key) same.0 ∙ has'),
        get-present key w.fresh _ (ap (JsMap.get key) (last.1 ∙ same.0) ∙ has'),
        states_at ∙ ground arith,
        ground (arith, last.2),
      )

  pub resolve_resolving :
      (key : K) (v : V) (w : World K V E)
      → JsMap.get key w.entries ≡ none
      → (resolve key (plain v) w).1.resolving
        ≡ w.resolving ++ record { key = key; input = plain v; result = w.fresh } ∷ []
  resolve_resolving key v w absent =
      ap (λ t. t.1.resolving) (resolve-inserted_with key (plain v) w absent)
      ∙ (set_timeout-same key (inserted_with key (plain v) w)).1

  -- The same for a key that has lost its entry.
  pub finish_resolve-absent :
      (key : K) (v : V) (result : ℕ) (rs : List (Resolution K V)) (a : Awaited V E)
      (w : World K V E)
      → w.resolving ≡ rs ++ record { key = key; input = plain v; result = result } ∷ []
      → JsMap.get key w.entries ≡ none
      → let w' = finish_resolve (length rs) a w in
        (w'.promises ≡ w.promises)
        × (JsMap.get key w'.entries
            ≡ some (record { functions = none; status = fulfilled; timer = none }))
  unfolding finish_resolve
  finish_resolve-absent key v result rs a w e at =
      let here : get_elem? w.resolving (length rs)
          ≡ some (record { key = key; input = plain v; result = result }) =
        ap (λ t. get_elem? t (length rs)) e ∙ get_elem?-length rs _ in
      let d : MapData = record { functions = none; status = fulfilled; timer = none } in
      ground (arith, here, JsMap.get-set key key d w.entries, beq_refl key)
