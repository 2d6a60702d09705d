-- ===== src/PromiseMap/Getting.antt =====
-- `get` and `has` of src/containers/promise_map.ts.
use node_celery_ts.Prelude.{◌+◌, ◌≡◌, ◌≢◌, true, false, none, some, arith}
use node_celery_ts.JsMap
use node_celery_ts.JsMap.{Eq, beq_refl}
use node_celery_ts.PromiseMap.{World, pending, MapData, unsettled, has, is_pending, get}

module _ {K V E : Type 0} ⦃e : Eq K⦄ where
  -- `get` makes a key's promise once: asked again, also after asking for other keys, it returns the
  -- same promise and changes nothing.
  pub get_same :
      (key other : K) (w : World K V E)
      → let (p, w₁) = get key w in
        let w₂ = (get other w₁).1 in (get key w₂ ≡ (p, w₂)) × (has key w₂ ≡ true)
  unfolding get has
  get_same key other w = ground (
    arith,
    JsMap.get-set key key w.fresh w.promises,
    JsMap.get-set key other w.fresh w.promises,
    JsMap.get-set other key (w.fresh + 1) (JsMap.set key w.fresh w.promises),
    JsMap.get-set other key w.fresh w.promises,
    e.beq_iff key other,
    e.beq_iff other key,
    beq_refl key,
    JsMap.has-get key w.promises,
    JsMap.has-get key (JsMap.set key w.fresh w.promises),
    JsMap.has-get key (JsMap.set other w.fresh w.promises),
    JsMap.has-get key (JsMap.set other (w.fresh + 1) (JsMap.set key w.fresh w.promises)),
  )

  -- `get` of a key that the map does not have makes a pending promise for it, and touches no other
  -- key.
  pub get_new :
      (key : K) (w : World K V E)
      → has key w ≡ false
      → let (p, w') = get key w in
        (w'.states p ≡ unsettled)
        × (is_pending key w' ≡ true)
        × ((other : K)
            → other ≢ key
            → (JsMap.get other w'.entries ≡ JsMap.get other w.entries)
              × (JsMap.get other w'.promises ≡ JsMap.get other w.promises))
  unfolding get has is_pending
  get_new key w absent =
      let free : JsMap.get key w.promises ≡ none = ground (arith, JsMap.has-get key w.promises) in
      let d : MapData = record { functions = some w.fresh; status = pending; timer = none } in
      (
        ground (arith, free),
        ground (arith, free, JsMap.get-set key key d w.entries, beq_refl key),
        λ other ne. ground (
          arith,
          free,
          JsMap.get-set key other d w.entries,
          JsMap.get-set key other w.fresh w.promises,
          e.beq_iff key other,
        ),
      )
