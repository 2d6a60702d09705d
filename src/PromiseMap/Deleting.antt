-- ===== src/PromiseMap/Deleting.antt =====
-- `delete`, `clear` and the timers of src/containers/promise_map.ts.
use node_celery_ts.Prelude.{ℕ, ◌≡◌, ◌≢◌, false, none, some, arith}
use node_celery_ts.JsMap
use node_celery_ts.JsMap.{Eq, beq_refl}
use node_celery_ts.PromiseMap.{World, MapData, deleted, unsettled, with_reason, has, delete}

module _ {K V E : Type 0} ⦃e : Eq K⦄ where
  -- `delete` returns whether the map had the key. Afterwards the key has no promise and no
  -- entry, a promise that somebody waits for is rejected with "deleted", and the promises and
  -- entries of the other keys stay.
  pub delete_lem :
      (key : K) (w : World K V E)
      → let (was, w') = delete key w in
        (was ≡ has key w)
        × (has key w' ≡ false)
        × (JsMap.get key w'.entries ≡ none)
        × ((d : MapData) (p : ℕ)
            → JsMap.get key w.entries ≡ some d
            → d.functions ≡ some p
            → w.states p ≡ unsettled
            → w'.states p ≡ with_reason deleted)
        × ((other : K)
            → other ≢ key
            → (JsMap.get other w'.entries ≡ JsMap.get other w.entries)
              × (JsMap.get other w'.promises ≡ JsMap.get other w.promises))
  unfolding delete has
  delete_lem key w = (
    ground arith,
    ground (
      arith,
      JsMap.has-get key (JsMap.delete key w.promises),
      JsMap.get-delete key key w.promises,
      beq_refl key,
    ),
    ground (arith, JsMap.get-delete key key w.entries, beq_refl key),
    λ d p at fn un. ground arith,
    λ other ne. ground (
      arith,
      JsMap.get-delete key other w.entries,
      JsMap.get-delete key other w.promises,
      e.beq_iff key other,
    ),
  )
