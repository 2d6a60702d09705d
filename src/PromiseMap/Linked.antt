-- ===== src/PromiseMap/Linked.antt =====
-- How the two maps of src/containers/promise_map.ts, `promises` and `data`, stay together.
use node_celery_ts.Prelude.{
  ℕ, ◌≡◌, refl, Option, none, some, List, [], ◌∷◌, get_elem?, arith, Bool-cases, Option-cases, inl,
  inr, ◌⊎◌,
}
use node_celery_ts.JsMap
use node_celery_ts.JsMap.{Eq, beq_refl}
use node_celery_ts.PromiseMap.{
  resume, awaited_plain, World, Status, pending, fulfilled, rejected, MapData, Input, Awaited,
  value, error, Reason, set_status, finish_resolve, set_timeout, resolve, reject, get, do_delete,
  clear, reject_keys,
}
use node_celery_ts.PromiseMap.Rejecting.{waits, reject_keys-skip, reject_keys-hit}
use node_celery_ts.PromiseMap.Branches.{
  resolve-inserted_with, resolve-replaced_with, resolve-following, reject-inserted, reject-replaced,
  reject-refused,
}

-- A promise has an entry, and an entry that holds functions holds those of the key's promise.
-- `doResolve` may leave an entry without a promise, which then holds no functions.
abbrev pub Paired : Option ℕ → Option MapData → Type 0
Paired none none = Unit {0}
Paired none (some d) = d.functions ≡ none
Paired (some p) none = ⊥
Paired (some p) (some d) = (d.functions ≡ none) ⊎ (d.functions ≡ some p)

module _ {K : Type 0} ⦃e : Eq K⦄ where
  -- Writing an entry without functions, or one that keeps those it had.
  set_entry-IsLinked :
      (key : K) (d : MapData) (m : List (K × ℕ)) (entries : List (K × MapData))
      → ((k : K) → Paired (JsMap.get k m) (JsMap.get k entries))
      → d.functions ≡ none
      → (k : K) → Paired (JsMap.get k m) (JsMap.get k (JsMap.set key d entries))
  set_entry-IsLinked key d m entries i un k =
      ground (arith, i k, JsMap.get-set key k d entries, e.beq_iff key k)

  set_both-IsLinked :
      (key : K) (p : ℕ) (d : MapData) (m : List (K × ℕ)) (entries : List (K × MapData))
      → ((k : K) → Paired (JsMap.get k m) (JsMap.get k entries))
      → d.functions ≡ none
      → (k : K) → Paired (JsMap.get k (JsMap.set key p m)) (JsMap.get k (JsMap.set key d entries))
  set_both-IsLinked key p d m entries i un k =
      ground (arith, i k, JsMap.get-set key k d entries, JsMap.get-set key k p m, e.beq_iff key k)

module _ {K V E : Type 0} ⦃e : Eq K⦄ where
  abbrev pub IsLinked : World K V E → Type 0
  IsLinked w = (k : K) → Paired (JsMap.get k w.promises) (JsMap.get k w.entries)

  pub get-IsLinked : (key : K) (w : World K V E) → IsLinked w → IsLinked (get key w).1
  unfolding get
  get-IsLinked key w i k = ground (
    arith,
    i k,
    i key,
    JsMap.get-set key k w.fresh w.promises,
    JsMap.get-set key k (record { functions = some w.fresh; status = pending; timer = none })
        w.entries,
    e.beq_iff key k,
  )

  set_status-IsLinked :
      (key : K) (s : Status) (w : World K V E) → IsLinked w → IsLinked (set_status key s w)
  unfolding set_status
  set_status-IsLinked key s w i k = elim (Option-cases (JsMap.get key w.entries)) [
    | inl absent ↦ ground (
      arith,
      absent,
      i k,
      JsMap.get-set key k (record { functions = none; status = s; timer = none }) w.entries,
      e.beq_iff key k,
    )
    | inr (d, at) ↦
        ground
          (arith, at, i k, JsMap.get-set key k (record d { status = s }) w.entries, e.beq_iff key k)
  ]

  set_timeout-IsLinked : (key : K) (w : World K V E) → IsLinked w → IsLinked (set_timeout key w).1
  unfolding set_timeout
  set_timeout-IsLinked key w i k = elim (Option-cases (JsMap.get key w.entries)) [
    | inl absent ↦ ground (arith, absent, i k)
    | inr (d, at) ↦ ground (
      arith,
      at,
      i k,
      JsMap.get-set key k (record d { timer = some w.next_timer }) w.entries,
      e.beq_iff key k,
    )
  ]

  pub do_delete-IsLinked :
      (key : K) (reason : Reason E) (w : World K V E)
      → IsLinked w
      → IsLinked (do_delete key reason w).1
  unfolding do_delete
  do_delete-IsLinked key reason w i k = ground (
    arith,
    i k,
    JsMap.get-delete key k w.entries,
    JsMap.get-delete key k w.promises,
    e.beq_iff key k,
  )

  pub clear-IsLinked : (w : World K V E) → IsLinked (clear w).1
  unfolding clear
  clear-IsLinked w k = ground (arith, JsMap.get-nil {V = ℕ} k, JsMap.get-nil {V = MapData} k)

  resume-IsLinked :
      (key : K) (result : ℕ) (a : Awaited V E) (w : World K V E)
      → IsLinked w
      → IsLinked (resume key result a w)
  resume-IsLinked key result (value v) w i = set_status-IsLinked key fulfilled w i
  resume-IsLinked key result (error x) w i = set_status-IsLinked key rejected w i

  pub finish_resolve-IsLinked :
      (n : ℕ) (a : Awaited V E) (w : World K V E) → IsLinked w → IsLinked (finish_resolve n a w)
  unfolding finish_resolve
  finish_resolve-IsLinked n a w i = elim (Option-cases (get_elem? w.resolving n)) [
    | inl out ↦ rw (out, finish_resolve) i
    | inr (r, at) ↦
        rw (at, finish_resolve) (resume-IsLinked r.key r.result (awaited_plain r.input a) _ i)
  ]

  pub resolve-IsLinked :
      (key : K) (input : Input V) (w : World K V E) → IsLinked w → IsLinked (resolve key input w).1
  resolve-IsLinked key input w i = elim (Option-cases (JsMap.get key w.entries)) [
    | inl absent ↦
        rw (resolve-inserted_with key input w absent)
          (set_timeout-IsLinked key _ (set_both-IsLinked key w.fresh _ w.promises w.entries i refl))
    | inr (d, at) ↦ elim (Option-cases d.functions) [
      | inl un ↦
          rw (resolve-replaced_with key input w d at un) (
            set_timeout-IsLinked key _
              (set_both-IsLinked key w.fresh _ w.promises w.entries i refl))
      | inr (p, fn) ↦
          rw (resolve-following key input w d p at fn)
            (set_timeout-IsLinked key _ (set_entry-IsLinked key _ w.promises w.entries i refl))
    ]
  ]

  pub reject-IsLinked :
      (key : K) (reason : Reason E) (w : World K V E)
      → IsLinked w
      → IsLinked (reject key reason w).1
  reject-IsLinked key reason w i = elim (Option-cases (JsMap.get key w.entries)) [
    | inl absent ↦
        rw (reject-inserted key reason w absent)
          (set_timeout-IsLinked key _ (set_both-IsLinked key w.fresh _ w.promises w.entries i refl))
    | inr (d, at) ↦ elim (Option-cases d.functions) [
      | inl un ↦
          rw (reject-replaced key reason w d at un) (
            set_timeout-IsLinked key _
              (set_both-IsLinked key w.fresh _ w.promises w.entries i refl))
      | inr (p, fn) ↦
          rw (reject-refused key reason w d p at fn)
            (set_timeout-IsLinked key _ (set_entry-IsLinked key _ w.promises w.entries i refl))
    ]
  ]

  pub reject_keys-IsLinked :
      (l : List (K × MapData)) (reason : Reason E) (w : World K V E)
      → IsLinked w
      → IsLinked (reject_keys l reason w).1
  reject_keys-IsLinked [] reason w i = unfold reject_keys in i
  reject_keys-IsLinked ((key, x) ∷ rest) reason w i =
      elim (Bool-cases (waits (JsMap.get key w.entries))) [
        | inr idle ↦
            rw (reject_keys-skip key x rest reason w idle) (reject_keys-IsLinked rest reason w i)
        | inl busy ↦ rw ((reject_keys-hit key x rest reason w busy).1) (
            reject_keys-IsLinked rest reason (reject key reason w).1
              (reject-IsLinked key reason w i))
      ]
