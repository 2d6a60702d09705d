-- ===== src/PromiseMap/Owning.antt =====
-- The timers and the promises of src/containers/promise_map.ts: only a key with a promise has a
-- timer.
use node_celery_ts.Prelude.{
  ℕ, ◌≡◌, sym, Option, none, some, List, [], ◌∷◌, arith, Bool-cases, Option-cases, inl, inr, ◌⊎◌,
  get_elem?,
}
use node_celery_ts.JsMap
use node_celery_ts.JsMap.{Eq, beq_refl}
use node_celery_ts.PromiseMap.{
  World, Status, MapData, Input, Awaited, Reason, set_status, finish_resolve, set_timeout, resolve,
  reject, get, do_delete, reject_keys, resume, awaited_plain, value, error, fulfilled, rejected,
  pending,
}
use node_celery_ts.PromiseMap.Rejecting.{waits, reject_keys-skip, reject_keys-hit}
use node_celery_ts.PromiseMap.Branches.{
  resolve-inserted_with, resolve-replaced_with, resolve-following, reject-inserted, reject-replaced,
  reject-refused,
}
use node_celery_ts.PromiseMap.Linked.{IsLinked, reject-IsLinked}
use node_celery_ts.PromiseMap.Timers.{timer_of}

abbrev pub Owned : Option ℕ → Option MapData → Type 0
Owned none d = timer_of d ≡ none
Owned (some p) d = Unit {0}

module _ {K V E : Type 0} ⦃e : Eq K⦄ where
  abbrev pub IsOwned : World K V E → Type 0
  IsOwned w = (k : K) → Owned (JsMap.get k w.promises) (JsMap.get k w.entries)

  pub get-IsOwned : (key : K) (w : World K V E) → IsOwned w → IsOwned (get key w).1
  unfolding get
  get-IsOwned key w i k = ground (
    arith,
    i k,
    JsMap.get-set key k w.fresh w.promises,
    JsMap.get-set key k (record { functions = some w.fresh; status = pending; timer = none })
        w.entries,
    e.beq_iff key k,
  )

  pub do_delete-IsOwned :
      (key : K) (reason : Reason E) (w : World K V E)
      → IsOwned w
      → IsOwned (do_delete key reason w).1
  unfolding do_delete
  do_delete-IsOwned key reason w i k = ground (
    arith,
    i k,
    JsMap.get-delete key k w.entries,
    JsMap.get-delete key k w.promises,
    e.beq_iff key k,
  )

  set_status-IsOwned :
      (key : K) (s : Status) (w : World K V E) → IsOwned w → IsOwned (set_status key s w)
  unfolding set_status
  set_status-IsOwned key s w i k = elim (Option-cases (JsMap.get key w.entries)) [
    | inl absent ↦ ground (
      arith,
      absent,
      i k,
      JsMap.get-set key k (record { functions = none; status = s; timer = none }) w.entries,
      e.beq_iff key k,
    )
    | inr (d, at) ↦
        ground
          (arith, at, i k, JsMap.get-set key k (record d { status = s }) w.entries, e.beq_iff key k)
  ]

  resume-IsOwned :
      (key : K) (result : ℕ) (a : Awaited V E) (w : World K V E)
      → IsOwned w
      → IsOwned (resume key result a w)
  resume-IsOwned key result (value v) w i = set_status-IsOwned key fulfilled w i
  resume-IsOwned key result (error x) w i = set_status-IsOwned key rejected w i

  pub finish_resolve-IsOwned :
      (n : ℕ) (a : Awaited V E) (w : World K V E) → IsOwned w → IsOwned (finish_resolve n a w)
  unfolding finish_resolve
  finish_resolve-IsOwned n a w i = elim (Option-cases (get_elem? w.resolving n)) [
    | inl out ↦ rw (out, finish_resolve) i
    | inr (r, at) ↦
        rw (at, finish_resolve) (resume-IsOwned r.key r.result (awaited_plain r.input a) _ i)
  ]

  -- A timer is started for a key with a promise, whose entry may have been written anew.
  set_timeout-IsOwned :
      (key : K) (p : ℕ) (w : World K V E)
      → JsMap.get key w.promises ≡ some p
      → ((k : K) → Owned (JsMap.get k w.promises) (JsMap.get k w.entries) ⊎ (k ≡ key))
      → IsOwned (set_timeout key w).1
  unfolding set_timeout
  set_timeout-IsOwned key p w has i k = elim (Option-cases (JsMap.get key w.entries)) [
    | inl absent ↦ ground (arith, absent, has, i k)
    | inr (d, at) ↦ ground (
      arith,
      at,
      has,
      i k,
      JsMap.get-set key k (record d { timer = some w.next_timer }) w.entries,
      e.beq_iff key k,
    )
  ]

  -- Writing the promise of a key and its entry.
  set_both-Owned :
      (key : K) (p : ℕ) (d : MapData) (w : World K V E)
      → IsOwned w
      → (k : K)
      → Owned (JsMap.get k (JsMap.set key p w.promises)) (JsMap.get k (JsMap.set key d w.entries))
        ⊎ (k ≡ key)
  set_both-Owned key p d w i k = elim (Bool-cases (e.beq key k)) [
    | inl same ↦ inr (sym ((e.beq_iff key k).0 same))
    | inr differs ↦ inl (
        ground
          (arith, i k, differs, JsMap.get-set key k d w.entries, JsMap.get-set key k p w.promises))
  ]

  set_entry-Owned :
      (key : K) (d : MapData) (w : World K V E)
      → IsOwned w
      → (k : K)
      → Owned (JsMap.get k w.promises) (JsMap.get k (JsMap.set key d w.entries)) ⊎ (k ≡ key)
  set_entry-Owned key d w i k = elim (Bool-cases (e.beq key k)) [
    | inl same ↦ inr (sym ((e.beq_iff key k).0 same))
    | inr differs ↦ inl (ground (arith, i k, differs, JsMap.get-set key k d w.entries))
  ]

  has_promise :
      (key : K) (p : ℕ) (w : World K V E) → JsMap.get key (JsMap.set key p w.promises) ≡ some p
  has_promise key p w = ground (arith, JsMap.get-set key key p w.promises, beq_refl key)

  linked_promise :
      (key : K) (d : MapData) (p : ℕ) (w : World K V E)
      → JsMap.get key w.entries ≡ some d
      → d.functions ≡ some p
      → IsLinked w
      → JsMap.get key w.promises ≡ some p
  linked_promise key d p w at fn l = ground (arith, l key)

  pub resolve-IsOwned :
      (key : K) (input : Input V) (w : World K V E)
      → IsLinked w
      → IsOwned w
      → IsOwned (resolve key input w).1
  resolve-IsOwned key input w l i = elim (Option-cases (JsMap.get key w.entries)) [
    | inl absent ↦ rw (resolve-inserted_with key input w absent) (
        set_timeout-IsOwned key w.fresh _ (has_promise key w.fresh w)
          (set_both-Owned key w.fresh _ w i))
    | inr (d, at) ↦ elim (Option-cases d.functions) [
      | inl un ↦ rw (resolve-replaced_with key input w d at un) (
          set_timeout-IsOwned key w.fresh _ (has_promise key w.fresh w)
            (set_both-Owned key w.fresh _ w i))
      | inr (p, fn) ↦ rw (resolve-following key input w d p at fn) (
          set_timeout-IsOwned key p _ (linked_promise key d p w at fn l)
            (set_entry-Owned key _ w i))
    ]
  ]

  pub reject-IsOwned :
      (key : K) (reason : Reason E) (w : World K V E)
      → IsLinked w
      → IsOwned w
      → IsOwned (reject key reason w).1
  reject-IsOwned key reason w l i = elim (Option-cases (JsMap.get key w.entries)) [
    | inl absent ↦ rw (reject-inserted key reason w absent) (
        set_timeout-IsOwned key w.fresh _ (has_promise key w.fresh w)
          (set_both-Owned key w.fresh _ w i))
    | inr (d, at) ↦ elim (Option-cases d.functions) [
      | inl un ↦ rw (reject-replaced key reason w d at un) (
          set_timeout-IsOwned key w.fresh _ (has_promise key w.fresh w)
            (set_both-Owned key w.fresh _ w i))
      | inr (p, fn) ↦ rw (reject-refused key reason w d p at fn) (
          set_timeout-IsOwned key p _ (linked_promise key d p w at fn l)
            (set_entry-Owned key _ w i))
    ]
  ]

  pub reject_keys-IsOwned :
      (l : List (K × MapData)) (reason : Reason E) (w : World K V E)
      → IsLinked w
      → IsOwned w
      → IsOwned (reject_keys l reason w).1
  reject_keys-IsOwned [] reason w j i = unfold reject_keys in i
  reject_keys-IsOwned ((key, x) ∷ rest) reason w j i =
      elim (Bool-cases (waits (JsMap.get key w.entries))) [
        | inr idle ↦
            rw (reject_keys-skip key x rest reason w idle) (reject_keys-IsOwned rest reason w j i)
        | inl busy ↦ rw ((reject_keys-hit key x rest reason w busy).1) (
            reject_keys-IsOwned rest reason (reject key reason w).1 (reject-IsLinked key reason w j)
              (reject-IsOwned key reason w j i))
      ]
