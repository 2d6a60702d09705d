-- ===== src/PromiseMap/Timed.antt =====
-- The timers that each method of src/containers/promise_map.ts leaves.
use node_celery_ts.Prelude.{
  ℕ, ◌≡◌, ap, subst, none, some, List, [], ◌∷◌, Bool-cases, Option-cases, inl, inr, get_elem?,
}
use node_celery_ts.JsMap
use node_celery_ts.JsMap.{Eq, beq_refl}
use node_celery_ts.PromiseMap.{
  World, Status, MapData, Input, Awaited, Reason, remove_timer, clear_timer, set_status,
  finish_resolve, set_timeout, resolve, reject, get, do_delete, reject_keys, resume, awaited_plain,
  value, error, fulfilled, rejected, pending,
}
use node_celery_ts.PromiseMap.Rejecting.{waits, reject_keys-skip, reject_keys-hit}
use node_celery_ts.PromiseMap.Branches.{
  resolve-inserted_with, resolve-replaced_with, resolve-following, reject-inserted, reject-replaced,
  reject-refused,
}
use node_celery_ts.PromiseMap.Timers.{
  timer_of, AllBelong, AllBelong-remove, timer_at, set_entry-AllBelong, restart-AllBelong,
  delete-AllBelong,
}

module _ {K V E : Type 0} ⦃e : Eq K⦄ where
  -- A timer that may fire is that of the present entry of its key.
  abbrev pub IsTimed : World K V E → Type 0
  IsTimed w = AllBelong (timer_at w.entries) w.timers

  set_timeout-IsTimed : (key : K) (w : World K V E) → IsTimed w → IsTimed (set_timeout key w).1
  unfolding set_timeout
  set_timeout-IsTimed key w i = elim (Option-cases (JsMap.get key w.entries)) [
    | inl absent ↦ rw (set_timeout, absent) i
    | inr (d, at) ↦ elim (Option-cases w.timeout) [
      | inl unset ↦ rw (set_timeout, at, unset) i
      | inr (n, set) ↦
          rw (set_timeout, at, set) (restart-AllBelong key w.next_timer d w.entries w.timers at i)
    ]
  ]

  pub do_delete-IsTimed :
      (key : K) (reason : Reason E) (w : World K V E)
      → IsTimed w
      → IsTimed (do_delete key reason w).1
  unfolding do_delete
  do_delete-IsTimed key reason w i =
      let gone = delete-AllBelong key w.entries w.timers i in
      elim (Option-cases (JsMap.get key w.entries)) [
        | inl absent ↦
            rw (do_delete, absent)
              (subst
                (λ o. AllBelong (timer_at (JsMap.delete key w.entries)) (clear_timer o w.timers))
                (ap timer_of absent) gone)
        | inr (d, at) ↦
            rw (do_delete, at)
              (subst
                (λ o. AllBelong (timer_at (JsMap.delete key w.entries)) (clear_timer o w.timers))
                (ap timer_of at) gone)
      ]

  set_status-IsTimed :
      (key : K) (s : Status) (w : World K V E) → IsTimed w → IsTimed (set_status key s w)
  unfolding set_status
  set_status-IsTimed key s w i = elim (Option-cases (JsMap.get key w.entries)) [
    | inl absent ↦
        rw (set_status, absent)
          (set_entry-AllBelong key (record { functions = none; status = s; timer = none }) w.entries
            w.timers (ap timer_of absent) i)
    | inr (d, at) ↦
        rw (set_status, at)
          (set_entry-AllBelong key (record d { status = s }) w.entries w.timers (ap timer_of at) i)
  ]

  resume-IsTimed :
      (key : K) (result : ℕ) (a : Awaited V E) (w : World K V E)
      → IsTimed w
      → IsTimed (resume key result a w)
  resume-IsTimed key result (value v) w i = set_status-IsTimed key fulfilled w i
  resume-IsTimed key result (error x) w i = set_status-IsTimed key rejected w i

  pub finish_resolve-IsTimed :
      (n : ℕ) (a : Awaited V E) (w : World K V E) → IsTimed w → IsTimed (finish_resolve n a w)
  unfolding finish_resolve
  finish_resolve-IsTimed n a w i = elim (Option-cases (get_elem? w.resolving n)) [
    | inl out ↦ rw (out, finish_resolve) i
    | inr (r, at) ↦
        rw (at, finish_resolve) (resume-IsTimed r.key r.result (awaited_plain r.input a) _ i)
  ]

  pub resolve-IsTimed :
      (key : K) (input : Input V) (w : World K V E) → IsTimed w → IsTimed (resolve key input w).1
  resolve-IsTimed key input w i =
      let kept : (d : MapData)
          → timer_at w.entries key ≡ d.timer
          → AllBelong (timer_at (JsMap.set key d w.entries)) w.timers =
        λ d h. set_entry-AllBelong key d w.entries w.timers h i in
      elim (Option-cases (JsMap.get key w.entries)) [
        | inl absent ↦
            rw (resolve-inserted_with key input w absent)
              (set_timeout-IsTimed key _ (kept _ (ap timer_of absent)))
        | inr (d, at) ↦ elim (Option-cases d.functions) [
          | inl un ↦
              rw (resolve-replaced_with key input w d at un)
                (set_timeout-IsTimed key _ (kept _ (ap timer_of at)))
          | inr (p, fn) ↦
              rw (resolve-following key input w d p at fn)
                (set_timeout-IsTimed key _ (kept _ (ap timer_of at)))
        ]
      ]

  pub reject-IsTimed :
      (key : K) (reason : Reason E) (w : World K V E) → IsTimed w → IsTimed (reject key reason w).1
  reject-IsTimed key reason w i =
      let kept : (d : MapData)
          → timer_at w.entries key ≡ d.timer
          → AllBelong (timer_at (JsMap.set key d w.entries)) w.timers =
        λ d h. set_entry-AllBelong key d w.entries w.timers h i in
      elim (Option-cases (JsMap.get key w.entries)) [
        | inl absent ↦
            rw (reject-inserted key reason w absent)
              (set_timeout-IsTimed key _ (kept _ (ap timer_of absent)))
        | inr (d, at) ↦ elim (Option-cases d.functions) [
          | inl un ↦
              rw (reject-replaced key reason w d at un)
                (set_timeout-IsTimed key _ (kept _ (ap timer_of at)))
          | inr (p, fn) ↦
              rw (reject-refused key reason w d p at fn)
                (set_timeout-IsTimed key _ (kept _ (ap timer_of at)))
        ]
      ]

  pub reject_keys-IsTimed :
      (l : List (K × MapData)) (reason : Reason E) (w : World K V E)
      → IsTimed w
      → IsTimed (reject_keys l reason w).1
  reject_keys-IsTimed [] reason w i = unfold reject_keys in i
  reject_keys-IsTimed ((key, x) ∷ rest) reason w i =
      elim (Bool-cases (waits (JsMap.get key w.entries))) [
        | inr idle ↦
            rw (reject_keys-skip key x rest reason w idle) (reject_keys-IsTimed rest reason w i)
        | inl busy ↦ rw ((reject_keys-hit key x rest reason w busy).1) (
            reject_keys-IsTimed rest reason (reject key reason w).1 (reject-IsTimed key reason w i))
      ]

  pub get-IsTimed :
      (key : K) (w : World K V E)
      → (JsMap.get key w.promises ≡ none → timer_at w.entries key ≡ none)
      → IsTimed w
      → IsTimed (get key w).1
  unfolding get
  get-IsTimed key w owned i = elim (Option-cases (JsMap.get key w.promises)) [
    | inl absent ↦
        rw (get, absent)
          (set_entry-AllBelong key
            (record { functions = some w.fresh; status = pending; timer = none }) w.entries w.timers
            (owned absent) i)
    | inr (p, at) ↦ rw (get, at) i
  ]

  -- A timer fires.
  pub removed-IsTimed :
      (t : ℕ) (w : World K V E)
      → IsTimed w
      → IsTimed (record w { timers = remove_timer t w.timers })
  removed-IsTimed t w i =
      AllBelong-remove (timer_at w.entries) (timer_at w.entries) t w.timers (λ k s other b. b) i
