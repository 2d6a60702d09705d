-- ===== src/PromiseMap.antt =====
-- src/containers/promise_map.ts. `World` is the object with the parts of the runtime that its
-- methods touch: `states` holds the state of each promise, a number; `timers` the timers that have
-- not fired or been cleared, with the key that the callback of each deletes; `resolving` the calls
-- of `doResolve` that have not come back from their `await`. Each function below runs in one turn
-- of the event loop. The pair of functions that an entry holds is the number of its promise.
pub mod State
pub mod Branches
pub mod Getting
pub mod Resolving
pub mod Deleting
pub mod Stale
pub mod Linked
pub mod History
pub mod Timers
pub mod Timed
pub mod Owning
pub mod Firing
pub mod Rejecting
pub mod Delivery
unfoldable pub use State.*
use node_celery_ts.Prelude.{
  ℕ, ◌+◌, if◌then◌else◌, not, Bool, true, false, Option, none, some, List, [], ◌∷◌, ◌++◌, length,
  is_some, get_elem?, ◌||◌,
}
use node_celery_ts.JsMap
use node_celery_ts.JsMap.{Eq}

module _ {K V E : Type 0} ⦃e : Eq K⦄ where
  unfoldable pub new_map : Option ℕ → World K V E
  new_map timeout = record {
    promises = [];
    entries = [];
    timeout = timeout;
    states = λ _. unsettled;
    fresh = 0;
    timers = [];
    next_timer = 0;
    resolving = [];
  }

  unfoldable pub has : K → World K V E → Bool
  has key w = JsMap.has key w.promises

  pub is_pending : K → World K V E → Bool
  is_pending key w = status_is is_pending_status (JsMap.get key w.entries)

  unfoldable pub is_fulfilled : K → World K V E → Bool
  is_fulfilled key w = status_is is_fulfilled_status (JsMap.get key w.entries)

  pub is_rejected : K → World K V E → Bool
  is_rejected key w = status_is is_rejected_status (JsMap.get key w.entries)

  pub set_status : K → Status → World K V E → World K V E
  set_status key status w = record w {
    entries =
        JsMap.set key
          (elim (JsMap.get key w.entries) [
            | none ↦ record { functions = none; status = status; timer = none }
            | some d ↦ record d { status = status }
          ])
          w.entries;
  }

  -- `doResolve` up to its `await`; the promise that it returns is new.
  pub do_resolve : K → Input V → World K V E → ℕ × World K V E
  do_resolve key input w = (
    w.fresh,
    record w {
      states = put_state w.fresh unsettled w.states;
      fresh = w.fresh + 1;
      resolving = w.resolving ++ record { key = key; input = input; result = w.fresh } ∷ [];
    },
  )

  abbrev resume : K → ℕ → Awaited V E → World K V E → World K V E
  resume key result (value v) w =
      let w' = set_status key fulfilled w in
      record w' { states = settle_state result (with_value v) w'.states }
  resume key result (error x) w =
      let w' = set_status key rejected w in
      record w' { states = settle_state result (with_reason (given x)) w'.states }

  -- The `i`-th call of `doResolve` that is under way goes on behind its `await`. What `await` gives
  -- for a plain value is that value.
  unfoldable pub finish_resolve : ℕ → Awaited V E → World K V E → World K V E
  unfolding set_status
  finish_resolve i awaited w = elim (get_elem? w.resolving i) [
    | none ↦ w
    | some r ↦
        resume r.key r.result (awaited_plain r.input awaited)
          (record w { resolving = remove_at i w.resolving })
  ]

  pub resolve_existing : K → MapData → Input V → World K V E → MapData × World K V E
  unfolding do_resolve remove_functions
  resolve_existing key d input w =
      let (result, w₁) = do_resolve key input w in
      let w₂ : World K V E = elim d.functions [
        | some p ↦ record w₁ { states = settle_state p (follows result) w₁.states }
        | none ↦ record w₁ { promises = JsMap.set key result w₁.promises }
      ] in
      let d' = remove_functions d in (record d' { status = pending }, w₂)

  pub resolve_new : K → Input V → World K V E → ℕ × MapData × World K V E
  unfolding do_resolve
  resolve_new key input w =
      let (result, w') = do_resolve key input w in
      (result, record { functions = none; status = pending; timer = none }, w')

  -- `Promise.reject(reason)`
  abbrev reject_promise : Reason E → World K V E → ℕ × World K V E
  reject_promise reason w = (
    w.fresh,
    record w { states = put_state w.fresh (with_reason reason) w.states; fresh = w.fresh + 1 },
  )

  pub reject_existing : K → MapData → Reason E → World K V E → MapData × World K V E
  unfolding remove_functions
  reject_existing key d reason w =
      let w' : World K V E = elim d.functions [
        | some p ↦ record w { states = settle_state p (with_reason reason) w.states }
        | none ↦
            (let (result, w₁) = reject_promise reason w in
              record w₁ { promises = JsMap.set key result w₁.promises })
      ] in
      let d' = remove_functions d in (record d' { status = rejected }, w')

  pub reject_new : Reason E → World K V E → ℕ × MapData × World K V E
  reject_new reason w =
      let (result, w') = reject_promise reason w in
      (result, record { functions = none; status = rejected; timer = none }, w')

  pub set_timeout : K → World K V E → Bool × World K V E
  set_timeout key w = elim (JsMap.get key w.entries) [
    | none ↦ (false, w)
    | some d ↦ elim w.timeout [
      | none ↦ (false, w)
      | some _ ↦ (
        true,
        record w {
          timers = clear_timer d.timer w.timers ++ (w.next_timer, key) ∷ [];
          next_timer = w.next_timer + 1;
          entries = JsMap.set key (record d { timer = some w.next_timer }) w.entries;
        },
      )
    ]
  ]

  pub settle :
      K
      → (MapData → World K V E → MapData × World K V E)
      → (World K V E → ℕ × MapData × World K V E)
      → World K V E
      → Bool × World K V E
  unfolding set_timeout
  settle key on_existing on_new w = elim (JsMap.get key w.entries) [
    | some d ↦
        (let (d', w₁) = on_existing d w in
          (false, (set_timeout key (record w₁ { entries = JsMap.set key d' w₁.entries })).1))
    | none ↦
        (let (promise, d, w₁) = on_new w in
          (
            true,
            (set_timeout key (record w₁ {
              promises = JsMap.set key promise w₁.promises;
              entries = JsMap.set key d w₁.entries;
            })).1,
          ))
  ]

  unfoldable pub resolve : K → Input V → World K V E → Bool × World K V E
  unfolding settle resolve_existing resolve_new
  resolve key input = settle key (λ d. resolve_existing key d input) (resolve_new key input)

  unfoldable pub reject : K → Reason E → World K V E → Bool × World K V E
  unfolding settle reject_existing reject_new
  reject key reason = settle key (λ d. reject_existing key d reason) (reject_new reason)

  -- The loop of `rejectAll`: the keys stay as they are while it runs.
  pub reject_keys : List (K × MapData) → Reason E → World K V E → ℕ × World K V E
  unfolding reject
  reject_keys [] reason w = (0, w)
  reject_keys ((key, _) ∷ rest) reason w = elim (JsMap.get key w.entries) [
    | none ↦ reject_keys rest reason w
    | some d ↦
        if not (is_pending_status d.status) || not (is_some d.functions)
        then reject_keys rest reason w
        else (let (n, w') = reject_keys rest reason (reject key reason w).1 in (n + 1, w'))
  ]

  unfoldable pub reject_all : Reason E → World K V E → ℕ × World K V E
  unfolding reject_keys
  reject_all reason w = reject_keys w.entries reason w

  unfoldable pub get : K → World K V E → ℕ × World K V E
  get key w = elim (JsMap.get key w.promises) [
    | some p ↦ (p, w)
    | none ↦ (
      w.fresh,
      record w {
        states = put_state w.fresh unsettled w.states;
        fresh = w.fresh + 1;
        entries =
            JsMap.set key (record { functions = some w.fresh; status = pending; timer = none })
              w.entries;
        promises = JsMap.set key w.fresh w.promises;
      },
    )
  ]

  pub do_delete : K → Reason E → World K V E → Bool × World K V E
  do_delete key reason w =
      let w' : World K V E = elim (JsMap.get key w.entries) [
        | none ↦ w
        | some d ↦ record w {
          states = reject_functions d.functions reason w.states;
          timers = clear_timer d.timer w.timers;
        }
      ] in
      (
        JsMap.has key w'.promises,
        record w' {
          entries = JsMap.delete key w'.entries;
          promises = JsMap.delete key w'.promises;
        },
      )

  unfoldable pub delete : K → World K V E → Bool × World K V E
  unfolding do_delete
  delete key = do_delete key deleted

  unfoldable pub clear : World K V E → ℕ × World K V E
  unfolding reject_entries
  clear w = (
    length w.promises,
    record w { states = reject_entries w.entries w.states; promises = []; entries = [] },
  )

  -- The callback of a timer.
  unfoldable pub fire_timer : ℕ → K → World K V E → World K V E
  unfolding do_delete
  fire_timer t key w = (do_delete key timed_out (record w { timers = remove_timer t w.timers })).1
