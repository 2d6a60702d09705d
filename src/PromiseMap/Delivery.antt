-- ===== src/PromiseMap/Delivery.antt =====
-- A value that comes to src/containers/promise_map.ts, and somebody who asks for it, in either
-- order.
use node_celery_ts.Prelude.{ℕ, ◌+◌, ◌≡◌, refl, ap, ◌∙◌, Option, none, some, length, arith, ==_refl}
use node_celery_ts.JsMap
use node_celery_ts.JsMap.{Eq, beq_refl}
use node_celery_ts.PromiseMap.{
  World, pending, MapData, plain, Awaited, PromiseState, put_state, unsettled, follows, with_value,
  with_reason, finish_resolve, resolve, get,
}
use node_celery_ts.PromiseMap.Branches.{set_timeout-same, inserted_with, resolve-inserted_with}
use node_celery_ts.PromiseMap.Resolving.{resolve_waiting, resolve_then_get}

-- The value of a promise, which may follow one that `doResolve` returned.
abbrev pub value_in : {V E : Type 0} → PromiseState V E → Option V
value_in unsettled = none
value_in (follows p) = none
value_in (with_value v) = some v
value_in (with_reason r) = none

abbrev pub value_of : {V E : Type 0} → (ℕ → PromiseState V E) → PromiseState V E → Option V
value_of states unsettled = none
value_of states (follows p) = value_in (states p)
value_of states (with_value v) = some v
value_of states (with_reason r) = none

abbrev pub value_at : {V E : Type 0} → (ℕ → PromiseState V E) → ℕ → Option V
value_at states p = value_of states (states p)

value_at-follows :
    {V E : Type 0} (states : ℕ → PromiseState V E) (p q : ℕ) (v : V)
    → states p ≡ follows q
    → states q ≡ with_value v
    → value_at states p ≡ some v
value_at-follows states p q v e f = ap (value_of states) e ∙ ap value_in f

module _ {K V E : Type 0} ⦃e : Eq K⦄ where
  -- A value comes, and `doResolve` comes back.
  abbrev pub receive : K → V → Awaited V E → World K V E → World K V E
  receive key v a w = finish_resolve (length w.resolving) a (resolve key (plain v) w).1

  -- The map when somebody has asked for a new key.
  abbrev asked : K → World K V E → World K V E
  asked key w = record w {
    states = put_state w.fresh unsettled w.states;
    fresh = w.fresh + 1;
    entries =
        JsMap.set key (record { functions = some w.fresh; status = pending; timer = none })
          w.entries;
    promises = JsMap.set key w.fresh w.promises;
  }

  get-asked :
      (key : K) (w : World K V E)
      → JsMap.get key w.promises ≡ none
      → get key w ≡ (w.fresh, asked key w)
  unfolding get
  get-asked key w absent = ground arith

  -- Whoever asks before the value comes has it in the end.
  pub get-receive :
      (key : K) (v : V) (a : Awaited V E) (w : World K V E)
      → JsMap.get key w.promises ≡ none
      → let (p, w₁) = get key w in value_at (receive key v a w₁).states p ≡ some v
  get-receive key v a w absent =
      let w₁ = asked key w in
      let d : MapData = record { functions = some w.fresh; status = pending; timer = none } in
      let at : JsMap.get key w₁.entries ≡ some d =
        ground (arith, JsMap.get-set key key d w.entries, beq_refl key) in
      let new : w₁.states w.fresh ≡ unsettled = ground (arith, ==_refl w.fresh) in
      let r = resolve_waiting key v a w₁ d w.fresh at refl new (omega arith) in
      rw (get-asked key w absent)
        (value_at-follows (receive key v a w₁).states w.fresh w₁.fresh v (r.2) (r.3))

  -- And so has whoever asks afterwards.
  pub receive-get :
      (key : K) (v : V) (a : Awaited V E) (w : World K V E)
      → JsMap.get key w.entries ≡ none
      → let w₁ = receive key v a w in let (p, w₂) = get key w₁ in value_at w₂.states p ≡ some v
  receive-get key v a w absent =
      let r = resolve_then_get key v a w absent in
      rw (r.2) (ap (value_of (receive key v a w).states) (r.3))

  -- Or in between, before `doResolve` comes back.
  pub resolve-get-finish :
      (key : K) (v : V) (a : Awaited V E) (w : World K V E)
      → JsMap.get key w.entries ≡ none
      → let (p, w₁) = get key (resolve key (plain v) w).1 in
        value_at (finish_resolve (length w.resolving) a w₁).states p ≡ some v
  resolve-get-finish key v a w absent =
      let r = resolve_then_get key v a w absent in
      rw (r.1) (ap (value_of (receive key v a w).states) (r.3))

  finish_resolve-promises :
      (i : ℕ) (a : Awaited V E) (w : World K V E) → (finish_resolve i a w).promises ≡ w.promises
  unfolding finish_resolve
  finish_resolve-promises i a w = ground arith

  -- The key has the promise that is made for the value.
  pub receive-promise :
      (key : K) (v : V) (a : Awaited V E) (w : World K V E)
      → JsMap.get key w.entries ≡ none
      → JsMap.get key (receive key v a w).promises ≡ some w.fresh
  receive-promise key v a w absent =
      ap (JsMap.get key) (
        finish_resolve-promises (length w.resolving) a (resolve key (plain v) w).1
        ∙ ap (λ t. t.1.promises) (resolve-inserted_with key (plain v) w absent)
        ∙ (set_timeout-same key (inserted_with key (plain v) w)).0)
      ∙ ground (arith, JsMap.get-set key key w.fresh w.promises, beq_refl key)
