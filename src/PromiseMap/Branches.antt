-- ===== src/PromiseMap/Branches.antt =====
-- The branches of `resolve` and `reject` of src/containers/promise_map.ts, as equations: the state
-- in which each calls `setTimeout`.
use node_celery_ts.Prelude.{ℕ, ◌+◌, ◌≡◌, true, false, Option, none, some, [], ◌∷◌, ◌++◌, arith}
use node_celery_ts.JsMap
use node_celery_ts.JsMap.{Eq, beq_refl}
use node_celery_ts.PromiseMap.{
  reject, resolve, World, pending, rejected, MapData, Input, Reason, unsettled, follows,
  with_reason, settle_state, put_state, set_timeout,
}

-- The entry of a key after `setTimeout`.
abbrev pub timed : Option ℕ → ℕ → MapData → MapData
timed none t d = d
timed (some _) t d = record d { timer = some t }

module _ {K V E : Type 0} ⦃e : Eq K⦄ where
  pub set_timeout-entry :
      (key : K) (d : MapData) (w : World K V E)
      → JsMap.get key w.entries ≡ some d
      → JsMap.get key (set_timeout key w).1.entries ≡ some (timed w.timeout w.next_timer d)
  unfolding set_timeout
  set_timeout-entry key d w at = ground (
    arith,
    JsMap.get-set key key (record d { timer = some w.next_timer }) w.entries,
    beq_refl key,
  )

  pub set_timeout-same :
      (key : K) (w : World K V E)
      → let w' = (set_timeout key w).1 in
        (w'.promises ≡ w.promises)
        × (w'.resolving ≡ w.resolving)
        × (w'.fresh ≡ w.fresh)
        × (w'.states ≡ w.states)
  unfolding set_timeout
  set_timeout-same key w = (ground arith, ground arith, ground arith, ground arith)

  -- The state in which `resolve` calls `setTimeout`, for a key that somebody waits for.
  abbrev pub following : K → Input V → World K V E → MapData → ℕ → World K V E
  following key input w d p = record w {
    states = settle_state p (follows w.fresh) (put_state w.fresh unsettled w.states);
    fresh = w.fresh + 1;
    resolving = w.resolving ++ record { key = key; input = input; result = w.fresh } ∷ [];
    entries =
        JsMap.set key (record { functions = none; status = pending; timer = d.timer }) w.entries;
  }

  pub resolve-following :
      (key : K) (input : Input V) (w : World K V E) (d : MapData) (p : ℕ)
      → JsMap.get key w.entries ≡ some d
      → d.functions ≡ some p
      → resolve key input w ≡ (false, (set_timeout key (following key input w d p)).1)
  unfolding resolve
  resolve-following key input w d p at fn = ground arith

  -- The state in which `resolve` calls `setTimeout`, for a key with no entry.
  abbrev pub inserted_with : K → Input V → World K V E → World K V E
  inserted_with key input w = record w {
    states = put_state w.fresh unsettled w.states;
    fresh = w.fresh + 1;
    resolving = w.resolving ++ record { key = key; input = input; result = w.fresh } ∷ [];
    promises = JsMap.set key w.fresh w.promises;
    entries = JsMap.set key (record { functions = none; status = pending; timer = none }) w.entries;
  }

  pub resolve-inserted_with :
      (key : K) (input : Input V) (w : World K V E)
      → JsMap.get key w.entries ≡ none
      → resolve key input w ≡ (true, (set_timeout key (inserted_with key input w)).1)
  unfolding resolve
  resolve-inserted_with key input w absent = ground arith

  -- The same for a key whose entry holds no functions.
  abbrev pub replaced_with : K → Input V → World K V E → MapData → World K V E
  replaced_with key input w d = record w {
    states = put_state w.fresh unsettled w.states;
    fresh = w.fresh + 1;
    resolving = w.resolving ++ record { key = key; input = input; result = w.fresh } ∷ [];
    promises = JsMap.set key w.fresh w.promises;
    entries =
        JsMap.set key (record { functions = none; status = pending; timer = d.timer }) w.entries;
  }

  pub resolve-replaced_with :
      (key : K) (input : Input V) (w : World K V E) (d : MapData)
      → JsMap.get key w.entries ≡ some d
      → d.functions ≡ none
      → resolve key input w ≡ (false, (set_timeout key (replaced_with key input w d)).1)
  unfolding resolve
  resolve-replaced_with key input w d at un = ground arith

  -- The states in which `reject` calls `setTimeout`: for a key that somebody waits for, for one
  -- with another entry, and for one with none.
  abbrev pub refused : K → Reason E → World K V E → MapData → ℕ → World K V E
  refused key reason w d p = record w {
    states = settle_state p (with_reason reason) w.states;
    entries =
        JsMap.set key (record { functions = none; status = rejected; timer = d.timer }) w.entries;
  }

  pub reject-refused :
      (key : K) (reason : Reason E) (w : World K V E) (d : MapData) (p : ℕ)
      → JsMap.get key w.entries ≡ some d
      → d.functions ≡ some p
      → reject key reason w ≡ (false, (set_timeout key (refused key reason w d p)).1)
  unfolding reject
  reject-refused key reason w d p at fn = ground arith

  abbrev pub refused_anew : K → Reason E → World K V E → Option ℕ → World K V E
  refused_anew key reason w timer = record w {
    states = put_state w.fresh (with_reason reason) w.states;
    fresh = w.fresh + 1;
    promises = JsMap.set key w.fresh w.promises;
    entries =
        JsMap.set key (record { functions = none; status = rejected; timer = timer }) w.entries;
  }

  pub reject-replaced :
      (key : K) (reason : Reason E) (w : World K V E) (d : MapData)
      → JsMap.get key w.entries ≡ some d
      → d.functions ≡ none
      → reject key reason w ≡ (false, (set_timeout key (refused_anew key reason w d.timer)).1)
  unfolding reject
  reject-replaced key reason w d at un = ground arith

  pub reject-inserted :
      (key : K) (reason : Reason E) (w : World K V E)
      → JsMap.get key w.entries ≡ none
      → reject key reason w ≡ (true, (set_timeout key (refused_anew key reason w none)).1)
  unfolding reject
  reject-inserted key reason w absent = ground arith
