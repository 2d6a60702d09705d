-- ===== src/PromiseMap/Rejecting.antt =====
-- `rejectAll` of src/containers/promise_map.ts.
use node_celery_ts.Prelude.{
  ℕ, ◌+◌, ◌≡◌, refl, ap, subst, ◌∙◌, Bool, true, false, Option, none, some, List, [], ◌∷◌, is_some,
  ◌&&◌, arith, Bool-cases, Option-cases, inl, inr,
}
use node_celery_ts.JsMap
use node_celery_ts.JsMap.{Eq, beq_refl}
use node_celery_ts.PromiseMap.{
  World, is_pending_status, rejected, MapData, Reason, unsettled, with_reason, settle_state,
  set_timeout, reject, reject_all, reject_keys,
}
use node_celery_ts.PromiseMap.Branches.{
  set_timeout-entry, set_timeout-same, refused, reject-refused,
}

-- The entries that `rejectAll` rejects: pending ones that do not follow another promise.
abbrev pub waits : Option MapData → Bool
waits none = false
waits (some d) = is_pending_status d.status && is_some d.functions

waits-cases :
    (o : Option MapData)
    → waits o ≡ true
    → (d : MapData) × (p : ℕ) × (o ≡ some d) × (d.functions ≡ some p)
waits-cases none h = cc
waits-cases (some d) h = elim (Option-cases d.functions) [
  | inl un ↦ absurd (ground arith)
  | inr (p, fn) ↦ (d, p, refl, fn)
]

module _ {K V E : Type 0} ⦃e : Eq K⦄ where
  pub reject_keys-skip :
      (key : K) (x : MapData) (rest : List (K × MapData)) (reason : Reason E) (w : World K V E)
      → waits (JsMap.get key w.entries) ≡ false
      → reject_keys ((key, x) ∷ rest) reason w ≡ reject_keys rest reason w
  unfolding reject_keys
  reject_keys-skip key x rest reason w h = ground arith

  pub reject_keys-hit :
      (key : K) (x : MapData) (rest : List (K × MapData)) (reason : Reason E) (w : World K V E)
      → waits (JsMap.get key w.entries) ≡ true
      → let w' = (reject key reason w).1 in
        ((reject_keys ((key, x) ∷ rest) reason w).0 ≡ (reject_keys rest reason w').0 + 1)
        × ((reject_keys ((key, x) ∷ rest) reason w).1 ≡ (reject_keys rest reason w').1)
  unfolding reject_keys
  reject_keys-hit key x rest reason w h = ground arith

  -- What rejecting a key that somebody waits for comes to.
  record Refused (key : K) (reason : Reason E) (w : World K V E) (p : ℕ) (w' : World K V E)
      : Type 0 where
    here_done : waits (JsMap.get key w'.entries) ≡ false
    others : (k : K) → e.beq key k ≡ false → JsMap.get k w'.entries ≡ JsMap.get k w.entries
    states : w'.states ≡ settle_state p (with_reason reason) w.states
    promises : w'.promises ≡ w.promises

  set_timeout-others :
      (key k : K) (w : World K V E)
      → e.beq key k ≡ false
      → JsMap.get k (set_timeout key w).1.entries ≡ JsMap.get k w.entries
  unfolding set_timeout
  set_timeout-others key k w ne = elim (Option-cases (JsMap.get key w.entries)) [
    | inl absent ↦ ground arith
    | inr (d, at) ↦
        ground (arith, JsMap.get-set key k (record d { timer = some w.next_timer }) w.entries)
  ]

  reject-Refused :
      (key : K) (reason : Reason E) (w : World K V E) (d : MapData) (p : ℕ)
      → JsMap.get key w.entries ≡ some d
      → d.functions ≡ some p
      → Refused key reason w p (reject key reason w).1
  reject-Refused key reason w d p at fn =
      let d' : MapData = record { functions = none; status = rejected; timer = d.timer } in
      let mid = refused key reason w d p in
      let at' : JsMap.get key mid.entries ≡ some d' =
        ground (arith, JsMap.get-set key key d' w.entries, beq_refl key) in
      let entry = set_timeout-entry key d' mid at' in
      let same = set_timeout-same key mid in
      rw (reject-refused key reason w d p at fn) (record {
        here_done = ground (arith, entry);
        others = λ k ne.
            set_timeout-others key k mid ne ∙ ground (arith, JsMap.get-set key k d' w.entries);
        states = same.3;
        promises = same.0;
      })

  -- What `rejectAll` does, over a list of keys.
  pub record AllRefused (l : List (K × MapData)) (reason : Reason E) (w w' : World K V E)
      : Type 0 where
    pub done : (k : K) → is_some (JsMap.get k l) ≡ true → waits (JsMap.get k w'.entries) ≡ false
    pub kept :
        (k : K)
        → waits (JsMap.get k w.entries) ≡ false
        → JsMap.get k w'.entries ≡ JsMap.get k w.entries
    pub promises : w'.promises ≡ w.promises
    pub stays : (p : ℕ) → w.states p ≡ with_reason reason → w'.states p ≡ with_reason reason
    pub refuses :
        (k : K) (d : MapData) (p : ℕ)
        → is_some (JsMap.get k l) ≡ true
        → JsMap.get k w.entries ≡ some d
        → waits (some d) ≡ true
        → d.functions ≡ some p
        → w.states p ≡ unsettled
        → w'.states p ≡ with_reason reason

  nil-AllRefused :
      (reason : Reason E) (w : World K V E) → AllRefused [] reason w (reject_keys [] reason w).1
  unfolding reject_keys
  nil-AllRefused reason w = record {
    done = λ k m. ground (arith, JsMap.get-nil {V = MapData} k);
    kept = λ k h. refl;
    promises = refl;
    stays = λ p s. s;
    refuses = λ k d p m. absurd (ground (arith, JsMap.get-nil {V = MapData} k));
  }

  skip-AllRefused :
      (key : K) (x : MapData) (l : List (K × MapData)) (reason : Reason E) (w w' : World K V E)
      → waits (JsMap.get key w.entries) ≡ false
      → AllRefused l reason w w'
      → AllRefused ((key, x) ∷ l) reason w w'
  skip-AllRefused key x l reason w w' h a = record {
    done = λ k m. ground (arith, JsMap.get-cons k key x l, e.beq_iff key k, a.done k, a.kept key);
    kept = a.kept;
    promises = a.promises;
    stays = a.stays;
    refuses = λ k d p m at wt fn un.
        ground (arith, JsMap.get-cons k key x l, e.beq_iff key k, a.refuses k d p);
  }

  hit-AllRefused :
      (key : K) (x : MapData) (l : List (K × MapData)) (reason : Reason E) (w w₁ w' : World K V E)
      (p : ℕ) (d : MapData)
      → JsMap.get key w.entries ≡ some d
      → d.functions ≡ some p
      → waits (some d) ≡ true
      → Refused key reason w p w₁
      → AllRefused l reason w₁ w'
      → AllRefused ((key, x) ∷ l) reason w w'
  hit-AllRefused key x l reason w w₁ w' p d at fn wt r a = record {
    done = λ k m.
        ground
          (arith, JsMap.get-cons k key x l, e.beq_iff key k, a.done k, a.kept key, r.here_done);
    kept = λ k h. ground (arith, e.beq_iff key k, r.others k, a.kept k);
    promises = a.promises ∙ r.promises;
    stays = λ q s. a.stays q (ground (arith, ap (λ f. f q) r.states));
    refuses = λ k d' q m at' wt' fn' un. ground (
      arith,
      JsMap.get-cons k key x l,
      e.beq_iff key k,
      r.others k,
      ap (λ f. f q) r.states,
      a.stays q,
      a.refuses k d' q,
    );
  }

  reject_keys-AllRefused :
      (l : List (K × MapData)) (reason : Reason E) (w : World K V E)
      → AllRefused l reason w (reject_keys l reason w).1
  reject_keys-AllRefused [] reason w = nil-AllRefused reason w
  reject_keys-AllRefused ((key, x) ∷ l) reason w =
      elim (Bool-cases (waits (JsMap.get key w.entries))) [
        | inr idle ↦
            rw (reject_keys-skip key x l reason w idle)
              (skip-AllRefused key x l reason w _ idle (reject_keys-AllRefused l reason w))
        | inl busy ↦
            let (d, p, at, fn) = waits-cases (JsMap.get key w.entries) busy in
            rw ((reject_keys-hit key x l reason w busy).1) (
              hit-AllRefused key x l reason w (reject key reason w).1 _ p d at fn
                (subst (λ t. waits t ≡ true) at busy) (reject-Refused key reason w d p at fn)
                (reject_keys-AllRefused l reason (reject key reason w).1))
      ]

  -- `rejectAll` rejects every promise that somebody waits for and that follows no other, with the
  -- reason given: afterwards there is none left, the other entries stay as they were, and so does
  -- the promise of every key.
  pub reject_all-AllRefused :
      (reason : Reason E) (w : World K V E)
      → let w' = (reject_all reason w).1 in
        ((k : K) → waits (JsMap.get k w'.entries) ≡ false)
        × ((k : K)
            → waits (JsMap.get k w.entries) ≡ false
            → JsMap.get k w'.entries ≡ JsMap.get k w.entries)
        × (w'.promises ≡ w.promises)
        × ((k : K) (d : MapData) (p : ℕ)
            → JsMap.get k w.entries ≡ some d
            → waits (some d) ≡ true
            → d.functions ≡ some p
            → w.states p ≡ unsettled
            → w'.states p ≡ with_reason reason)
  unfolding reject_all
  reject_all-AllRefused reason w =
      let a = reject_keys-AllRefused w.entries reason w in
      (
        λ k. elim (Option-cases (JsMap.get k w.entries)) [
          | inl absent ↦ ground (arith, a.kept k)
          | inr (d, at) ↦ a.done k (ap is_some at)
        ],
        a.kept,
        a.promises,
        λ k d p at wt fn un. a.refuses k d p (ap is_some at) at wt fn un,
      )
