-- ===== src/ResourcePool/Invariant.antt =====
-- What holds of a pool of src/containers/resource_pool.ts after any sequence of turns.
use node_celery_ts.Prelude.{
  ℕ, ◌+◌, ◌==◌, ltb, ◌<◌, ◌≤◌, ◌≡◌, refl, subst, ◌⊎◌, inl, inr, true, false, some, List, [], ◌∷◌,
  length, length-append, arith, Bool-cases,
}
use node_celery_ts.Deque.{Deque}
use node_celery_ts.PromiseQueue
use node_celery_ts.PromiseQueue.{PromiseQueue, resolve}
use node_celery_ts.PromiseQueue.Settling.{
  IsValid, settle_one-SettledFirst, push-IsValid, new_queue-IsValid,
}
use node_celery_ts.ResourcePool.Set
use node_celery_ts.ResourcePool.Counting.{
  count-append, count-delete, length-delete, has-count, count-has,
}
use node_celery_ts.ResourcePool.{
  Resource, World, start_get, deliver, created, create_failed, return_resource, start_destroy_all,
  finish_destroy_all, new_world,
}
use node_celery_ts.ResourcePool.Steps.{
  occurrences, Step, gets, delivers, creates, create_fails, returns, starts_destroy_all,
  finishes_destroy_all, Reach, here, next, start_get-unused, start_get-room, start_get-full,
  handed_over, kept, return_resource-handed_over, return_resource-kept, return_resource-foreign,
}

pub List-cases : {A : Type 0} (xs : List A) → (xs ≡ []) ⊎ ((x : A) × (r : List A) × (xs ≡ x ∷ r))
List-cases [] = inl refl
List-cases (x ∷ xs) = inr (x, xs, refl)

module _ {E : Type 0} (D : Deque ℕ) where
  pub record Inv (w : World E D) : Type 0 where
    -- Every slot of the pool is accounted for.
    pub counted :
        w.resource_count
        ≡ length (D.view w.unused)
          + length w.in_use
          + length w.granted
          + w.creating
          + w.failed
          + length w.destroyed
    pub capped : w.resource_count ≤ w.max_resources
    -- No resource is in two places, or twice in one.
    pub once : (r : Resource) → occurrences D r w ≤ 1
    -- Nobody waits while a resource is unused, or while another may be created.
    pub fair : (D.view w.unused ≡ []) ⊎ (D.view w.waiting.queue ≡ [])
    pub full : (w.max_resources ≤ w.resource_count) ⊎ (D.view w.waiting.queue ≡ [])
    pub valid : IsValid D w.waiting

  pub new_world-Inv : (max : ℕ) → Inv (new_world E D max)
  unfolding new_world PromiseQueue.new_queue
  new_world-Inv max = record {
    counted = ground (arith, D.view-empty);
    capped = omega arith;
    once = λ r. ground (arith, D.view-empty);
    fair = inl D.view-empty;
    full = inr D.view-empty;
    valid = new_queue-IsValid D;
  }

  start_get-Inv : (w : World E D) → Inv w → Inv (start_get E D w)
  start_get-Inv w i = elim (List-cases (D.view w.unused)) [
    | inr (r, rs, e) ↦ rw (start_get-unused D w r rs e) (record {
      counted =
          ground (arith, i.counted, D.shift-rest w.unused r rs e, length-append w.granted (r ∷ []));
      capped = i.capped;
      once = λ a.
          ground (arith, i.once a, D.shift-rest w.unused r rs e, count-append a w.granted (r ∷ []));
      fair = ground (arith, i.fair);
      full = i.full;
      valid = i.valid;
    })
    | inl e ↦ elim (Bool-cases (ltb w.resource_count w.max_resources)) [
      | inl room ↦ rw (start_get-room D w e (ground arith)) (record {
        counted = omega (arith, i.counted);
        capped = ground arith;
        once = i.once;
        fair = inl e;
        full = ground (arith, i.full);
        valid = i.valid;
      })
      | inr none_left ↦ rw (start_get-full D w e (ground arith)) (record {
        counted = i.counted;
        capped = i.capped;
        once = i.once;
        fair = inl e;
        full = inl (ground arith);
        valid = (push-IsValid D w.waiting i.valid).0;
      })
    ]
  ]

  pub deliver-Inv :
      (r : Resource) (w : World E D) → Set.has r w.granted ≡ true → Inv w → Inv (deliver E D r w)
  unfolding deliver
  deliver-Inv r w h i =
      let new : Set.has r w.in_use ≡ false =
        count-has r w.in_use (omega (arith, i.once r, has-count r w.granted h)) in
      record {
        counted =
            ground (arith, i.counted, length-append w.in_use (r ∷ []), length-delete r w.granted h);
        capped = i.capped;
        once = λ a.
            ground
              (arith, i.once a, count-append a w.in_use (r ∷ []), count-delete a r w.granted h);
        fair = i.fair;
        full = i.full;
        valid = i.valid;
      }

  created-Inv :
      (r : Resource) (w : World E D)
      → 0 < w.creating
      → occurrences D r w ≡ 0
      → Inv w
      → Inv (created E D r w)
  unfolding created
  created-Inv r w h new i = record {
    counted = omega (arith, i.counted, length-append {0} w.granted (r ∷ []));
    capped = i.capped;
    once = λ a. ground (arith, i.once a, count-append a w.granted (r ∷ []));
    fair = i.fair;
    full = i.full;
    valid = i.valid;
  }

  create_failed-Inv : (w : World E D) → 0 < w.creating → Inv w → Inv (create_failed E D w)
  unfolding create_failed
  create_failed-Inv w h i = record {
    counted = omega (arith, i.counted);
    capped = i.capped;
    once = i.once;
    fair = i.fair;
    full = i.full;
    valid = i.valid;
  }

  handed_over-Inv :
      (r : Resource) (w : World E D) (p : ℕ) (ps : List ℕ)
      → Set.has r w.in_use ≡ true
      → D.view w.waiting.queue ≡ p ∷ ps
      → Inv w
      → Inv (handed_over D r w)
  handed_over-Inv r w p ps h e i = record {
    counted =
        omega (arith, i.counted, length-append {0} w.granted (r ∷ []), length-delete r w.in_use h);
    capped = i.capped;
    once = λ a.
        ground (arith, i.once a, count-append a w.granted (r ∷ []), count-delete a r w.in_use h);
    fair = ground (arith, i.fair);
    full = ground (arith, i.full);
    valid = (settle_one-SettledFirst D (resolve r) w.waiting p ps i.valid e).valid;
  }

  kept-Inv :
      (r : Resource) (w : World E D)
      → Set.has r w.in_use ≡ true
      → D.view w.waiting.queue ≡ []
      → Inv w
      → Inv (kept D r w)
  kept-Inv r w h e i = record {
    counted = ground (
      arith,
      i.counted,
      D.view-push r w.unused,
      length-append (D.view w.unused) (r ∷ []),
      length-delete r w.in_use h,
    );
    capped = i.capped;
    once = λ a. ground (
      arith,
      i.once a,
      D.view-push r w.unused,
      count-append a (D.view w.unused) (r ∷ []),
      count-delete a r w.in_use h,
    );
    fair = inr e;
    full = i.full;
    valid = i.valid;
  }

  return_resource-Inv :
      (r : Resource) (w w' : World E D) → return_resource E D r w ≡ some w' → Inv w → Inv w'
  return_resource-Inv r w w' run i = elim (Bool-cases (Set.has r w.in_use)) [
    | inr foreign ↦ cc (return_resource-foreign D r w foreign)
    | inl owned ↦ elim (List-cases (D.view w.waiting.queue)) [
      | inl e ↦
          let same : kept D r w ≡ w' = cc (return_resource-kept D r w owned e) in
          subst Inv same (kept-Inv r w owned e i)
      | inr (p, ps, e) ↦
          let same : handed_over D r w ≡ w' =
            cc (return_resource-handed_over D r w p ps owned i.valid e) in
          subst Inv same (handed_over-Inv r w p ps owned e i)
    ]
  ]

  start_destroy_all-Inv : (w : World E D) → Inv w → Inv (start_destroy_all E D w)
  unfolding start_destroy_all
  start_destroy_all-Inv w i = elim (Bool-cases (length w.in_use == 0)) [
    | inl none_used ↦ rw none_used (record {
      counted = i.counted;
      capped = i.capped;
      once = i.once;
      fair = i.fair;
      full = i.full;
      valid = i.valid;
    })
    | inr used ↦ rw used (record {
      counted = i.counted;
      capped = i.capped;
      once = i.once;
      fair = i.fair;
      full = i.full;
      valid = i.valid;
    })
  ]

  finish_destroy_all-Inv : (w : World E D) → Inv w → Inv (finish_destroy_all E D (λ r. r) w).1
  unfolding finish_destroy_all
  finish_destroy_all-Inv w i = record {
    counted = ground (arith, i.counted, D.view-empty, length-append w.destroyed (D.view w.unused));
    capped = i.capped;
    once =
        λ a. ground (arith, i.once a, D.view-empty, count-append a w.destroyed (D.view w.unused));
    fair = inl D.view-empty;
    full = i.full;
    valid = i.valid;
  }

  -- Every turn keeps the invariant.
  pub Step-Inv : {w w' : World E D} → Step D w w' → Inv w → Inv w'
  Step-Inv {w} gets i = start_get-Inv w i
  Step-Inv {w} (delivers r h) i = deliver-Inv r w h i
  Step-Inv {w} (creates r h new) i = created-Inv r w h new i
  Step-Inv {w} (create_fails h) i = create_failed-Inv w h i
  Step-Inv {w} (returns r {w'} run) i = return_resource-Inv r w w' run i
  Step-Inv {w} starts_destroy_all i = start_destroy_all-Inv w i
  Step-Inv {w} (finishes_destroy_all h) i = finish_destroy_all-Inv w i

  pub Reach-Inv : {w w' : World E D} → Reach D w w' → Inv w → Inv w'
  Reach-Inv here i = i
  Reach-Inv (next r s) i = Step-Inv s (Reach-Inv r i)

  -- After any sequence of turns from an empty pool the invariant holds: every slot is accounted
  -- for, there are at most `max_resources`, no resource is in two places, and nobody waits while a
  -- resource is unused or could be created.
  pub reachable-Inv : (max : ℕ) (w : World E D) → Reach D (new_world E D max) w → Inv w
  reachable-Inv max w r = Reach-Inv r (new_world-Inv max)
