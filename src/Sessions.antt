-- ===== src/Sessions.antt =====
-- What src/redis/backend.ts, src/amqp/backend.ts and src/amqp/broker.ts have in common: the clients
-- are resources of a pool, commands are sent over clients, and results wait in a map, which the
-- broker leaves empty.
use node_celery_ts.Prelude.{
  ℕ, ◌≤◌, ◌≡◌, refl, ap, not, ◌&&◌, ◌∙◌, subst, true, List, [], ◌∷◌, ◌++◌, length, map, arith, ◌⊎◌,
  inl, inr, Option, All,
}
use node_celery_ts.Deque.{Deque}
use node_celery_ts.JsMap.{Eq}
use node_celery_ts.PromiseMap
use node_celery_ts.PromiseMap.{new_map}
use node_celery_ts.PromiseMap.Linked.{IsLinked}
use node_celery_ts.PromiseMap.History.{Event, step, run}
use node_celery_ts.PromiseMap.Timed.{IsTimed}
use node_celery_ts.PromiseMap.Firing.{Safe, is_clear, never_clears, run-Safe, new_map-Safe}
use node_celery_ts.ResourcePool
use node_celery_ts.ResourcePool.{Resource, new_world, start_get, deliver}
use node_celery_ts.ResourcePool.Set
use node_celery_ts.ResourcePool.Counting.{has-add, has-count}
use node_celery_ts.ResourcePool.Steps.{occurrences, Reach, here, next, gets, delivers}
use node_celery_ts.ResourcePool.Invariant.{Inv, Step-Inv, Reach-Inv, new_world-Inv}
use node_celery_ts.ResourcePool.Owners.{
  distinct, length-owned, Reach-occurrences, Reach-max_resources, start_get-max_resources,
}

-- The clients that commands went to.
abbrev pub spoken : {C : Type 0} → List (Resource × C) → List Resource
spoken = map (λ t. t.0)

pub has-spoken_append :
    {C : Type 0} (a : Resource) (sent more : List (Resource × C))
    → Set.has a (spoken (sent ++ more)) ≡ true
    → (Set.has a (spoken sent) ≡ true) ⊎ (Set.has a (spoken more) ≡ true)
has-spoken_append a [] more h = inr h
has-spoken_append a ((x, y) ∷ sent) more h = ground (arith, has-spoken_append a sent more)

All-members : (P : ℕ → Type 0) (xs : List ℕ) → ((a : ℕ) → Set.has a xs ≡ true → P a) → All P xs
All-members P [] h = tt
All-members P (x ∷ xs) h = (h x (ground arith), All-members P xs (λ a m. h a (ground arith)))

pub only-speaks :
    {C : Type 0} (r : Resource) (cs : List C) (a : Resource)
    → Set.has a (spoken (map (λ c. (r, c)) cs)) ≡ true
    → a ≡ r
only-speaks r [] a h = cc
only-speaks r (c ∷ cs) a h = ground (arith, only-speaks r cs a)

module _ (K V E F C : Type 0) (D : Deque ℕ) where
  pub record Session : Type 0 where
    pub pool : ResourcePool.World F D
    pub results : PromiseMap.World K V E
    pub sent : List (Resource × C)

module _ {K V E F C : Type 0} {D : Deque ℕ} ⦃e : Eq K⦄ where
  -- A later state: the pool and the map have changed as by their own turns, and the commands that
  -- were sent went to clients that had been spoken to or are in use.
  pub record Extends (s s' : Session K V E F C D) : Type 0 where
    pub pool : Reach D s.pool s'.pool
    pub results :
        (evs : List (Event K V E)) × (never_clears evs ≡ true) × (run s.results evs ≡ s'.results)
    pub speaks :
        (a : Resource)
        → Set.has a (spoken s'.sent) ≡ true
        → (Set.has a (spoken s.sent) ≡ true) ⊎ (Set.has a s'.pool.in_use ≡ true)

  pub same-Extends : (s : Session K V E F C D) → Extends s s
  unfolding run
  same-Extends s = record { pool = here; results = ([], refl, refl); speaks = λ a h. inl h }

  pub pool-Extends :
      (p : ResourcePool.World F D) (s : Session K V E F C D)
      → Reach D s.pool p
      → Extends s (record s { pool = p })
  unfolding run
  pool-Extends p s r = record { pool = r; results = ([], refl, refl); speaks = λ a h. inl h }

  pub results-Extends :
      (ev : Event K V E) (s : Session K V E F C D)
      → not (is_clear ev) ≡ true
      → Extends s (record s { results = step s.results ev })
  unfolding run
  results-Extends ev s h = record {
    pool = here;
    results = (ev ∷ [], ap (λ b. b && true) h, refl);
    speaks = λ a h. inl h;
  }

  -- Commands to a client that has been spoken to, or to the one that is delivered.
  pub sent-Extends :
      (r : Resource) (more : List (Resource × C)) (s : Session K V E F C D)
      → ((a : Resource) → Set.has a (spoken more) ≡ true → a ≡ r)
      → Set.has r (spoken s.sent) ≡ true
      → Extends s (record s { sent = s.sent ++ more })
  unfolding run
  sent-Extends r more s only h = record {
    pool = here;
    results = ([], refl, refl);
    speaks = λ a h'. ground (arith, has-spoken_append a s.sent more h', only a);
  }

  -- Commands to a client in use.
  pub used-Extends :
      (r : Resource) (more : List (Resource × C)) (s : Session K V E F C D)
      → ((a : Resource) → Set.has a (spoken more) ≡ true → a ≡ r)
      → Set.has r s.pool.in_use ≡ true
      → Extends s (record s { sent = s.sent ++ more })
  unfolding run
  used-Extends r more s only h = record {
    pool = here;
    results = ([], refl, refl);
    speaks = λ a h'. ground (arith, has-spoken_append a s.sent more h', only a);
  }

  pub delivered-Extends :
      (r : Resource) (more : List (Resource × C)) (s : Session K V E F C D)
      → ((a : Resource) → Set.has a (spoken more) ≡ true → a ≡ r)
      → Set.has r s.pool.granted ≡ true
      → Extends s (record s { pool = deliver F D r s.pool; sent = s.sent ++ more })
  unfolding run deliver
  delivered-Extends r more s only h = record {
    pool = next here (delivers r h);
    results = ([], refl, refl);
    speaks =
        λ a h'. ground (arith, has-spoken_append a s.sent more h', only a, has-add r s.pool.in_use);
  }

  -- The pool keeps its invariant and its limit, the map keeps its two maps together, and the pool
  -- owns every client that a command went to.
  pub record IsKept (max : ℕ) (s : Session K V E F C D) : Type 0 where
    pub pool : Inv D s.pool
    pub limit : s.pool.max_resources ≡ max
    pub results : Safe s.results
    pub owned : (a : Resource) → Set.has a (spoken s.sent) ≡ true → 1 ≤ occurrences D a s.pool

  pub new-IsKept :
      (max : ℕ) (timeout : Option ℕ)
      → IsKept max (record {
        pool = start_get F D (new_world F D max);
        results = new_map timeout;
        sent = [];
      })
  unfolding new_world
  new-IsKept max timeout = record {
    pool = Step-Inv D gets (new_world-Inv D max);
    limit = start_get-max_resources (new_world F D max);
    results = new_map-Safe timeout;
    owned = λ a h. cc;
  }

  pub Extends-IsKept :
      (max : ℕ) (s s' : Session K V E F C D) → Extends s s' → IsKept max s → IsKept max s'
  Extends-IsKept max s s' x k = record {
    pool = Reach-Inv D x.pool k.pool;
    limit = Reach-max_resources x.pool ∙ k.limit;
    results = subst Safe (x.results.2) (run-Safe s.results (x.results.0) (x.results.1) k.results);
    owned = λ a h. ground (
      arith,
      x.speaks a h,
      k.owned a,
      Reach-occurrences a x.pool k.pool,
      has-count a s'.pool.in_use,
    );
  }

  -- The pool keeps its invariant, the map keeps its two maps together, and every timer that may
  -- fire is that of the entry that its key has now. Each client that a command went to is in
  -- exactly one place of the pool, and there are at most `max` of them.
  abbrev pub IsOrderly : ℕ → Session K V E F C D → Type 0
  IsOrderly max s =
      Inv D s.pool
      × IsLinked s.results
      × IsTimed s.results
      × All (λ a. occurrences D a s.pool ≡ 1) (spoken s.sent)
      × (length (distinct (spoken s.sent)) ≤ max)

  pub IsKept-IsOrderly : (max : ℕ) (s : Session K V E F C D) → IsKept max s → IsOrderly max s
  IsKept-IsOrderly max s k = (
    k.pool,
    k.results.linked,
    k.results.timed,
    All-members (λ a. occurrences D a s.pool ≡ 1) (spoken s.sent)
        (λ a h. omega (arith, k.owned a h, k.pool.once a)),
    subst (λ n. length (distinct (spoken s.sent)) ≤ n) k.limit
        (length-owned (spoken s.sent) s.pool k.pool k.owned),
  )
