-- ===== src/PromiseMap/Timers.antt =====
-- Which entry a timer of src/containers/promise_map.ts belongs to.
use node_celery_ts.Prelude.{
  ℕ, ◌≡◌, ◌==◌, refl, sym, ap, ◌∙◌, subst, Bool, true, false, Option, none, some, List, [], ◌∷◌,
  ◌++◌, arith, Bool-cases, inl, inr, if◌then◌else◌,
}
use node_celery_ts.JsMap
use node_celery_ts.JsMap.{Eq, beq_refl}
use node_celery_ts.PromiseMap.{MapData, remove_timer, clear_timer}

abbrev pub timer_of : Option MapData → Option ℕ
timer_of none = none
timer_of (some d) = d.timer

abbrev is_timer : ℕ → Option ℕ → Bool
is_timer t none = false
is_timer t (some u) = t == u

is_timer-some : (t : ℕ) → is_timer t (some t) ≡ true
is_timer-some t = ground arith

module _ {K : Type 0} where
  -- Every timer of the list is that of its key.
  abbrev pub AllBelong : (K → Option ℕ) → List (ℕ × K) → Type 0
  AllBelong timer [] = Unit {0}
  AllBelong timer ((t, k) ∷ ts) = (timer k ≡ some t) × AllBelong timer ts

  AllBelong-same :
      (f g : K → Option ℕ) (ts : List (ℕ × K))
      → ((k : K) (t : ℕ) → f k ≡ some t → g k ≡ some t)
      → AllBelong f ts
      → AllBelong g ts
  AllBelong-same f g [] h all = tt
  AllBelong-same f g ((t, k) ∷ ts) h (b, all) = (h k t b, AllBelong-same f g ts h all)

  AllBelong-append :
      (f : K → Option ℕ) (ts : List (ℕ × K)) (t : ℕ) (k : K)
      → AllBelong f ts
      → f k ≡ some t
      → AllBelong f (ts ++ (t, k) ∷ [])
  AllBelong-append f [] t k all h = (h, tt)
  AllBelong-append f ((s, j) ∷ ts) t k (b, all) h = (b, AllBelong-append f ts t k all h)

  -- Without the timer of a key, the others belong to whatever agrees on the other keys.
  pub AllBelong-remove :
      (f g : K → Option ℕ) (u : ℕ) (ts : List (ℕ × K))
      → ((k : K) (t : ℕ) → (t == u) ≡ false → f k ≡ some t → g k ≡ some t)
      → AllBelong f ts
      → AllBelong g (remove_timer u ts)
  AllBelong-remove f g u [] h all = tt
  AllBelong-remove f g u ((t, k) ∷ ts) h (b, all) =
      elim (Bool-cases (t == u))
        as (λ _. AllBelong g (if t == u then remove_timer u ts else (t, k) ∷ remove_timer u ts)) [
          | inl e ↦
              subst (λ c. AllBelong g (if c then remove_timer u ts else (t, k) ∷ remove_timer u ts))
                (sym e) (AllBelong-remove f g u ts h all)
          | inr e ↦
              subst (λ c. AllBelong g (if c then remove_timer u ts else (t, k) ∷ remove_timer u ts))
                (sym e) (h k t e b, AllBelong-remove f g u ts h all)
        ]

  AllBelong-clear :
      (f g : K → Option ℕ) (o : Option ℕ) (ts : List (ℕ × K))
      → ((k : K) (t : ℕ) → is_timer t o ≡ false → f k ≡ some t → g k ≡ some t)
      → AllBelong f ts
      → AllBelong g (clear_timer o ts)
  AllBelong-clear f g none ts h all = AllBelong-same f g ts (λ k t b. h k t refl b) all
  AllBelong-clear f g (some u) ts h all = AllBelong-remove f g u ts h all

module _ {K : Type 0} ⦃e : Eq K⦄ where
  abbrev pub timer_at : List (K × MapData) → K → Option ℕ
  timer_at entries k = timer_of (JsMap.get k entries)

  -- A timer that is not that of a key belongs to another key.
  belongs_elsewhere :
      (key k : K) (t : ℕ) (entries : List (K × MapData))
      → is_timer t (timer_at entries key) ≡ false
      → timer_at entries k ≡ some t
      → e.beq key k ≡ false
  belongs_elsewhere key k t entries other b = elim (Bool-cases (e.beq key k)) [
    | inr differs ↦ differs
    | inl same ↦
        let refuted : true ≡ false =
          sym (is_timer-some t)
          ∙ sym (ap (is_timer t) (ap (timer_at entries) ((e.beq_iff key k).0 same) ∙ b))
          ∙ other in
        cc
  ]

  -- Writing an entry that keeps the timer of the one before.
  pub set_entry-AllBelong :
      (key : K) (d : MapData) (entries : List (K × MapData)) (ts : List (ℕ × K))
      → timer_at entries key ≡ d.timer
      → AllBelong (timer_at entries) ts
      → AllBelong (timer_at (JsMap.set key d entries)) ts
  set_entry-AllBelong key d entries ts h all =
      AllBelong-same (timer_at entries) (timer_at (JsMap.set key d entries)) ts
        (λ k t b.
          ap timer_of (JsMap.get-set key k d entries) ∙ ground (arith, h, b, e.beq_iff key k))
        all

  -- Starting a timer for an entry, and clearing the one that it had.
  pub restart-AllBelong :
      (key : K) (u : ℕ) (d : MapData) (entries : List (K × MapData)) (ts : List (ℕ × K))
      → JsMap.get key entries ≡ some d
      → AllBelong (timer_at entries) ts
      → AllBelong
          (timer_at (JsMap.set key (record d { timer = some u }) entries))
          (clear_timer d.timer ts ++ (u, key) ∷ [])
  restart-AllBelong key u d entries ts at all =
      let d' : MapData = record d { timer = some u } in
      let g = timer_at (JsMap.set key d' entries) in
      AllBelong-append g (clear_timer d.timer ts) u key
        (AllBelong-clear (timer_at entries) g d.timer ts
          (λ k t other b.
            ap timer_of (JsMap.get-set key k d' entries)
            ∙ ap (λ c. timer_of (if c then some d' else JsMap.get k entries))
                (belongs_elsewhere key k t entries (ap (is_timer t) (ap timer_of at) ∙ other) b)
            ∙ b)
          all)
        (ap timer_of (JsMap.get-set key key d' entries)
          ∙ ap (λ c. timer_of (if c then some d' else JsMap.get key entries)) (beq_refl key))

  pub delete-AllBelong :
      (key : K) (entries : List (K × MapData)) (ts : List (ℕ × K))
      → AllBelong (timer_at entries) ts
      → AllBelong (timer_at (JsMap.delete key entries)) (clear_timer (timer_at entries key) ts)
  delete-AllBelong key entries ts all =
      AllBelong-clear (timer_at entries) (timer_at (JsMap.delete key entries))
        (timer_at entries key) ts
        (λ k t other b.
          ap timer_of (JsMap.get-delete key k entries)
          ∙ ap (λ c. timer_of (if c then none else JsMap.get k entries))
              (belongs_elsewhere key k t entries other b)
          ∙ b)
        all
