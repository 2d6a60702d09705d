-- ===== src/JsMap.antt =====
-- The `Map` of the language, in the order of insertion: `get`, `has`, `set` and `delete`, for keys
-- with a decidable equality. It models no source file; src/containers/promise_map.ts,
-- src/query_parser.ts and src/uri.ts use it.
use node_celery_ts.Prelude.{
  ◌≡◌, ◌↔◌, refl, Bool, true, if◌then◌else◌, Option, none, some, List, [], ◌∷◌, is_some, arith,
}

pub record Eq (K : Type 0) : Type 0 where
  pub beq : K → K → Bool
  pub beq_iff : (a b : K) → (beq a b ≡ true) ↔ (a ≡ b)

module _ {K V : Type 0} ⦃e : Eq K⦄ where
  unfoldable pub get : K → List (K × V) → Option V
  get k [] = none
  get k ((j, v) ∷ m) = if e.beq j k then some v else get k m

  unfoldable pub has : K → List (K × V) → Bool
  unfolding get
  has k m = is_some (get k m)

  unfoldable pub set : K → V → List (K × V) → List (K × V)
  set k v [] = (k, v) ∷ []
  set k v ((j, w) ∷ m) = if e.beq j k then (j, v) ∷ m else (j, w) ∷ set k v m

  unfoldable pub delete : K → List (K × V) → List (K × V)
  delete k [] = []
  delete k ((j, w) ∷ m) = if e.beq j k then delete k m else (j, w) ∷ delete k m

  pub get-set :
      (k j : K) (v : V) (m : List (K × V))
      → get j (set k v m) ≡ (if e.beq k j then some v else get j m)
  unfolding get set
  get-set k j v [] = refl
  get-set k j v ((i, w) ∷ m) =
      ground (arith, e.beq_iff i k, e.beq_iff i j, e.beq_iff k j, get-set k j v m)

  pub get-delete :
      (k j : K) (m : List (K × V)) → get j (delete k m) ≡ (if e.beq k j then none else get j m)
  unfolding get delete
  get-delete k j [] = ground arith
  get-delete k j ((i, w) ∷ m) =
      ground (arith, e.beq_iff i k, e.beq_iff i j, e.beq_iff k j, get-delete k j m)

  pub has-get : (k : K) (m : List (K × V)) → has k m ≡ is_some (get k m)
  unfolding has
  has-get k m = refl

pub beq_refl : {K : Type 0} ⦃e : Eq K⦄ (k : K) → e.beq k k ≡ true
beq_refl ⦃e⦄ k = (e.beq_iff k k).1 refl

pub get-nil : {K V : Type 0} ⦃e : Eq K⦄ (k : K) → get {V = V} k [] ≡ none
unfolding get
get-nil k = refl

pub get-cons :
    {K V : Type 0} ⦃e : Eq K⦄ (k j : K) (v : V) (m : List (K × V))
    → get k ((j, v) ∷ m) ≡ (if e.beq j k then some v else get k m)
unfolding get
get-cons k j v m = refl
