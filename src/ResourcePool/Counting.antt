-- ===== src/ResourcePool/Counting.antt =====
-- How often an object stands in a list, for the places of src/containers/resource_pool.ts.
use node_celery_ts.Prelude.{
  ◌||◌, ℕ, suc, ◌+◌, ◌≤◌, ◌==◌, if◌then◌else◌, ◌≡◌, refl, true, false, List, [], ◌∷◌, ◌++◌, length,
  arith,
}
use node_celery_ts.ResourcePool.Set

abbrev pub count : ℕ → List ℕ → ℕ
count r [] = 0
count r (x ∷ xs) = (if r == x then 1 else 0) + count r xs

pub count-append : (r : ℕ) (xs ys : List ℕ) → count r (xs ++ ys) ≡ count r xs + count r ys
count-append r [] ys = omega arith
count-append r (x ∷ xs) ys = omega (arith, count-append r xs ys)

pub count-delete :
    (a r : ℕ) (xs : List ℕ)
    → Set.has r xs ≡ true
    → count a (Set.delete r xs) + (if a == r then 1 else 0) ≡ count a xs
count-delete a r [] h = cc
count-delete a r (x ∷ xs) h = ground (arith, count-delete a r xs)

pub length-delete :
    (r : ℕ) (xs : List ℕ) → Set.has r xs ≡ true → suc (length (Set.delete r xs)) ≡ length xs
length-delete r [] h = cc
length-delete r (x ∷ xs) h = ground (arith, length-delete r xs)

pub has-count : (r : ℕ) (xs : List ℕ) → Set.has r xs ≡ true → 1 ≤ count r xs
has-count r [] h = cc
has-count r (x ∷ xs) h = ground (arith, has-count r xs)

pub count-has : (r : ℕ) (xs : List ℕ) → count r xs ≡ 0 → Set.has r xs ≡ false
count-has r [] h = refl
count-has r (x ∷ xs) h = ground (arith, count-has r xs)

pub count-has_some : (r : ℕ) (xs : List ℕ) → 1 ≤ count r xs → Set.has r xs ≡ true
count-has_some r [] h = ground arith
count-has_some r (x ∷ xs) h = ground (arith, count-has_some r xs)

pub has-append : (r : ℕ) (xs ys : List ℕ) → Set.has r (xs ++ ys) ≡ (Set.has r xs || Set.has r ys)
has-append r [] ys = refl
has-append r (x ∷ xs) ys = ground (arith, has-append r xs ys)

pub has-add : (r : ℕ) (xs : List ℕ) → Set.has r (Set.add r xs) ≡ true
has-add r xs = ground (arith, has-append r xs (r ∷ []))
