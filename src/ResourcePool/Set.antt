-- ===== src/ResourcePool/Set.antt =====
-- The `Set` of objects that src/containers/resource_pool.ts keeps: `has`, `add` and `delete`, on a
-- list in the order of insertion. An object is a number.
use node_celery_ts.Prelude.{ℕ, ◌==◌, if◌then◌else◌, Bool, false, List, [], ◌∷◌, ◌++◌, ◌||◌}

abbrev pub has : ℕ → List ℕ → Bool
has r [] = false
has r (x ∷ xs) = (r == x) || has r xs

abbrev pub add : ℕ → List ℕ → List ℕ
add r xs = if has r xs then xs else xs ++ r ∷ []

abbrev pub delete : ℕ → List ℕ → List ℕ
delete r [] = []
delete r (x ∷ xs) = if r == x then xs else x ∷ delete r xs
