-- ===== src/Tests/Lists.antt =====
-- src/containers/list.ts at concrete inputs.
use node_celery_ts.Prelude.{ℕ, ◌≡◌, refl, some, none, [], ◌∷◌, arith, List, ◌>>=◌}
use mathlib.Core.Option
use node_celery_ts.LinkedList.{LinkedList, new_list, iterate, push, pop, unshift}
use node_celery_ts.LinkedList.Sequence.{
  Represents, from-Represents, new_list-Represents, iterate-Represents,
}
use node_celery_ts.LinkedList.Refinement.{
  Call, pushes, unshifts, pops, shifts, new_length, removed, run, specify_all, run-specify_all,
}

abbrev calls : List (Call ℕ)
calls = pushes (1 ∷ 2 ∷ []) ∷ unshifts (7 ∷ 8 ∷ []) ∷ pops ∷ shifts ∷ shifts ∷ pops ∷ pops ∷ []

replies :
    Option.map (λ r. r.0) (run calls new_list)
    ≡ some (
        new_length 2
        ∷ new_length 4
        ∷ removed (some 2)
        ∷ removed (some 7)
        ∷ removed (some 8)
        ∷ removed (some 1)
        ∷ removed none
        ∷ [])
unfolding run new_list
replies = refl

iterated :
    (do
      (_, l) ← push {A = ℕ} (1 ∷ 2 ∷ 3 ∷ []) new_list
      (_, l) ← unshift (9 ∷ []) l
      (_, l) ← pop l
      iterate 5 l)
    ≡ some (9 ∷ 1 ∷ 2 ∷ [])
unfolding push unshift pop iterate new_list
iterated = refl

run-specify_all_example :
    (l' : LinkedList ℕ) × (run calls new_list ≡ some ((specify_all calls []).0, l'))
    × Represents l' (specify_all calls []).1
run-specify_all_example = run-specify_all calls new_list [] new_list-Represents

abbrev three : List ℕ
three = 4 ∷ 5 ∷ 6 ∷ []

iterate-Represents_example : iterate 3 (from-Represents three).0 ≡ some three
iterate-Represents_example =
    iterate-Represents 3 (from-Represents three).0 three (from-Represents three).2 (omega arith)
