-- ===== src/LinkedList/Refinement.antt =====
-- Programs that call the methods of src/containers/list.ts, run on the object and on a sequence.
use node_celery_ts.Prelude.{
  ℕ, ◌+◌, ◌≡◌, refl, none, some, List, [], ◌∷◌, ◌++◌, length, Option, ◌>>=◌,
}
use node_celery_ts.LinkedList.{LinkedList, push, unshift, pop, shift}
use node_celery_ts.LinkedList.Sequence.{
  Represents, Removes, uncons, unsnoc, push-Represents, unshift-Represents, pop-Removes,
  shift-Removes,
}

-- A call of a method, and what it returns.
pub data Call (A : Type 0) : Type 0 where
  pushes : List A → Call A
  unshifts : List A → Call A
  pops : Call A
  shifts : Call A

pub data Reply (A : Type 0) : Type 0 where
  new_length : ℕ → Reply A
  removed : Option A → Reply A

module _ {A : Type 0} where
  pub call : Call A → LinkedList A → Option (Reply A × LinkedList A)
  unfolding push unshift pop shift
  call (pushes es) l = do (n, l') ← push es l; some (new_length n, l')
  call (unshifts es) l = do (n, l') ← unshift es l; some (new_length n, l')
  call pops l = do (x, l') ← pop l; some (removed x, l')
  call shifts l = do (x, l') ← shift l; some (removed x, l')

  unfoldable pub run : List (Call A) → LinkedList A → Option (List (Reply A) × LinkedList A)
  unfolding call
  run [] l = some ([], l)
  run (c ∷ cs) l = do (r, l₁) ← call c l; (rs, l₂) ← run cs l₁; some (r ∷ rs, l₂)

  -- The same calls on a sequence.
  abbrev after_removal : List A → Option (A × List A) → Reply A × List A
  after_removal xs none = (removed none, xs)
  after_removal xs (some (x, rest)) = (removed (some x), rest)

  pub specify : Call A → List A → Reply A × List A
  specify (pushes es) xs = (new_length (length xs + length es), xs ++ es)
  specify (unshifts es) xs = (new_length (length es + length xs), es ++ xs)
  specify pops xs = after_removal xs (unsnoc xs)
  specify shifts xs = after_removal xs (uncons xs)

  pub specify_all : List (Call A) → List A → List (Reply A) × List A
  unfolding specify
  specify_all [] xs = ([], xs)
  specify_all (c ∷ cs) xs =
      let (r, ys) = specify c xs in let (rs, zs) = specify_all cs ys in (r ∷ rs, zs)

  -- One call keeps the object and the sequence together, and gives the same reply.
  abbrev Simulates : Option (Reply A × LinkedList A) → Reply A × List A → Type 0
  Simulates m (r, xs) = (l' : LinkedList A) × (m ≡ some (r, l')) × Represents l' xs

  removal-Simulates :
      (m : Option (Option A × LinkedList A)) (l : LinkedList A) (xs : List A)
      (o : Option (A × List A))
      → Represents l xs
      → Removes m l o
      → Simulates (m >>= λ (x, l'). some (removed x, l')) (after_removal xs o)
  removal-Simulates m l xs none r e = (l, rw e, r)
  removal-Simulates m l xs (some (x, rest)) r (l', e, r') = (l', rw e, r')

  call-Simulates :
      (c : Call A) (l : LinkedList A) (xs : List A)
      → Represents l xs
      → Simulates (call c l) (specify c xs)
  unfolding call specify
  call-Simulates (pushes es) l xs r = let (l', e, r') = push-Represents es l xs r in (l', rw e, r')
  call-Simulates (unshifts es) l xs r =
      let (l', e, r') = unshift-Represents es l xs r in (l', rw e, r')
  call-Simulates pops l xs r = removal-Simulates (pop l) l xs (unsnoc xs) r (pop-Removes l xs r)
  call-Simulates shifts l xs r =
      removal-Simulates (shift l) l xs (uncons xs) r (shift-Removes l xs r)

  -- Any sequence of calls on an object that represents a sequence runs without a fault, gives the
  -- replies that the calls on the sequence give, and leaves an object that represents what they
  -- leave.
  pub run-specify_all :
      (cs : List (Call A)) (l : LinkedList A) (xs : List A)
      → Represents l xs
      → (l' : LinkedList A) × (run cs l ≡ some ((specify_all cs xs).0, l'))
        × Represents l' (specify_all cs xs).1
  unfolding run specify_all
  run-specify_all [] l xs r = (l, refl, r)
  run-specify_all (c ∷ cs) l xs r =
      let (l₁, e₁, r₁) = call-Simulates c l xs r in
      let (l₂, e₂, r₂) = run-specify_all cs l₁ (specify c xs).1 r₁ in (l₂, rw (e₁, e₂), r₂)
