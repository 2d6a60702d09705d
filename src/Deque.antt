-- ===== src/Deque.antt =====
-- What src/containers/promise_queue.ts and src/containers/resource_pool.ts rely on of the class
-- `List` of src/containers/list.ts, and the proof that the linked list provides it.
use node_celery_ts.Prelude.{◌+◌, ◌≡◌, refl, ap, none, some, List, [], ◌∷◌, ◌++◌, length, Option}
use node_celery_ts.LinkedList.{LinkedList, push, shift, new_list}
use node_celery_ts.LinkedList.Sequence.{
  Represents, new_list-Represents, push-Represents, shift-Removes,
}

-- A queue object: `view` is what iterating over it yields.
pub record Deque (A : Type 0) : Type 1 where
  pub Carrier : Type 0
  pub view : Carrier → List A
  pub empty : Carrier
  pub push : A → Carrier → Carrier
  pub shift : Carrier → Option A × Carrier
  pub view-empty : view empty ≡ []
  pub view-push : (x : A) (q : Carrier) → view (push x q) ≡ view q ++ x ∷ []
  pub shift-empty : (q : Carrier) → view q ≡ [] → shift q ≡ (none, q)
  pub shift-first : (q : Carrier) (x : A) (xs : List A) → view q ≡ x ∷ xs → (shift q).0 ≡ some x
  pub shift-rest : (q : Carrier) (x : A) (xs : List A) → view q ≡ x ∷ xs → view (shift q).1 ≡ xs

abbrev pub list_shift : {A : Type 0} → List A → Option A × List A
list_shift [] = (none, [])
list_shift (x ∷ xs) = (some x, xs)

pub list_shift-empty : {A : Type 0} (q : List A) → q ≡ [] → list_shift q ≡ (none, q)
list_shift-empty [] e = refl
list_shift-empty (x ∷ xs) e = cc

-- The specification as an implementation: a plain list.
abbrev pub list_deque : (A : Type 0) → Deque A
list_deque A = record {
  Carrier = List A;
  view = λ q. q;
  empty = [];
  push = λ x q. q ++ x ∷ [];
  shift = list_shift;
  view-empty = refl;
  view-push = λ x q. refl;
  shift-empty = list_shift-empty;
  shift-first = λ q x xs e. ap (λ t. (list_shift t).0) e;
  shift-rest = λ q x xs e. ap (λ t. (list_shift t).1) e;
}

-- A well-formed linked list, with the sequence that it stands for.
abbrev pub Linked : Type 0 → Type 0
Linked A = (l : LinkedList A) × (xs : List A) × Represents l xs

module _ {A : Type 0} where
  pub linked_push : A → Linked A → Linked A
  linked_push x (l, xs, r) =
      let (l', _, r') = push-Represents (x ∷ []) l xs r in (l', xs ++ x ∷ [], r')

  pub linked_shift : (l : LinkedList A) (xs : List A) → Represents l xs → Option A × Linked A
  linked_shift l [] r = (none, (l, [], r))
  linked_shift l (x ∷ xs) r = let (l', _, r') = shift-Removes l (x ∷ xs) r in (some x, (l', xs, r'))

  linked_shift-empty :
      (l : LinkedList A) (xs : List A) (r : Represents l xs)
      → xs ≡ []
      → linked_shift l xs r ≡ (none, (l, xs, r))
  unfolding linked_shift
  linked_shift-empty l [] r e = refl
  linked_shift-empty l (x ∷ xs) r e = cc

  linked_shift-first :
      (l : LinkedList A) (ys : List A) (r : Represents l ys) (x : A) (xs : List A)
      → ys ≡ x ∷ xs
      → (linked_shift l ys r).0 ≡ some x
  unfolding linked_shift
  linked_shift-first l [] r x xs e = cc
  linked_shift-first l (y ∷ ys) r x xs e = cc

  linked_shift-rest :
      (l : LinkedList A) (ys : List A) (r : Represents l ys) (x : A) (xs : List A)
      → ys ≡ x ∷ xs
      → ((linked_shift l ys r).1).1 ≡ xs
  unfolding linked_shift
  linked_shift-rest l [] r x xs e = cc
  linked_shift-rest l (y ∷ ys) r x xs e = cc

  -- The object that `push` and `shift` of the linked list really return.
  pub linked_push-push :
      (x : A) (q : Linked A) → push (x ∷ []) q.0 ≡ some (length q.1 + 1, (linked_push x q).0)
  unfolding linked_push
  linked_push-push x (l, xs, r) = (push-Represents (x ∷ []) l xs r).1

  pub linked_shift-shift :
      (l : LinkedList A) (xs : List A) (r : Represents l xs)
      → shift l ≡ some ((linked_shift l xs r).0, (linked_shift l xs r).1.0)
  unfolding linked_shift
  linked_shift-shift l [] r = shift-Removes l [] r
  linked_shift-shift l (x ∷ xs) r = (shift-Removes l (x ∷ xs) r).1

  -- The linked list keeps the promises of a queue object.
  pub linked_deque : Deque A
  unfolding linked_push
  linked_deque = record {
    Carrier = Linked A;
    view = λ q. q.1;
    empty = (new_list, [], new_list-Represents);
    push = linked_push;
    shift = λ (l, xs, r). linked_shift l xs r;
    view-empty = refl;
    view-push = λ x q. refl;
    shift-empty = λ (l, xs, r) e. linked_shift-empty l xs r e;
    shift-first = λ (l, ys, r) x xs e. linked_shift-first l ys r x xs e;
    shift-rest = λ (l, ys, r) x xs e. linked_shift-rest l ys r x xs e;
  }
