-- ===== src/LinkedList.antt =====
-- src/containers/list.ts: the class `List`, a doubly-linked list.
-- A reference to a `Node` is a number, and the objects that the references point at stand in a
-- store (`nodes`), so that `this.tail.next = ...` changes the one shared object. `fresh` is the
-- next reference that an object literal gets. `undefined` is `none`, for references and results.
pub mod Chain
pub mod Push
pub mod Shape
pub mod Take
pub mod Sequence
pub mod Refinement
use node_celery_ts.Prelude.{
  ℕ, zero, suc, ◌+◌, ◌-◌, ◌==◌, if◌then◌else◌, Option, none, some, List, [], ◌∷◌, get_elem?, length,
  ◌>>=◌,
}

abbrev pub Ref : Type 0
Ref = ℕ

pub record Node (A : Type 0) : Type 0 where
  pub element : A
  pub next : Option Ref
  pub previous : Option Ref

abbrev pub Store : Type 0 → Type 0
Store A = Ref → Option (Node A)

pub record LinkedList (A : Type 0) : Type 0 where
  pub head : Option Ref
  pub tail : Option Ref
  pub size : ℕ
  pub nodes : Store A
  pub fresh : Ref

module _ {A : Type 0} where
  pub write : Store A → Ref → Node A → Store A
  write h p n q = if q == p then some n else h q

  pub set_next : Store A → Ref → Option Ref → Option (Store A)
  unfolding write
  set_next h p r = do n ← h p; some (write h p (record n { next = r }))

  pub set_previous : Store A → Ref → Option Ref → Option (Store A)
  unfolding write
  set_previous h p r = do n ← h p; some (write h p (record n { previous = r }))

  unfoldable pub new_list : LinkedList A
  new_list = record { head = none; tail = none; size = 0; nodes = λ _. none; fresh = 0 }

  -- `pushOne`. The literal is allocated before the test of `this.tail`.
  pub push_one : A → LinkedList A → Option (LinkedList A)
  unfolding write set_next
  push_one element l =
      let to_push = l.fresh in
      let allocated =
        write l.nodes to_push (record { element = element; next = none; previous = l.tail }) in
      elim l.tail [
        | none ↦ some (record {
          head = some to_push;
          tail = some to_push;
          size = l.size + 1;
          nodes = allocated;
          fresh = to_push + 1;
        })
        | some t ↦ (do
          nodes ← set_next allocated t (some to_push)
          some (record {
            head = l.head;
            tail = some to_push;
            size = l.size + 1;
            nodes = nodes;
            fresh = to_push + 1;
          }))
      ]

  -- `push(...elements)`, with its result `this.size`.
  push_all : List A → LinkedList A → Option (LinkedList A)
  unfolding push_one
  push_all [] l = some l
  push_all (e ∷ es) l = do l' ← push_one e l; push_all es l'

  unfoldable pub push : List A → LinkedList A → Option (ℕ × LinkedList A)
  unfolding push_all
  push es l = do l' ← push_all es l; some (l'.size, l')

  -- `from` and `of`.
  pub from : List A → Option (LinkedList A)
  unfolding push_all new_list
  from es = push_all es new_list

  pub unshift_one : A → LinkedList A → Option (LinkedList A)
  unfolding write set_previous
  unshift_one element l =
      let to_unshift = l.fresh in
      let allocated =
        write l.nodes to_unshift (record { element = element; next = l.head; previous = none }) in
      elim l.head [
        | none ↦ some (record {
          head = some to_unshift;
          tail = some to_unshift;
          size = l.size + 1;
          nodes = allocated;
          fresh = to_unshift + 1;
        })
        | some h ↦ (do
          nodes ← set_previous allocated h (some to_unshift)
          some (record {
            head = some to_unshift;
            tail = l.tail;
            size = l.size + 1;
            nodes = nodes;
            fresh = to_unshift + 1;
          }))
      ]

  -- The loop of `unshift` from index `i - 1` down to 0.
  unshift_loop : List A → ℕ → LinkedList A → Option (LinkedList A)
  unfolding unshift_one
  unshift_loop es zero l = some l
  unshift_loop es (suc i) l = do e ← get_elem? es i; l' ← unshift_one e l; unshift_loop es i l'

  unfoldable pub unshift : List A → LinkedList A → Option (ℕ × LinkedList A)
  unfolding unshift_loop
  unshift es l = do l' ← unshift_loop es (length es) l; some (l'.size, l')

  unfoldable pub pop : LinkedList A → Option (Option A × LinkedList A)
  unfolding set_next
  pop l = elim l.tail [
    | none ↦ some (none, l)
    | some t ↦ (do
      n ← l.nodes t
      elim n.previous [
        | some p ↦ (do
          nodes ← set_next l.nodes p none
          some (some n.element, record l { tail = some p; size = l.size - 1; nodes = nodes }))
        | none ↦ some (some n.element, record l { head = none; tail = none; size = l.size - 1 })
      ])
  ]

  unfoldable pub shift : LinkedList A → Option (Option A × LinkedList A)
  unfolding set_previous
  shift l = elim l.head [
    | none ↦ some (none, l)
    | some h ↦ (do
      n ← l.nodes h
      elim n.next [
        | some q ↦ (do
          nodes ← set_previous l.nodes q none
          some (some n.element, record l { head = some q; size = l.size - 1; nodes = nodes }))
        | none ↦ some (some n.element, record l { head = none; tail = none; size = l.size - 1 })
      ])
  ]

  -- `[Symbol.iterator]`, run to its end: the elements in the order in which they are yielded. The
  -- list is not changed between two yields. `none` stands for a fault or no fuel left.
  iterate_from : ℕ → Store A → Option Ref → Option (List A)
  iterate_from fuel h none = some []
  iterate_from zero h (some p) = none
  iterate_from (suc fuel) h (some p) = do
    n ← h p
    rest ← iterate_from fuel h n.next
    some (n.element ∷ rest)

  unfoldable pub iterate : ℕ → LinkedList A → Option (List A)
  unfolding iterate_from
  iterate fuel l = iterate_from fuel l.nodes l.head
