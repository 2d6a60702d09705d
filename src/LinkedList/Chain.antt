-- ===== src/LinkedList/Chain.antt =====
-- Chains of nodes in the store of src/containers/list.ts: which references are linked, in which
-- order, and how a chain changes when a node at one of its ends does.
use mathlib.Core.Bool.{or_assoc}
use node_celery_ts.Prelude.{
  ◌≡◌, refl, sym, ap, ◌∙◌, Bool, false, ◌||◌, Option, some, List, [], ◌∷◌, ◌++◌, arith, ◌==◌,
}
use node_celery_ts.LinkedList.{Ref, Node, Store, write, set_next, set_previous}

abbrev pub Cells : Type 0 → Type 0
Cells A = List (Ref × A)

module _ {A : Type 0} where
  abbrev pub has : Ref → Cells A → Bool
  has r [] = false
  has r ((p, _) ∷ cs) = (r == p) || has r cs

  -- The reference of the first cell, or what comes behind if there is none.
  abbrev pub first : Cells A → Option Ref → Option Ref
  first [] stop = stop
  first ((p, _) ∷ cs) stop = some p

  -- The reference of the last cell, or what comes before if there is none.
  abbrev pub last : Option Ref → Cells A → Option Ref
  last prev [] = prev
  last prev ((p, _) ∷ cs) = last (some p) cs

  -- The cells are linked both ways; `prev` stands before the first and `stop` behind the last.
  abbrev pub Chain : Store A → Option Ref → Option Ref → Cells A → Type 0
  Chain h prev stop [] = Unit {0}
  Chain h prev stop ((p, v) ∷ cs) =
      (h p ≡ some (record { element = v; next = first cs stop; previous = prev }))
      × (has p cs ≡ false)
      × Chain h (some p) stop cs

  pub has-append : (r : Ref) (xs ys : Cells A) → has r (xs ++ ys) ≡ (has r xs || has r ys)
  has-append r [] ys = refl
  has-append r (x ∷ xs) ys = rw (has-append r xs ys, or_assoc)

  pub first-append :
      (xs ys : Cells A) (stop : Option Ref) → first (xs ++ ys) stop ≡ first xs (first ys stop)
  first-append [] ys stop = refl
  first-append (x ∷ xs) ys stop = refl

  pub last-append :
      (prev : Option Ref) (xs ys : Cells A) → last prev (xs ++ ys) ≡ last (last prev xs) ys
  last-append prev [] ys = refl
  last-append prev ((p, v) ∷ xs) ys = last-append (some p) xs ys

  -- A chain survives a write outside it.
  pub Chain-write :
      (h : Store A) (prev stop : Option Ref) (cs : Cells A) (r : Ref) (n : Node A)
      → has r cs ≡ false
      → Chain h prev stop cs
      → Chain (write h r n) prev stop cs
  unfolding write
  Chain-write h prev stop [] r n out c = tt
  Chain-write h prev stop ((p, v) ∷ cs) r n out c =
      (ground arith, c.1, Chain-write h (some p) stop cs r n (ground arith) c.2)

  -- A chain of all but the last cell, and that cell.
  pub Chain-snoc :
      (h : Store A) (prev stop : Option Ref) (cs : Cells A) (r : Ref) (v : A)
      → Chain h prev (some r) cs
      → h r ≡ some (record { element = v; next = stop; previous = last prev cs })
      → has r cs ≡ false
      → Chain h prev stop (cs ++ (r, v) ∷ [])
  Chain-snoc h prev stop [] r v c e out = (e, refl, tt)
  Chain-snoc h prev stop ((p, w) ∷ cs) r v c e out = (
    c.0
        ∙ ap (λ t. some (record { element = w; next = t; previous = prev }))
            (sym (first-append cs ((r, v) ∷ []) stop)),
    rw (has-append p cs ((r, v) ∷ []), c.1) (ground arith),
    Chain-snoc h (some p) stop cs r v c.2 e (ground arith),
  )

  pub record Snoc (h : Store A) (prev stop : Option Ref) (cs : Cells A) (r : Ref) (v : A)
      : Type 0 where
    pub front : Chain h prev (some r) cs
    pub holds : h r ≡ some (record { element = v; next = stop; previous = last prev cs })
    pub out : has r cs ≡ false

  pub Snoc-Chain :
      (h : Store A) (prev stop : Option Ref) (cs : Cells A) (r : Ref) (v : A)
      → Chain h prev stop (cs ++ (r, v) ∷ [])
      → Snoc h prev stop cs r v
  Snoc-Chain h prev stop [] r v c = record { front = tt; holds = c.0; out = refl }
  Snoc-Chain h prev stop ((p, w) ∷ cs) r v c =
      let s = Snoc-Chain h (some p) stop cs r v c.2 in
      record {
        front = (
          c.0
              ∙ ap (λ t. some (record { element = w; next = t; previous = prev }))
                  (first-append cs ((r, v) ∷ []) stop),
          ground (arith, has-append p cs ((r, v) ∷ [])),
          s.front,
        );
        holds = s.holds;
        out = ground (arith, has-append p cs ((r, v) ∷ []), s.out);
      }

  pub write_self : (h : Store A) (p : Ref) (n : Node A) → write h p n p ≡ some n
  unfolding write
  write_self h p n = ground arith

  -- The last node gets another successor.
  pub Chain-set_stop :
      (h : Store A) (prev stop : Option Ref) (cs : Cells A) (r : Ref) (v : A) (stop' : Option Ref)
      → Snoc h prev stop cs r v
      → Chain
          (write h r (record { element = v; next = stop'; previous = last prev cs }))
          prev
          stop'
          (cs ++ (r, v) ∷ [])
  Chain-set_stop h prev stop cs r v stop' s =
      Chain-snoc _ prev stop' cs r v (Chain-write h prev (some r) cs r _ s.out s.front)
        (write_self h r _) s.out

  -- The first node gets another predecessor.
  pub Chain-set_prev :
      (h : Store A) (prev stop : Option Ref) (cs : Cells A) (r : Ref) (v : A) (prev' : Option Ref)
      → Chain h prev stop ((r, v) ∷ cs)
      → Chain
          (write h r (record { element = v; next = first cs stop; previous = prev' }))
          prev'
          stop
          ((r, v) ∷ cs)
  Chain-set_prev h prev stop cs r v prev' c =
      (write_self h r _, c.1, Chain-write h (some r) stop cs r _ c.1 c.2)

  pub set_next-ok :
      (h : Store A) (p : Ref) (n : Node A) (r : Option Ref)
      → h p ≡ some n
      → set_next h p r ≡ some (write h p (record n { next = r }))
  unfolding set_next
  set_next-ok h p n r e = rw e

  pub set_previous-ok :
      (h : Store A) (p : Ref) (n : Node A) (r : Option Ref)
      → h p ≡ some n
      → set_previous h p r ≡ some (write h p (record n { previous = r }))
  unfolding set_previous
  set_previous-ok h p n r e = rw e
