-- ===== src/Objects/Interfaces.antt =====
-- The interfaces that src/amqp and src/redis declare for objects of options: for each property, the
-- values that its type has, and whether it may be absent.
use node_celery_ts.Prelude.{
  ◌≡◌, refl, ap, ap₂, ◌∙◌, Bool, true, false, ◌&&◌, ◌||◌, not, Option, none, some, is_some, List,
  [], ◌∷◌, arith, Bool-cases, inl, inr, ◌==◌,
}
use node_celery_ts.Text.{Text, codes, text_eq}
use node_celery_ts.Text.Laws.{and-left, and-right, if-then, if-else, eq_of_text_eq}
use node_celery_ts.Text.Keys.{text_keys}
use node_celery_ts.JsMap
use node_celery_ts.QueryParser.{Raw, scalar, many}
use node_celery_ts.Objects.{Value, text, number, boolean, texts, nodes, opaque, Object, merge}

-- The types of properties: primitive ones, a string or an array of strings, an array of nodes, the
-- two roles, the two families of addresses, and other objects and functions.
pub data Kind : Type 0 where
  a_text a_number a_boolean text_or_texts some_nodes a_role a_family an_object : Kind

abbrev pub has_kind : Kind → Value → Bool
has_kind a_text (text t) = true
has_kind a_number (number n) = true
has_kind a_boolean (boolean b) = true
has_kind text_or_texts (texts ts) = true
has_kind text_or_texts (text t) = true
has_kind some_nodes (nodes ns) = true
has_kind a_role (text t) = text_eq t (codes "master") || text_eq t (codes "slave")
has_kind a_family (number (some n)) = n == 4 || n == 6
has_kind an_object (opaque i) = true
has_kind _ _ = false

pub record Member : Type 0 where
  pub kind : Kind
  pub required : Bool

abbrev pub Interface : Type 0
Interface = List (Text × Member)

abbrev pub property : Text → Kind → Text × Member
property key kind = (key, record { kind = kind; required = true })

-- `key?: kind`
abbrev pub optional : Text → Kind → Text × Member
optional key kind = (key, record { kind = kind; required = false })

abbrev pub allows : Option Member → Value → Bool
allows none v = false
allows (some m) v = has_kind m.kind v

-- Every property of the object is declared, and has a value of its type.
unfoldable pub fits : Interface → Object → Bool
fits I [] = true
fits I ((k, v) ∷ o) = allows (JsMap.get k I) v && fits I o

-- The object has every property that is not optional.
unfoldable pub has_required : Interface → Object → Bool
has_required [] o = true
has_required ((k, m) ∷ I) o = (not m.required || is_some (JsMap.get k o)) && has_required I o

unfoldable pub conforms : Interface → Object → Bool
unfolding fits has_required
conforms I o = fits I o && has_required I o

-- The type of a property that a query without a parser gives.
abbrev pub kind_of : Option Raw → Kind
kind_of none = a_text
kind_of (some (scalar t)) = a_text
kind_of (some (many ts)) = text_or_texts

abbrev pub kind_in : Text → Option (List (Text × Raw)) → Kind
kind_in key none = a_text
kind_in key (some query) = kind_of (JsMap.get key query)

-- A string has such a type.
pub kind_of-text : (r : Option Raw) (t : Text) → has_kind (kind_of r) (text t) ≡ true
kind_of-text none t = refl
kind_of-text (some (scalar s)) t = refl
kind_of-text (some (many ss)) t = refl

pub and-both : (a b : Bool) → a ≡ true → b ≡ true → (a && b) ≡ true
and-both a b h k = ap₂ (λ x y. x && y) h k

pub set-fits :
    (I : Interface) (k : Text) (v : Value) (o : Object)
    → allows (JsMap.get k I) v ≡ true
    → fits I o ≡ true
    → fits I (JsMap.set k v o) ≡ true
unfolding fits JsMap.set
set-fits I k v [] h f = and-both (allows (JsMap.get k I) v) true h refl
set-fits I k v ((j, w) ∷ o) h f =
    let kept = and-right (allows (JsMap.get j I) w) (fits I o) f in
    elim (Bool-cases (text_eq j k)) [
      | inl e ↦
          let h' = ap (λ i. allows (JsMap.get i I) v) (eq_of_text_eq j k e) ∙ h in
          ap (fits I) (if-then (text_eq j k) _ _ e)
          ∙ and-both (allows (JsMap.get j I) v) (fits I o) h' kept
      | inr e ↦
          ap (fits I) (if-else (text_eq j k) _ _ (ap not e))
          ∙ and-both (allows (JsMap.get j I) w) (fits I (JsMap.set k v o))
              (and-left (allows (JsMap.get j I) w) (fits I o) f) (set-fits I k v o h kept)
    ]

pub set-has_required :
    (I : Interface) (k : Text) (v : Value) (o : Object)
    → has_required I o ≡ true
    → has_required I (JsMap.set k v o) ≡ true
unfolding has_required
set-has_required [] k v o h = refl
set-has_required ((j, m) ∷ I) k v o h =
    ground (arith, JsMap.get-set k j v o, set-has_required I k v o)

pub set-conforms :
    (I : Interface) (k : Text) (v : Value) (o : Object)
    → allows (JsMap.get k I) v ≡ true
    → conforms I o ≡ true
    → conforms I (JsMap.set k v o) ≡ true
unfolding conforms
set-conforms I k v o h c =
    and-both (fits I (JsMap.set k v o)) (has_required I (JsMap.set k v o))
      (set-fits I k v o h (and-left (fits I o) (has_required I o) c))
      (set-has_required I k v o (and-right (fits I o) (has_required I o) c))

-- An object with the properties of one that conforms and of one that fits.
pub merge-conforms :
    (I : Interface) (a b : Object)
    → conforms I a ≡ true
    → fits I b ≡ true
    → conforms I (merge a b) ≡ true
unfolding merge fits
merge-conforms I a [] c f = c
merge-conforms I a ((k, v) ∷ b) c f =
    merge-conforms I (JsMap.set k v a) b
      (set-conforms I k v a (and-left (allows (JsMap.get k I) v) (fits I b) f) c)
      (and-right (allows (JsMap.get k I) v) (fits I b) f)

pub merge-fits :
    (I : Interface) (a b : Object) → fits I a ≡ true → fits I b ≡ true → fits I (merge a b) ≡ true
unfolding merge fits
merge-fits I a [] c f = c
merge-fits I a ((k, v) ∷ b) c f =
    merge-fits I (JsMap.set k v a) b
      (set-fits I k v a (and-left (allows (JsMap.get k I) v) (fits I b) f) c)
      (and-right (allows (JsMap.get k I) v) (fits I b) f)
