-- ===== src/Objects/Queries.antt =====
-- The types of what the descriptors of src/query_parser.ts make of a query.
use node_celery_ts.Prelude.{◌≡◌, refl, sym, ap, ◌∙◌, subst, true, Option, none, some, List, [], ◌∷◌}
use node_celery_ts.Text.{Text}
use node_celery_ts.Text.Keys.{text_keys}
use node_celery_ts.JsMap
use node_celery_ts.Result.{Result, ok, bind-inv}
use node_celery_ts.QueryParser.{Raw, MapEntry, scalar, many, of_scalar, as_scalar}
use node_celery_ts.QueryParser.Keeping.{EntryKeeps, AllKeep}
use node_celery_ts.Objects.{Value, raw}
use node_celery_ts.Objects.Interfaces.{
  Interface, Kind, allows, has_kind, has_required, set-has_required, fits, set-fits, kind_of,
}

module _ {B : Type 0} (f : Text → Result B) (into : B → Value) (kind : Kind) where
  of_scalar-has_kind :
      (o : Option Text) (v : Value)
      → ((b : B) → has_kind kind (into b) ≡ true)
      → of_scalar f into o ≡ ok v
      → has_kind kind v ≡ true
  of_scalar-has_kind none v h e = cc
  of_scalar-has_kind (some s) v h e =
      let (b, l, m) = bind-inv (f s) (λ b. ok (into b)) v e in
      let same : into b ≡ v = cc in subst (λ w. has_kind kind w ≡ true) same (h b)

raw-has_kind : (r : Raw) → has_kind (kind_of (some r)) (raw r) ≡ true
raw-has_kind (scalar t) = refl
raw-has_kind (many ts) = refl

-- What a query sets takes away no property.
pub required-keeps :
    (query : List (Text × Raw)) (I : Interface) (xs : List (Text × MapEntry Text Value))
    → AllKeep query (λ o. has_required I o ≡ true) xs
required-keeps query I [] = tt
required-keeps query I ((source, x) ∷ xs) =
    (λ r v o at l p. set-has_required I x.target v o p, required-keeps query I xs)

module _ (query : List (Text × Raw)) (I : Interface) (source : Text) where
  -- The entry of a descriptor for a property of a type that the parser's values have.
  pub scalar-keeps :
      {B : Type 0} (f : Text → Result B) (into : B → Value) (kind : Kind)
      → ((v : Value) → has_kind kind v ≡ true → allows (JsMap.get source I) v ≡ true)
      → ((b : B) → has_kind kind (into b) ≡ true)
      → EntryKeeps query
          (λ o. fits I o ≡ true)
          source
          (record { parser = λ x. of_scalar f into (as_scalar x); target = source })
  scalar-keeps f into kind declared h r v o at l p =
      set-fits I source v o (declared v (of_scalar-has_kind f into kind (as_scalar r) v h l)) p

  -- The entry of a descriptor without a parser, for a property of the type that the query gives.
  pub raw-keeps :
      ((v : Value)
        → has_kind (kind_of (JsMap.get source query)) v ≡ true
        → allows (JsMap.get source I) v ≡ true)
      → EntryKeeps query
          (λ o. fits I o ≡ true)
          source
          (record { parser = λ x. ok (raw x); target = source })
  raw-keeps declared r v o at l p =
      let same : raw r ≡ v = cc in
      set-fits I source v o
        (declared v (
          ap (λ q. has_kind (kind_of q) v) at
          ∙ ap (has_kind (kind_of (some r))) (sym same)
          ∙ raw-has_kind r))
        p
