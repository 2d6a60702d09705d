-- ===== src/QueryParser.antt =====
-- src/query_parser.ts: descriptors of queries, and the parser that maps a query into an object.
-- An object is its properties in order, as a map of JsMap, and `any` is a type of values `V`. The
-- properties that objects inherit are not among those of a query.
pub mod Parsing
pub mod Keeping
use node_celery_ts.Prelude.{ℕ, Bool, if◌then◌else◌, Option, none, some, is_some, List, [], ◌∷◌, map}
use node_celery_ts.Text.{Text}
use node_celery_ts.Result.{Error, Result, ok, err, ◌>>=◌}
use node_celery_ts.Utility.{parse_boolean, parse_integer}
use node_celery_ts.JsMap
use node_celery_ts.JsMap.{Eq}

pub data ScalarOrArray (A : Type 0) : Type 0 where
  scalar : A → ScalarOrArray A
  many : List A → ScalarOrArray A

abbrev last : {A : Type 0} → List A → Option A
last [] = none
last (x ∷ []) = some x
last (x ∷ y ∷ xs) = last (y ∷ xs)

-- `none` is `undefined`, the last element of an empty array.
unfoldable pub as_scalar : {A : Type 0} → ScalarOrArray A → Option A
as_scalar (scalar a) = some a
as_scalar (many xs) = last xs

unfoldable pub as_array : {A : Type 0} → ScalarOrArray A → List A
as_array (scalar a) = a ∷ []
as_array (many xs) = xs

abbrev pub Raw : Type 0
Raw = ScalarOrArray Text

abbrev pub Parser : Type 0 → Type 0
Parser V = Raw → Result V

pub record QueryDescriptor (K V : Type 0) : Type 0 where
  pub parser : Option (Parser V)
  pub source : K
  pub target : Option K

pub record HasParser (K V : Type 0) : Type 0 where
  pub parser : Parser V
  pub source : K
  pub target : Option K

pub record HasTarget (K V : Type 0) : Type 0 where
  pub parser : Parser V
  pub source : K
  pub target : K

pub record MapEntry (K V : Type 0) : Type 0 where
  pub parser : Parser V
  pub target : K

-- A function called with `undefined` for a string fails with a `TypeError`.
abbrev pub of_scalar : {B V : Type 0} → (Text → Result B) → (B → V) → Option Text → Result V
of_scalar f into none = err Error.generic
of_scalar f into (some s) = f s >>= λ b. ok (into b)

unfoldable pub create_boolean_query_descriptor :
    {K V : Type 0} → (Bool → V) → K → Option K → QueryDescriptor K V
unfolding as_scalar
create_boolean_query_descriptor into source target = record {
  parser = some (λ x. of_scalar parse_boolean into (as_scalar x));
  source = source;
  target = target;
}

unfoldable pub create_integer_query_descriptor :
    {K V : Type 0} → (Option ℕ → V) → K → Option K → QueryDescriptor K V
unfolding as_scalar
create_integer_query_descriptor into source target = record {
  parser = some (λ x. of_scalar parse_integer into (as_scalar x));
  source = source;
  target = target;
}

-- `map` with a function that may throw.
unfoldable pub map_result : {A B : Type 0} → (A → Result B) → List A → Result (List B)
map_result f [] = ok []
map_result f (a ∷ xs) = do b ← f a; bs ← map_result f xs; ok (b ∷ bs)

module _ {K V Buffer : Type 0} (read_file_sync : Text → Result Buffer) where
  pub create_path_array_query_descriptor : (List Buffer → V) → K → Option K → QueryDescriptor K V
  unfolding as_array map_result
  create_path_array_query_descriptor into source target = record {
    parser = some (λ x. map_result read_file_sync (as_array x) >>= λ bs. ok (into bs));
    source = source;
    target = target;
  }

  pub create_path_query_descriptor : (Buffer → V) → K → Option K → QueryDescriptor K V
  unfolding as_scalar
  create_path_query_descriptor into source target = record {
    parser = some (λ x. of_scalar read_file_sync into (as_scalar x));
    source = source;
    target = target;
  }

-- `any` includes a raw query.
abbrev parser_or : {V : Type 0} → (Raw → V) → Option (Parser V) → Parser V
parser_or raw none = λ x. ok (raw x)
parser_or raw (some p) = p

abbrev target_or : {K : Type 0} → K → Option K → K
target_or source none = source
target_or source (some target) = target

abbrev pub filter : {A : Type 0} → (A → Bool) → List A → List A
filter p [] = []
filter p (a ∷ xs) = let rest = filter p xs in if p a then a ∷ rest else rest

-- The parser is called on a source that is present.
abbrev pub parse_source : {V : Type 0} → Parser V → Option Raw → Result V
parse_source p none = err Error.generic
parse_source p (some x) = p x

-- `reduce` with a function that may throw.
unfoldable pub reduce : {A B : Type 0} → (A → B → Result A) → A → List B → Result A
reduce f a [] = ok a
reduce f a (b ∷ bs) = do a' ← f a b; reduce f a' bs

abbrev pub rethrow : {A : Type 0} → Result A → Result A
rethrow (ok a) = ok a
rethrow (err x) = err Error.parse_error

module _ {K V : Type 0} where
  pub assert_parsers : (Raw → V) → List (QueryDescriptor K V) → List (HasParser K V)
  assert_parsers raw =
      map (λ d. record { parser = parser_or raw d.parser; source = d.source; target = d.target })

  pub assert_targets : List (HasParser K V) → List (HasTarget K V)
  assert_targets =
      map
        (λ d. record { parser = d.parser; source = d.source; target = target_or d.source d.target })

  pub into_pairs : List (HasTarget K V) → List (K × MapEntry K V)
  into_pairs = map (λ d. (d.source, record { parser = d.parser; target = d.target }))

module _ {K V : Type 0} ⦃e : Eq K⦄ where
  -- `new Map(pairs)`
  pub from_pairs : List (K × MapEntry K V) → List (K × MapEntry K V) → List (K × MapEntry K V)
  from_pairs [] m = m
  from_pairs ((k, x) ∷ ps) m = from_pairs ps (JsMap.set k x m)

  -- The `functions` of a new parser.
  unfoldable pub new_query_parser : (Raw → V) → List (QueryDescriptor K V) → List (K × MapEntry K V)
  unfolding assert_parsers assert_targets into_pairs from_pairs
  new_query_parser raw descriptors =
      from_pairs (into_pairs (assert_targets (assert_parsers raw descriptors))) []

  unfoldable pub has_source : List (K × Raw) → K × MapEntry K V → Bool
  has_source query (source, x) = is_some (JsMap.get source query)

  unfoldable pub append_parsed :
      List (K × Raw) → List (K × V) → K × MapEntry K V → Result (List (K × V))
  append_parsed query previous (source, x) = do
    v ← parse_source x.parser (JsMap.get source query)
    ok (JsMap.set x.target v previous)

  unfoldable pub parse :
      List (K × MapEntry K V) → List (K × Raw) → List (K × V) → Result (List (K × V))
  unfolding has_source append_parsed reduce
  parse functions query init =
      rethrow (reduce (append_parsed query) init (filter (has_source query) functions))
