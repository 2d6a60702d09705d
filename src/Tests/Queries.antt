-- ===== src/Tests/Queries.antt =====
-- src/query_parser.ts at concrete inputs.
use node_celery_ts.Prelude.{◌≡◌, refl, Bool, true, none, some, List, [], ◌∷◌}
use node_celery_ts.Text.{Text, codes, is_space}
use node_celery_ts.Result.{ok}
use node_celery_ts.Utility.{parse_boolean}
use node_celery_ts.JsMap
use node_celery_ts.Text.Keys.{text_keys}
use node_celery_ts.JsMap.{Eq}
use node_celery_ts.QueryParser.{
  Raw, scalar, many, QueryDescriptor, create_boolean_query_descriptor, new_query_parser, parse,
}

data Value : Type 0 where
  flag : Bool → Value
  raw : Raw → Value

abbrev descriptors : List (QueryDescriptor Text Value)
descriptors =
    create_boolean_query_descriptor flag (codes "a") (some (codes "b"))
    ∷ record { parser = none; source = codes "c"; target = none }
    ∷ []

abbrev query : List (Text × Raw)
query = (codes "a", many (codes "no" ∷ codes "ON" ∷ [])) ∷ (codes "d", scalar (codes "1")) ∷ []

last_value : parse (new_query_parser raw descriptors) query [] ≡ ok ((codes "b", flag true) ∷ [])
unfolding parse new_query_parser create_boolean_query_descriptor JsMap.get JsMap.set parse_boolean
    is_space
last_value = refl
