-- ===== src/Redis/Uri/Common.antt =====
-- src/redis/uri/common.ts: the options that a query gives.
use node_celery_ts.Prelude.{Option, none, some, List, [], ◌∷◌}
use node_celery_ts.Text.{Text, codes}
use node_celery_ts.Text.Keys.{text_keys}
use node_celery_ts.Result.{Result, ok}
use node_celery_ts.Objects.{Value, boolean, raw, Object}
use node_celery_ts.QueryParser.{
  QueryDescriptor, create_boolean_query_descriptor, new_query_parser, parse,
}
use node_celery_ts.Uri.{Queries}

unfoldable pub redis_query_descriptors : List (QueryDescriptor Text Value)
redis_query_descriptors =
    record { parser = none; source = codes "password"; target = none }
    ∷ create_boolean_query_descriptor boolean (codes "noDelay") none
    ∷ []

unfoldable pub parse_redis_query : Option Queries → Result Object
unfolding redis_query_descriptors
parse_redis_query none = ok []
parse_redis_query (some query) = parse (new_query_parser raw redis_query_descriptors) query []
