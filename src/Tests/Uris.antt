-- ===== src/Tests/Uris.antt =====
-- src/uri.ts at concrete inputs.
use node_celery_ts.Prelude.{◌≡◌, refl, none, some, [], ◌∷◌}
use node_celery_ts.Text.{codes}
use node_celery_ts.Result.{ok}
use node_celery_ts.JsMap
use node_celery_ts.Utility.{parse_int, to_camel_case, digit_value}
use node_celery_ts.QueryParser.{scalar}
use node_celery_ts.Uri.{Uri, UriJs, Parts, add_host_user_pass_and_port, parse_uri, uri_of_parsed}
use node_celery_ts.Uri.Authorities.{authority_of, add_host_user_pass_and_port-authority_of}

abbrev parts : Parts
parts = record {
  protocol = some (codes "amqp");
  username = none;
  password = some (codes "p");
  hostname = some (codes "A.b");
  port = some (codes "42");
  path = some (codes "/");
  query = some (codes "a_b=1&c_d=");
}

abbrev bare : Uri
bare = record { authority = none; path = codes "/"; query = none; raw = []; scheme = codes "amqp" }

add_host_user_pass_and_port-authority_of_example :
    add_host_user_pass_and_port parts bare ≡ authority_of (some (codes "A.b")) parts bare
add_host_user_pass_and_port-authority_of_example =
    add_host_user_pass_and_port-authority_of parts bare refl

-- urijs on the one string of the test.
abbrev uri_js : UriJs
uri_js = record {
  parse = λ s. some parts;
  parse_query = λ s. (codes "a_b", scalar (codes "1")) ∷ (codes "c_d", scalar []) ∷ [];
}

-- The properties of the query are renamed, and the parts put together.
parsed :
    parse_uri uri_js []
    ≡ ok (record {
      authority = some (record {
        user_info = some (record { user = []; pass = some (codes "p") });
        host = codes "a.b";
        port = some (some 42);
      });
      path = codes "/";
      query = some ((codes "aB", scalar (codes "1")) ∷ (codes "cD", scalar []) ∷ []);
      raw = [];
      scheme = codes "amqp";
    })
unfolding parse_uri uri_of_parsed parse_int to_camel_case digit_value JsMap.get JsMap.delete
    JsMap.set
parsed = refl
