-- ===== src/Redis/Uri/Sentinel/Groups.antt =====
-- The options of a group of sentinels, of src/redis/uri/sentinel.ts.
use node_celery_ts.Prelude.{
  ◌≡◌, refl, sym, ap, ◌∙◌, Option, none, some, List, [], ◌∷◌, ℕ, map, subst,
}
use node_celery_ts.Text.{Text, codes}
use node_celery_ts.Text.Keys.{text_keys}
use node_celery_ts.JsMap
use node_celery_ts.Result.{Error, Result, ok, err, ◌>>=◌}
use node_celery_ts.Objects.{Value, text, nodes, Object, merge}
use node_celery_ts.Objects.Laws.{final, get-merge}
use node_celery_ts.QueryParser.{map_result}
use node_celery_ts.Uri.{UriJs}
use node_celery_ts.Uri.Scan.{split}
use node_celery_ts.Redis.Uri.Sentinel.{
  merge_all, named_options, sentinel_options, parse_individual, parse_sentinel_uri,
}

-- The last value of a property in a list of objects.
abbrev pub latest_of : Text → List Object → Option Value → Option Value
latest_of k [] old = old
latest_of k (o ∷ os) old = latest_of k os (final k o old)

get-merge_all :
    (k : Text) (o : Object) (os : List Object)
    → JsMap.get k (merge_all o os) ≡ latest_of k os (JsMap.get k o)
unfolding merge_all
get-merge_all k o [] = refl
get-merge_all k o (p ∷ os) = get-merge_all k (merge o p) os ∙ ap (latest_of k os) (get-merge k o p)

-- Where the sentinels stand, and the last value of a property in the URIs.
abbrev pub queried :
    Text → (Text × Option ℕ) × Object → List ((Text × Option ℕ) × Object) → Option Value
queried k r rs = latest_of k (map (λ p. p.1) rs) (JsMap.get k (r.1))

-- The options of a group of sentinels, by the name of the group.
abbrev pub HasGroup :
    (Text × Option ℕ) × Object
    → List ((Text × Option ℕ) × Object)
    → Option Value
    → Result Object
    → Type 0
HasGroup r rs none result = result ≡ err Error.parse_error
HasGroup r rs (some name) result =
    (o : Object) × (result ≡ ok o)
    × (JsMap.get (codes "sentinels") o ≡ some (nodes (r.0 ∷ map (λ p. p.0) rs)))
    × (JsMap.get (codes "protocol") o ≡ some (text (codes "sentinel")))
    × (JsMap.get (codes "name") o ≡ some name)
    × (JsMap.get (codes "role") o ≡ queried (codes "role") r rs)

sentinel_options-cases :
    (r : (Text × Option ℕ) × Object) (rs : List ((Text × Option ℕ) × Object)) (name : Option Value)
    → queried (codes "name") r rs ≡ name
    → HasGroup r rs name (sentinel_options (r ∷ rs))
unfolding sentinel_options
sentinel_options-cases r rs none h =
    ap (named_options _ (merge_all (r.1) (map (λ p. p.1) rs)))
      (get-merge_all (codes "name") (r.1) (map (λ p. p.1) rs) ∙ h)
sentinel_options-cases r rs (some name) h =
    let options = merge_all (r.1) (map (λ p. p.1) rs) in
    let sentinels = r.0 ∷ map (λ p. p.0) rs in
    let protocol = JsMap.set (codes "protocol") (text (codes "sentinel")) options in
    (
      JsMap.set (codes "sentinels") (nodes sentinels) protocol,
      ap (named_options sentinels options)
          (get-merge_all (codes "name") (r.1) (map (λ p. p.1) rs) ∙ h),
      JsMap.get-set (codes "sentinels") (codes "sentinels") (nodes sentinels) protocol,
      JsMap.get-set (codes "sentinels") (codes "protocol") (nodes sentinels) protocol
          ∙ JsMap.get-set (codes "protocol") (codes "protocol") (text (codes "sentinel")) options,
      JsMap.get-set (codes "sentinels") (codes "name") (nodes sentinels) protocol
          ∙ JsMap.get-set (codes "protocol") (codes "name") (text (codes "sentinel")) options
          ∙ get-merge_all (codes "name") (r.1) (map (λ p. p.1) rs)
          ∙ h,
      JsMap.get-set (codes "sentinels") (codes "role") (nodes sentinels) protocol
          ∙ JsMap.get-set (codes "protocol") (codes "role") (text (codes "sentinel")) options
          ∙ get-merge_all (codes "role") (r.1) (map (λ p. p.1) rs),
    )

-- When each of the URIs behind the semicolons is parsed, parseSentinelUri gives the sentinels in
-- the order of the URIs, and of the name and of the role the last that a URI has, whichever it is;
-- when none of the URIs has a name, it throws a ParseError.
pub parse_sentinel_uri-HasGroup :
    (U : UriJs) (uris : Text) (r : (Text × Option ℕ) × Object)
    (rs : List ((Text × Option ℕ) × Object))
    → map_result (parse_individual U) (split b';' uris) ≡ ok (r ∷ rs)
    → HasGroup r rs (queried (codes "name") r rs) (parse_sentinel_uri U uris)
unfolding parse_sentinel_uri
parse_sentinel_uri-HasGroup U uris r rs h =
    subst (HasGroup r rs (queried (codes "name") r rs)) (sym (ap (λ x. x >>= sentinel_options) h))
      (sentinel_options-cases r rs (queried (codes "name") r rs) refl)
