-- ===== src/Redis/Uri/Sentinel/Types.antt =====
-- The type of the options that src/redis/uri/sentinel.ts parses: `BasicRedisSentinelOptions` of
-- src/redis/basic_options.ts.
use node_celery_ts.Prelude.{
  ◌≡◌, refl, sym, ap, ap₂, subst, ◌∙◌, true, Option, none, some, is_some, List, [], ◌∷◌, ℕ, map,
  Bool-cases, inl, inr, All, not, ◌||◌, ◌&&◌,
}
use node_celery_ts.Text.{Text, codes, text_eq}
use node_celery_ts.Text.Laws.{if-then, if-else}
use node_celery_ts.Text.Keys.{text_keys}
use node_celery_ts.JsMap
use node_celery_ts.Result.{Error, ok, err, ◌>>=◌, bind-inv}
use node_celery_ts.QueryParser.{Raw, scalar, many, new_query_parser, map_result, as_scalar}
use node_celery_ts.QueryParser.Keeping.{parse-keeps}
use node_celery_ts.Objects.{Value, Object, text, nodes, raw, merge}
use node_celery_ts.Objects.Interfaces.{
  Interface, text_or_texts, a_role, has_kind, fits, has_required, conforms, set-fits, merge-fits,
  and-both,
}
use node_celery_ts.Uri.{Queries, UriJs, parse_uri}
use node_celery_ts.Uri.Scan.{split}
use node_celery_ts.Redis.Uri.Interfaces.{sentinel_interface}
use node_celery_ts.Redis.Uri.Sentinel.{
  parse_role, sentinel_descriptors, parse_queries, parse_authority, parse_individual, merge_all,
  individual_options, named_options, sentinel_options, parse_sentinel_uri,
}

abbrev S : Interface
S = sentinel_interface text_or_texts

parse_role-has_kind :
    (role : Option Text) (v : Value)
    → (parse_role role >>= λ r. ok (text r)) ≡ ok v
    → has_kind a_role v ≡ true
unfolding parse_role
parse_role-has_kind none v h = cc
parse_role-has_kind (some role) v h =
    elim (Bool-cases (text_eq role (codes "master") || text_eq role (codes "slave"))) [
      | inl e ↦
          let found : ok (text role) ≡ ok v =
            sym (ap (λ p. p >>= λ r. ok (text r)) (if-then _ (ok role) (err Error.parse_error) e))
            ∙ h in
          let same : text role ≡ v = cc in ap (has_kind a_role) (sym same) ∙ e
      | inr e ↦
          let failed : err Error.parse_error ≡ ok v =
            sym (
              ap (λ p. p >>= λ r. ok (text r))
                (if-else _ (ok role) (err Error.parse_error) (ap not e)))
            ∙ h in
          cc
    ]

raw-has_kind : (r : Raw) → has_kind text_or_texts (raw r) ≡ true
raw-has_kind (scalar t) = refl
raw-has_kind (many ts) = refl

parse_queries-fits :
    (query : Option Queries) (options : Object)
    → parse_queries query ≡ ok options
    → fits S options ≡ true
unfolding parse_queries sentinel_descriptors new_query_parser JsMap.set fits sentinel_interface
    JsMap.get
parse_queries-fits none options h = let same : [] ≡ options = cc in ap (fits S) (sym same)
parse_queries-fits (some query) options h =
    parse-keeps query (λ x. fits S x ≡ true) (new_query_parser raw sentinel_descriptors) [] options
      (
        λ r v o at l p.
            let same : raw r ≡ v = cc in
            set-fits S (codes "name") v o (ap (has_kind text_or_texts) (sym same) ∙ raw-has_kind r)
              p,
        (
          λ r v o at l p. set-fits S (codes "role") v o (parse_role-has_kind (as_scalar r) v l) p,
          tt,
        ),
      )
      refl h

merge_all-fits :
    (o : Object) (os : List Object)
    → fits S o ≡ true
    → All (λ p. fits S p ≡ true) os
    → fits S (merge_all o os) ≡ true
unfolding merge_all
merge_all-fits o [] f all = f
merge_all-fits o (p ∷ ps) f (g, all) = merge_all-fits (merge o p) ps (merge-fits S o p f g) all

individual_options-fits :
    (os : List Object) → All (λ p. fits S p ≡ true) os → fits S (individual_options os) ≡ true
unfolding fits
individual_options-fits [] all = refl
individual_options-fits (o ∷ os) (f, all) = merge_all-fits o os f all

parse_individual-fits :
    (U : UriJs) (uri : Text) (p : (Text × Option ℕ) × Object)
    → parse_individual U uri ≡ ok p
    → fits S (p.1) ≡ true
unfolding parse_individual
parse_individual-fits U raw_uri p h =
    let (uri, l, m) = bind-inv (parse_uri U raw_uri) _ p h in
    let (authority, l', m') =
      bind-inv (parse_authority uri) (λ a. parse_queries uri.query >>= λ q. ok (a, q)) p m in
    let (queries, l'', m'') = bind-inv (parse_queries uri.query) (λ q. ok (authority, q)) p m' in
    let same : (authority, queries) ≡ p = cc in
    ap (λ t. fits S (t.1)) (sym same) ∙ parse_queries-fits uri.query queries l''

-- The queries of the URIs that have been parsed.
abbrev Fits : List ((Text × Option ℕ) × Object) → Type 0
Fits parsed = All (λ p. fits S p ≡ true) (map (λ p. p.1) parsed)

map_result-Fits :
    (U : UriJs) (uris : List Text) (parsed : List ((Text × Option ℕ) × Object))
    → map_result (parse_individual U) uris ≡ ok parsed
    → Fits parsed
unfolding map_result
map_result-Fits U [] parsed h = let same : [] ≡ parsed = cc in subst Fits same tt
map_result-Fits U (u ∷ us) parsed h =
    let (p, l, m) =
      bind-inv (parse_individual U u)
        (λ p. map_result (parse_individual U) us >>= λ ps. ok (p ∷ ps)) parsed h in
    let (ps, l', m') = bind-inv (map_result (parse_individual U) us) (λ ps. ok (p ∷ ps)) parsed m in
    let same : p ∷ ps ≡ parsed = cc in
    subst Fits same (parse_individual-fits U u p l, map_result-Fits U us ps l')

named_options-conforms :
    (sentinels : List (Text × Option ℕ)) (o options : Object) (name : Option Value)
    → fits S o ≡ true
    → JsMap.get (codes "name") o ≡ name
    → named_options sentinels o name ≡ ok options
    → conforms S options ≡ true
unfolding conforms has_required sentinel_interface JsMap.get
named_options-conforms sentinels o options none f at h = cc
named_options-conforms sentinels o options (some name) f at h =
    let protocol = codes "protocol" in
    let o₁ = JsMap.set protocol (text (codes "sentinel")) o in
    let o₂ = JsMap.set (codes "sentinels") (nodes sentinels) o₁ in
    let same : o₂ ≡ options = cc in
    let named : JsMap.get (codes "name") o₂ ≡ some name =
      JsMap.get-set (codes "sentinels") (codes "name") (nodes sentinels) o₁
      ∙ JsMap.get-set protocol (codes "name") (text (codes "sentinel")) o
      ∙ at in
    let listed : JsMap.get (codes "sentinels") o₂ ≡ some (nodes sentinels) =
      JsMap.get-set (codes "sentinels") (codes "sentinels") (nodes sentinels) o₁ in
    let spoken : JsMap.get protocol o₂ ≡ some (text (codes "sentinel")) =
      JsMap.get-set (codes "sentinels") protocol (nodes sentinels) o₁
      ∙ JsMap.get-set protocol protocol (text (codes "sentinel")) o in
    ap (conforms S) (sym same)
    ∙ and-both (fits S o₂) (has_required S o₂)
        (set-fits S (codes "sentinels") (nodes sentinels) o₁ refl
          (set-fits S protocol (text (codes "sentinel")) o refl f))
        (ap₂ (λ n r. is_some n && r) named
          (ap₂ (λ l p. is_some l && (is_some p && true)) listed spoken))

-- What parseSentinelUri returns has every property that BasicRedisSentinelOptions requires and only
-- properties that it declares, each with a value of its type; except that `name` may be an array of
-- strings.
pub parse_sentinel_uri-conforms :
    (U : UriJs) (raw_uris : Text) (options : Object)
    → parse_sentinel_uri U raw_uris ≡ ok options
    → conforms (sentinel_interface text_or_texts) options ≡ true
unfolding parse_sentinel_uri sentinel_options
parse_sentinel_uri-conforms U raw_uris options h =
    let (parsed, l, m) =
      bind-inv (map_result (parse_individual U) (split b';' raw_uris)) sentinel_options options h in
    let o = individual_options (map (λ p. p.1) parsed) in
    named_options-conforms (map (λ p. p.0) parsed) o options (JsMap.get (codes "name") o)
      (individual_options-fits (map (λ p. p.1) parsed)
        (map_result-Fits U (split b';' raw_uris) parsed l))
      refl m
