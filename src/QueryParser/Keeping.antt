-- ===== src/QueryParser/Keeping.antt =====
-- What the entries of a parser of src/query_parser.ts keep of an object.
use node_celery_ts.Prelude.{◌≡◌, sym, ap, ◌∙◌, subst, some, List, [], ◌∷◌, Option-cases, inl, inr}
use node_celery_ts.Result.{Error, ok, err, ◌>>=◌, Result-cases}
use node_celery_ts.JsMap
use node_celery_ts.JsMap.{Eq}
use node_celery_ts.QueryParser.{Raw, MapEntry, parse, reduce, rethrow}
use node_celery_ts.QueryParser.Parsing.{reduced, reduced-skip, reduced-step, reduced-value}

module _ {K V : Type 0} ⦃e : Eq K⦄ (query : List (K × Raw)) (P : List (K × V) → Type 0) where
  -- Setting what the parser of the entry makes of the query keeps the predicate.
  abbrev pub EntryKeeps : K → MapEntry K V → Type 0
  EntryKeeps source x =
      (r : Raw) (v : V) (o : List (K × V))
      → JsMap.get source query ≡ some r
      → x.parser r ≡ ok v
      → P o
      → P (JsMap.set x.target v o)

  abbrev pub AllKeep : List (K × MapEntry K V) → Type 0
  AllKeep [] = Unit {0}
  AllKeep ((source, x) ∷ xs) = EntryKeeps source x × AllKeep xs

  reduced-keeps :
      (xs : List (K × MapEntry K V)) (init object : List (K × V))
      → AllKeep xs
      → P init
      → reduced query xs init ≡ ok object
      → P object
  unfolding reduce
  reduced-keeps [] init object k p h = let same : init ≡ object = cc in subst P same p
  reduced-keeps ((source, x) ∷ xs) init object (k, ks) p h =
      elim (Option-cases (JsMap.get source query)) [
        | inl absent ↦
            reduced-keeps xs init object ks p (sym (reduced-skip query source x xs init absent) ∙ h)
        | inr (r, at) ↦ elim (Result-cases (x.parser r)) [
          | inl (v, l) ↦
              reduced-keeps xs (JsMap.set x.target v init) object ks (k r v init at l p)
                (sym (reduced-value query source x xs init r v at l) ∙ h)
          | inr (y, l) ↦
              let failed : err y ≡ ok object =
                sym (ap (λ q. q >>= λ v. reduced query xs (JsMap.set x.target v init)) l)
                ∙ sym (reduced-step query source x xs init r at)
                ∙ h in
              cc
        ]
      ]

  -- If each entry keeps it, the object that is parsed has it.
  pub parse-keeps :
      (functions : List (K × MapEntry K V)) (init object : List (K × V))
      → AllKeep functions
      → P init
      → parse functions query init ≡ ok object
      → P object
  unfolding parse
  parse-keeps functions init object k p h = elim (Result-cases (reduced query functions init)) [
    | inl (o, l) ↦ reduced-keeps functions init object k p (l ∙ sym (ap rethrow l) ∙ h)
    | inr (y, l) ↦ let failed : err Error.parse_error ≡ ok object = sym (ap rethrow l) ∙ h in cc
  ]
