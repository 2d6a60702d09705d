-- ===== src/QueryParser/Parsing.antt =====
-- What parse of src/query_parser.ts makes of an object, property by property.
use node_celery_ts.Prelude.{
  ◌&&◌, not, ap₂, ℕ, suc, ◌≡◌, ◌⊎◌, inl, inr, refl, sym, ap, ◌∙◌, Bool, true, false, Option, none,
  some, List, [], ◌∷◌, if◌then◌else◌, Option-cases, is_some, get_elem?,
}
use node_celery_ts.Text.Laws.{and-left, and-right, is-false}
use node_celery_ts.Result.{bind-ok, Result-cases, Error, Result, ok, err, ◌>>=◌}
use node_celery_ts.Utility.{or_else}
use node_celery_ts.JsMap
use node_celery_ts.JsMap.{Eq}
use node_celery_ts.QueryParser.{
  Raw, MapEntry, filter, parse_source, reduce, rethrow, has_source, append_parsed, parse,
}

abbrev value : {V : Type 0} → Result V → Option V
value (ok v) = some v
value (err x) = none

or_else-none : {A : Type 0} (o : Option A) → or_else o none ≡ o
or_else-none none = refl
or_else-none (some a) = refl

or_else-if :
    {A : Type 0} (o : Option A) (b : Bool) (v : A) (old : Option A)
    → or_else (or_else o (if b then some v else none)) old ≡ or_else o (if b then some v else old)
or_else-if none true v old = refl
or_else-if none false v old = refl
or_else-if (some a) b v old = refl

module _ {K V : Type 0} ⦃e : Eq K⦄ where
  -- The value that an entry gives to property `k`, if its source is in the query.
  abbrev own : List (K × Raw) → K → MapEntry K V → Option Raw → Option V
  own query k x none = none
  own query k x (some r) = if e.beq x.target k then value (x.parser r) else none

  -- The value of property `k` by the last entry that gives it one.
  abbrev pub latest : List (K × Raw) → K → List (K × MapEntry K V) → Option V
  latest query k [] = none
  latest query k ((source, x) ∷ xs) =
      or_else (latest query k xs) (own query k x (JsMap.get source query))

  -- An entry whose source is in the query, and whose parser throws on it.
  abbrev pub Fails : List (K × Raw) → List (K × MapEntry K V) → Type 0
  Fails query xs =
      (i : ℕ) × (source : K) × (x : MapEntry K V) × (r : Raw) × (y : Error) × (get_elem? xs i
        ≡ some (source, x))
      × (JsMap.get source query ≡ some r)
      × (x.parser r ≡ err y)

  abbrev pub Parsed :
      List (K × Raw) → List (K × MapEntry K V) → List (K × V) → Result (List (K × V)) → Type 0
  Parsed query xs init res =
      ((object : List (K × V)) × (res ≡ ok object)
        × ((k : K) → JsMap.get k object ≡ or_else (latest query k xs) (JsMap.get k init)))
      ⊎ ((y : Error) × (res ≡ err y) × Fails query xs)

  abbrev pub reduced :
      List (K × Raw) → List (K × MapEntry K V) → List (K × V) → Result (List (K × V))
  reduced query xs init = reduce (append_parsed query) init (filter (has_source query) xs)

  Fails-cons :
      (query : List (K × Raw)) (p : K × MapEntry K V) (xs : List (K × MapEntry K V))
      → Fails query xs
      → Fails query (p ∷ xs)
  Fails-cons query p xs (i, s, x, r, y, h, k, l) = (suc i, s, x, r, y, h, k, l)

  pub reduced-skip :
      (query : List (K × Raw)) (source : K) (x : MapEntry K V) (xs : List (K × MapEntry K V))
      (init : List (K × V))
      → JsMap.get source query ≡ none
      → reduced query ((source, x) ∷ xs) init ≡ reduced query xs init
  unfolding has_source
  reduced-skip query source x xs init h =
      ap
        (λ o. reduce (append_parsed query) init (
          if is_some o
          then (source, x) ∷ filter (has_source query) xs
          else filter (has_source query) xs))
        h

  pub reduced-step :
      (query : List (K × Raw)) (source : K) (x : MapEntry K V) (xs : List (K × MapEntry K V))
      (init : List (K × V)) (r : Raw)
      → JsMap.get source query ≡ some r
      → reduced query ((source, x) ∷ xs) init
        ≡ (x.parser r >>= λ v. reduced query xs (JsMap.set x.target v init))
  unfolding has_source reduce append_parsed
  reduced-step query source x xs init r h =
      ap
        (λ o. reduce (append_parsed query) init (
          if is_some o
          then (source, x) ∷ filter (has_source query) xs
          else filter (has_source query) xs))
        h
      ∙ ap
          (λ o. (parse_source x.parser o >>= λ v. ok (JsMap.set x.target v init)) >>= λ a.
            reduced query xs a)
          h
      ∙ bind-ok (x.parser r) (λ v. JsMap.set x.target v init) (reduced query xs)

  pub reduced-value :
      (query : List (K × Raw)) (source : K) (x : MapEntry K V) (xs : List (K × MapEntry K V))
      (init : List (K × V)) (r : Raw) (v : V)
      → JsMap.get source query ≡ some r
      → x.parser r ≡ ok v
      → reduced query ((source, x) ∷ xs) init ≡ reduced query xs (JsMap.set x.target v init)
  reduced-value query source x xs init r v h l =
      reduced-step query source x xs init r h
      ∙ ap (λ p. p >>= λ w. reduced query xs (JsMap.set x.target w init)) l

  latest-skip :
      (query : List (K × Raw)) (source k : K) (x : MapEntry K V) (xs : List (K × MapEntry K V))
      → JsMap.get source query ≡ none
      → latest query k ((source, x) ∷ xs) ≡ latest query k xs
  latest-skip query source k x xs h =
      ap (λ o. or_else (latest query k xs) (own query k x o)) h ∙ or_else-none (latest query k xs)

  latest-step :
      (query : List (K × Raw)) (source k : K) (x : MapEntry K V) (xs : List (K × MapEntry K V))
      (r : Raw) (v : V) (old : Option V)
      → JsMap.get source query ≡ some r
      → x.parser r ≡ ok v
      → or_else (latest query k ((source, x) ∷ xs)) old
        ≡ or_else (latest query k xs) (if e.beq x.target k then some v else old)
  latest-step query source k x xs r v old h l =
      ap (λ o. or_else (or_else (latest query k xs) (own query k x o)) old) h
      ∙ ap
          (λ p.
            or_else (or_else (latest query k xs) (if e.beq x.target k then value p else none)) old)
          l
      ∙ or_else-if (latest query k xs) (e.beq x.target k) v old

  Parsed-skip :
      (query : List (K × Raw)) (source : K) (x : MapEntry K V) (xs : List (K × MapEntry K V))
      (init : List (K × V))
      → JsMap.get source query ≡ none
      → Parsed query xs init (reduced query xs init)
      → Parsed query ((source, x) ∷ xs) init (reduced query ((source, x) ∷ xs) init)
  Parsed-skip query source x xs init h (inl (object, q, f)) = inl (
    object,
    reduced-skip query source x xs init h ∙ q,
    λ k. f k ∙ ap (λ l. or_else l (JsMap.get k init)) (sym (latest-skip query source k x xs h)),
  )
  Parsed-skip query source x xs init h (inr (y, q, fails)) =
      inr (y, reduced-skip query source x xs init h ∙ q, Fails-cons query (source, x) xs fails)

  Parsed-step :
      (query : List (K × Raw)) (source : K) (x : MapEntry K V) (xs : List (K × MapEntry K V))
      (init : List (K × V)) (r : Raw) (v : V)
      → JsMap.get source query ≡ some r
      → x.parser r ≡ ok v
      → Parsed query xs (JsMap.set x.target v init) (reduced query xs (JsMap.set x.target v init))
      → Parsed query ((source, x) ∷ xs) init (reduced query ((source, x) ∷ xs) init)
  Parsed-step query source x xs init r v h l (inl (object, q, f)) = inl (
    object,
    reduced-value query source x xs init r v h l ∙ q,
    λ k.
        f k
        ∙ ap (or_else (latest query k xs)) (JsMap.get-set x.target k v init)
        ∙ sym (latest-step query source k x xs r v (JsMap.get k init) h l),
  )
  Parsed-step query source x xs init r v h l (inr (y, q, fails)) =
      inr
        (y, reduced-value query source x xs init r v h l ∙ q, Fails-cons query (source, x) xs fails)

  reduced-Parsed :
      (query : List (K × Raw)) (xs : List (K × MapEntry K V)) (init : List (K × V))
      → Parsed query xs init (reduced query xs init)
  unfolding reduce
  reduced-Parsed query [] init = inl (init, refl, λ k. refl)
  reduced-Parsed query ((source, x) ∷ xs) init = elim (Option-cases (JsMap.get source query)) [
    | inl h ↦ Parsed-skip query source x xs init h (reduced-Parsed query xs init)
    | inr (r, h) ↦ elim (Result-cases (x.parser r)) [
      | inl (v, l) ↦
          Parsed-step query source x xs init r v h l
            (reduced-Parsed query xs (JsMap.set x.target v init))
      | inr (y, l) ↦ inr (
        y,
        reduced-step query source x xs init r h
            ∙ ap (λ p. p >>= λ v. reduced query xs (JsMap.set x.target v init)) l,
        (0, source, x, r, y, refl, h, l),
      )
    ]
  ]

  rethrow-Parsed :
      (query : List (K × Raw)) (xs : List (K × MapEntry K V)) (init : List (K × V))
      (res : Result (List (K × V)))
      → Parsed query xs init res
      → ((object : List (K × V)) × (rethrow res ≡ ok object)
          × ((k : K) → JsMap.get k object ≡ or_else (latest query k xs) (JsMap.get k init)))
        ⊎ ((rethrow res ≡ err Error.parse_error) × Fails query xs)
  rethrow-Parsed query xs init res (inl (object, q, f)) = inl (object, ap rethrow q, f)
  rethrow-Parsed query xs init res (inr (y, q, fails)) = inr (ap rethrow q, fails)

  pub parse-cases :
      (functions : List (K × MapEntry K V)) (query : List (K × Raw)) (init : List (K × V))
      → ((object : List (K × V)) × (parse functions query init ≡ ok object)
          × ((k : K) → JsMap.get k object ≡ or_else (latest query k functions) (JsMap.get k init)))
        ⊎ ((parse functions query init ≡ err Error.parse_error) × Fails query functions)
  unfolding parse
  parse-cases functions query init =
      rethrow-Parsed query functions init (reduced query functions init)
        (reduced-Parsed query functions init)

  own-other :
      (query : List (K × Raw)) (k : K) (x : MapEntry K V) (o : Option Raw)
      → e.beq x.target k ≡ false
      → own query k x o ≡ none
  own-other query k x none h = refl
  own-other query k x (some r) h = ap (λ b. if b then value (x.parser r) else none) h

  abbrev pub targets_other : K → List (K × MapEntry K V) → Bool
  targets_other k [] = true
  targets_other k ((source, x) ∷ xs) = not (e.beq x.target k) && targets_other k xs

  -- A property that no entry targets gets no value from the query.
  pub latest-other :
      (query : List (K × Raw)) (k : K) (xs : List (K × MapEntry K V))
      → targets_other k xs ≡ true
      → latest query k xs ≡ none
  latest-other query k [] h = refl
  latest-other query k ((source, x) ∷ xs) h =
      ap₂ or_else (latest-other query k xs (and-right (not (e.beq x.target k)) _ h)) (
        own-other query k x (JsMap.get source query)
          (is-false (e.beq x.target k) (and-left (not (e.beq x.target k)) _ h)))
