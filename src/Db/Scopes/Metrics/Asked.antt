-- ===== src/Db/Scopes/Metrics/Asked.antt =====
-- internal/db/scopes.go: the bottles that FilterByMetric lets through, by the texts of its filters.
use data_telemetry.Prelude.{
  ◌≡◌, ◌≢◌, refl, sym, ap, ◌∙◌, ◌↔◌, ◌⊎◌, inl, inr, String, true, List, [], ◌∷◌, none, some, str_eq,
  eq_iff, Memᴰ, &&_iff, Bool-cases, Option-cases,
}
use mathlib.Core.List.Memᴰ
use mathlib.Core.Path.{subst}
use mathlib.Core.Option.{some-injective}
use data_telemetry.Errors.{Digest, ok, ok-injective, Result-cases}
use data_telemetry.Db.Models.{Float64, Bottle, Metric, Tables}
use data_telemetry.Db.Scopes.Named.{IsKeyed, Names}
use data_telemetry.Db.Scopes.Having.{Memᴰ-having}
use data_telemetry.Db.Scopes.Selectors.{Parsers}
use data_telemetry.Db.Scopes.Metrics.{
  Bound, any_value, more_than, less_than, within, metric_passes, text_cut, bounded, metric_query,
  metric_queries, filter_by_metric,
}

module _ (c : Parsers) (trim_space : String → String) where
  -- The text behind a comparison is empty, or a number for which the comparison holds.
  abbrev pub Meets : (Float64 → Type 0) → String → Type 0
  Meets compares value =
      (value ≡ "") ⊎ ((value ≢ "") × (x : Float64) × (c.parse_float value ≡ ok x) × compares x)

  -- A metric is what a filter asks for: `name>value` asks for a greater value, otherwise `name<value`
  -- for a smaller one, and any other text names a metric.
  pub data Asks (filter : String) (m : Metric) : Type 0 where
    greater :
        (value : String)
        → text_cut filter ">" ≡ some (m.name, value)
        → Meets (λ x. c.float_lt x m.value ≡ true) value
        → Asks filter m
    smaller :
        (value : String)
        → text_cut filter ">" ≡ none
        → text_cut filter "<" ≡ some (m.name, value)
        → Meets (λ x. c.float_lt m.value x ≡ true) value
        → Asks filter m
    named :
        text_cut filter ">" ≡ none
        → text_cut filter "<" ≡ none
        → m.name ≡ trim_space filter
        → Asks filter m

  -- What passes the query behind a comparison.
  bounded-Meets :
      (f : Float64 → Bound) (compares : Float64 → Type 0) (name value : String) (q : String × Bound)
      (m : Metric)
      → ((x : Float64) → (within c (f x) m.value ≡ true) ↔ compares x)
      → bounded c trim_space f name value ≡ ok q
      → (metric_passes c q m ≡ true) ↔ ((m.name ≡ name) × Meets compares value)
  unfolding bounded
  bounded-Meets f compares name value q m means e = elim (Bool-cases (str_eq value "")) [
    | inl empty ↦
        let same : (name, any_value) ≡ q = ok-injective _ _ (rw empty at e) in
        subst (λ z. (metric_passes c z m ≡ true) ↔ ((m.name ≡ name) × Meets compares value)) same
          (
            λ h. ((eq_iff m.name name).0 ((&&_iff _ _).0 h).0, inl ((eq_iff value "").0 empty)),
            λ (n, k). (&&_iff _ _).1 ((eq_iff m.name name).1 n, refl),
          )
    | inr given ↦ elim (Result-cases (c.parse_float value)) [
      | inr (x, bad) ↦ cc (rw (given, bad) at e)
      | inl (x, parsed) ↦
          let same : (name, f x) ≡ q = ok-injective _ _ (rw (given, parsed) at e) in
          subst (λ z. (metric_passes c z m ≡ true) ↔ ((m.name ≡ name) × Meets compares value)) same
            (
              λ h.
                  let (n, k) = (&&_iff (str_eq m.name name) (within c (f x) m.value)).0 h in
                  (
                    (eq_iff m.name name).0 n,
                    inr (λ b. cc (given, (eq_iff value "").1 b), x, parsed, (means x).0 k),
                  ),
              λ (n, k). (&&_iff (str_eq m.name name) (within c (f x) m.value)).1 (
                (eq_iff m.name name).1 n,
                elim k [
                  | inl b ↦ cc (given, (eq_iff value "").1 b)
                  | inr (b, y, parsed2, k2) ↦
                      (means x).1 (subst compares (ok-injective y x (sym parsed2 ∙ parsed)) k2)
                ],
              ),
            )
    ]
  ]

  metric_query-Asks :
      (filter : String) (q : String × Bound) (m : Metric)
      → metric_query c trim_space filter ≡ ok q
      → (metric_passes c q m ≡ true) ↔ Asks filter m
  unfolding metric_query
  metric_query-Asks filter q m e = elim (Option-cases (text_cut filter ">")) [
    | inr ((name, value), cut) ↦
        let meets =
          bounded-Meets more_than (λ x. c.float_lt x m.value ≡ true) name value q m
            (λ x. (λ h. h, λ h. h)) (rw (metric_query, cut) at e) in
        (
          λ h.
              let (n, k) = meets.0 h in
              Asks.greater value (cut ∙ ap (λ z. some (z, value)) (sym n)) k,
          λ a. meets.1 (of_greater name value cut a),
        )
    | inl uncut ↦ elim (Option-cases (text_cut filter "<")) [
      | inr ((name, value), cut) ↦
          let meets =
            bounded-Meets less_than (λ x. c.float_lt m.value x ≡ true) name value q m
              (λ x. (λ h. h, λ h. h)) (rw (metric_query, uncut, cut) at e) in
          (
            λ h.
                let (n, k) = meets.0 h in
                Asks.smaller value uncut (cut ∙ ap (λ z. some (z, value)) (sym n)) k,
            λ a. meets.1 (of_smaller name value uncut cut a),
          )
      | inl uncut2 ↦
          let same : (trim_space filter, any_value) ≡ q =
            ok-injective _ _ (rw (metric_query, uncut, uncut2) at e) in
          subst (λ z. (metric_passes c z m ≡ true) ↔ Asks filter m) same
            (
              λ h.
                  Asks.named uncut uncut2
                    ((eq_iff m.name (trim_space filter)).0 ((&&_iff _ _).0 h).0),
              λ a.
                  (&&_iff _ _).1
                    ((eq_iff m.name (trim_space filter)).1 (of_named uncut uncut2 a), refl),
            )
    ]
  ]
    where
      of_greater :
          (name value : String)
          → text_cut filter ">" ≡ some (name, value)
          → Asks filter m
          → (m.name ≡ name) × Meets (λ x. c.float_lt x m.value ≡ true) value
      of_greater name value cut (Asks.greater v e' k) =
          let same = some-injective (m.name, v) (name, value) (sym e' ∙ cut) in
          (
            ap (λ r. r.0) same,
            subst (λ z. Meets (λ x. c.float_lt x m.value ≡ true) z) (ap (λ r. r.1) same) k,
          )
      of_greater name value cut (Asks.smaller v e' f k) = cc (cut, e')
      of_greater name value cut (Asks.named e' f k) = cc (cut, e')

      of_smaller :
          (name value : String)
          → text_cut filter ">" ≡ none
          → text_cut filter "<" ≡ some (name, value)
          → Asks filter m
          → (m.name ≡ name) × Meets (λ x. c.float_lt m.value x ≡ true) value
      of_smaller name value uncut cut (Asks.greater v e' k) = cc (uncut, e')
      of_smaller name value uncut cut (Asks.smaller v e' f k) =
          let same = some-injective (m.name, v) (name, value) (sym f ∙ cut) in
          (
            ap (λ r. r.0) same,
            subst (λ z. Meets (λ x. c.float_lt m.value x ≡ true) z) (ap (λ r. r.1) same) k,
          )
      of_smaller name value uncut cut (Asks.named e' f k) = cc (cut, f)

      of_named :
          text_cut filter ">" ≡ none
          → text_cut filter "<" ≡ none
          → Asks filter m
          → m.name ≡ trim_space filter
      of_named uncut uncut2 (Asks.greater v e' k) = cc (uncut, e')
      of_named uncut uncut2 (Asks.smaller v e' f k) = cc (uncut2, f)
      of_named uncut uncut2 (Asks.named e' f k) = k

  -- Every filter has its query, and every query is that of a filter.
  abbrev Answered : List String → List (String × Bound) → Type 0
  Answered filters qs =
      ((s : String)
        → Memᴰ s filters
        → (q : String × Bound) × Memᴰ q qs × (metric_query c trim_space s ≡ ok q))
      × ((q : String × Bound)
          → Memᴰ q qs
          → (s : String) × Memᴰ s filters × (metric_query c trim_space s ≡ ok q))

  metric_queries-Answered :
      (filters : List String) (qs : List (String × Bound))
      → metric_queries c trim_space filters ≡ ok qs
      → Answered filters qs
  unfolding metric_queries
  metric_queries-Answered [] qs e = (
    λ s n. absurd (Memᴰ.not-nil n),
    λ q n. absurd (Memᴰ.not-nil (subst (λ l. Memᴰ q l) (sym (ok-injective _ _ e)) n)),
  )
  metric_queries-Answered (s ∷ ss) qs e = elim (Result-cases (metric_query c trim_space s)) [
    | inr (x, bad) ↦ cc (rw (metric_queries, bad) at e)
    | inl (q, first) ↦ elim (Result-cases (metric_queries c trim_space ss)) [
      | inr (x, bad) ↦ cc (rw (metric_queries, first, bad) at e)
      | inl (rest, more) ↦
          let (there, back) = metric_queries-Answered ss rest more in
          let same : q ∷ rest ≡ qs = ok-injective _ _ (rw (metric_queries, first, more) at e) in
          subst (λ l. Answered (s ∷ ss) l) same
            (
              λ f n. elim (Memᴰ.cases_cons n) [
                | inl here ↦ (q, Memᴰ.head refl, ap (metric_query c trim_space) here ∙ first)
                | inr later ↦ let (p, at, k) = there f later in (p, Memᴰ.tail at, k)
              ],
              λ p n. elim (Memᴰ.cases_cons n) [
                | inl here ↦ (s, Memᴰ.head refl, first ∙ ap ok (sym here))
                | inr later ↦ let (f, at, k) = back p later in (f, Memᴰ.tail at, k)
              ],
            )
    ]
  ]

  -- In tables with unique digests and one bottle for each data record, if all filters parse,
  -- FilterByMetric lets through exactly the bottles of the table that have a digest and, for each
  -- filter, a metric that it asks for: of its name, and with a value above, below or not bounded by its
  -- number.
  pub filter_by_metric_lem :
      (t : Tables) (filters : List String) (qs : List (String × Bound))
      → IsKeyed t
      → metric_queries c trim_space filters ≡ ok qs
      → (kept : List Bottle) × (filter_by_metric c trim_space filters t t.bottles ≡ ok kept)
        × ((b : Bottle)
            → Memᴰ b kept ↔ (
                Memᴰ b t.bottles
                × (x : Digest) × Names t b x
                × ((s : String) → Memᴰ s filters → (m : Metric) × Memᴰ m b.metrics × Asks s m)))
  unfolding filter_by_metric
  filter_by_metric_lem t filters qs keys parsed =
      let (there, back) = metric_queries-Answered filters qs parsed in
      (
        _,
        rw (filter_by_metric, parsed) refl,
        λ b.
            let rows = Memᴰ-having (λ b. b.metrics) (metric_passes c) t keys qs b in
            (
              λ k.
                  let (n, x, names, all) = rows.0 k in
                  (
                    n,
                    x,
                    names,
                    λ s at.
                        let (q, at', e) = there s at in
                        let (m, own, h) = all q at' in (m, own, (metric_query-Asks s q m e).0 h),
                  ),
              λ (n, x, names, all). rows.1 (
                n,
                x,
                names,
                λ q at.
                    let (s, at', e) = back q at in
                    let (m, own, h) = all s at' in (m, own, (metric_query-Asks s q m e).1 h),
              ),
            ),
      )
