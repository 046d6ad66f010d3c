-- ===== src/Db/Scopes/Metrics.antt =====
-- internal/db/scopes.go: FilterByMetric. strings.TrimSpace is a parameter, as are the parsing of floats
-- and SQL's order on them.
pub mod Asked
use data_telemetry.Prelude.{
  ◌+◌, ◌≡◌, refl, ◌↔◌, String, ◌<>◌, Bool, true, ◌&&◌, List, [], ◌∷◌, map, Option, none, some,
  str_eq, Memᴰ, if◌then◌else◌,
}
use Prim.Native.String.{slice, len}
use text.Mathlib.Text.{find?}
use data_telemetry.Errors.{Digest, message, Result, ok, fail}
use data_telemetry.Db.Models.{Float64, Bottle, Metric, Tables}
use data_telemetry.Db.Scopes.{with_digests, having}
use data_telemetry.Db.Scopes.Selectors.{Parsers}

-- `strings.Cut`, where the separator is in the text.
unfoldable pub text_cut : String → String → Option (String × String)
text_cut text sep = elim (find? text sep) [
  | none ↦ none
  | some i ↦ some (slice text 0 i, slice text (i + len sep) (len text))
]

-- The condition on the value of a metric.
pub data Bound : Type 0 where
  any_value : Bound
  more_than : Float64 → Bound
  less_than : Float64 → Bound

module _ (c : Parsers) where
  abbrev pub within : Bound → Float64 → Bool
  within any_value v = true
  within (more_than x) v = c.float_lt x v
  within (less_than x) v = c.float_lt v x

  abbrev pub metric_passes : String × Bound → Metric → Bool
  metric_passes q m = str_eq m.name q.0 && within q.1 m.value

module _ (c : Parsers) (trim_space : String → String) where
  -- What stands behind the comparison, if anything does.
  unfoldable pub bounded : (Float64 → Bound) → String → String → Result (String × Bound)
  bounded f name value =
      if str_eq value "" then ok (name, any_value) else elim (c.parse_float value) [
        | ok x ↦ ok (name, f x)
        | fail e ↦
            fail (message ("metric filter value must be a float for " <> name <> ": " <> value))
      ]

  unfoldable pub metric_query : String → Result (String × Bound)
  unfolding text_cut bounded
  metric_query metric = elim (text_cut metric ">") [
    | some (name, value) ↦ bounded more_than name value
    | none ↦ elim (text_cut metric "<") [
      | some (name, value) ↦ bounded less_than name value
      | none ↦ ok (trim_space metric, any_value)
    ]
  ]

  unfoldable pub metric_queries : List String → Result (List (String × Bound))
  unfolding metric_query
  metric_queries [] = ok []
  metric_queries (s ∷ ss) =
      let rest = metric_queries ss in
      elim (metric_query s) [
        | fail e ↦ fail e
        | ok q ↦ elim rest [ ok qs ↦ ok (q ∷ qs) | fail e ↦ fail e ]
      ]

  unfoldable pub filter_by_metric : List String → Tables → List Bottle → Result (List Bottle)
  unfolding metric_queries with_digests having
  filter_by_metric filters t rows = elim (metric_queries filters) [
    | ok qs ↦
        ok (map (λ r. r.0) (having (λ b. b.metrics) (metric_passes c) qs t (with_digests t rows)))
    | fail e ↦ fail e
  ]
