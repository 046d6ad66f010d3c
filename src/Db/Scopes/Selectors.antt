-- ===== src/Db/Scopes/Selectors.antt =====
-- internal/db/scopes.go: FilterBySelectors. The scope joins the labels once for each requirement
-- (a LEFT JOIN) and asks for a disjunction, over the selectors, of conjunctions of conditions.
-- labels.Parse of Kubernetes, the parsing of floats and SQL's order on them are parameters. Of
-- several errors the first is kept; gorm joins their texts.
pub mod Matching
pub mod Rows
use data_telemetry.Prelude.{
  ℕ, String, ◌<>◌, Bool, true, false, not, ◌&&◌, ◌||◌, List, [], ◌∷◌, ◌++◌, map, Option, none, some,
  str_eq, ◌==◌, if◌then◌else◌, select, any,
}
use data_telemetry.Errors.{GoError, message, http_error, Result, ok, fail}
use data_telemetry.Db.Models.{Float64, Label, Bottle, Tables}
use data_telemetry.Db.Joins.{owned}
use data_telemetry.Db.Scopes.{is_in}

-- k8s.io/apimachinery/pkg/selection.Operator
pub data Operator : Type 0 where
  equals : Operator
  double_equals : Operator
  not_equals : Operator
  in_set : Operator
  not_in_set : Operator
  exists : Operator
  does_not_exist : Operator
  greater_than : Operator
  less_than : Operator

-- labels.Requirement, with its set of values as a list: `PopAny` takes the first.
pub record Requirement : Type 0 where
  pub key : String
  pub operator : Operator
  pub values : List String

-- The parameters: labels.Parse with `Requirements()` (`none` where the selector selects nothing),
-- strconv.ParseFloat, NaN, and SQL's `a < b`.
pub record Parsers : Type 0 where
  pub parse_selector : String → Result (Option (List Requirement))
  pub parse_float : String → Result Float64
  pub nan : Float64
  pub float_lt : Float64 → Float64 → Bool

-- The SQL conditions, on a joined label and the bottle.
pub data Condition : Type 0 where
  -- label.key = ? AND label.value IN ?
  labelled : String → List String → Condition
  -- label.key = ?
  has_key : String → Condition
  -- label.key = ? AND label.numeric_value > ?
  above : String → Float64 → Condition
  -- label.key = ? AND label.numeric_value < ?
  below : String → Float64 → Condition
  -- bottles.id NOT IN (SELECT bottle_id FROM labels WHERE key = ? AND value IN (?))
  not_labelled : String → List String → Condition
  -- bottles.id NOT IN (SELECT bottle_id FROM labels WHERE key = ?)
  without_key : String → Condition

-- `PopAny`, with the error that the code calls impossible.
abbrev pub pop_any : String → List String → Result String
pop_any key [] = fail (message ("value is required for key " <> key))
pop_any key (v ∷ vs) = ok v

module _ (c : Parsers) where
  abbrev pub float_of : String → Result String → Result Float64
  float_of key (fail e) = fail e
  float_of key (ok v) = elim (c.parse_float v) [
    | ok x ↦ ok x
    | fail e ↦ fail (message ("value must be a float for key " <> key))
  ]

  -- Label.BeforeSave
  unfoldable pub label_before_save : Label → Label
  label_before_save l = record l {
    numeric_value = elim (c.parse_float l.value) [ ok x ↦ x | fail e ↦ c.nan ];
  }

  abbrev pub with_value : {A : Type 0} → (A → Condition) → Result A → Result Condition
  with_value f (ok a) = ok (f a)
  with_value f (fail e) = fail e

  unfoldable pub condition_for_requirement : Requirement → Result Condition
  condition_for_requirement r = elim r.operator [
    | equals ↦ with_value (λ v. labelled r.key (v ∷ [])) (pop_any r.key r.values)
    | double_equals ↦ with_value (λ v. labelled r.key (v ∷ [])) (pop_any r.key r.values)
    | not_equals ↦ with_value (λ v. not_labelled r.key (v ∷ [])) (pop_any r.key r.values)
    | in_set ↦ ok (labelled r.key r.values)
    | not_in_set ↦ ok (not_labelled r.key r.values)
    | exists ↦ ok (has_key r.key)
    | does_not_exist ↦ ok (without_key r.key)
    | greater_than ↦ with_value (above r.key) (float_of r.key (pop_any r.key r.values))
    | less_than ↦ with_value (below r.key) (float_of r.key (pop_any r.key r.values))
  ]

  -- The loop over the requirements of a selector.
  unfoldable pub conditions : List Requirement → Result (List Condition)
  unfolding condition_for_requirement
  conditions [] = ok []
  conditions (r ∷ rs) =
      let rest = conditions rs in
      elim (condition_for_requirement r) [
        | fail e ↦ fail e
        | ok x ↦ elim rest [ ok xs ↦ ok (x ∷ xs) | fail e ↦ fail e ]
      ]

  -- What the loop over the selectors has collected, and whether it came to its end: a selector
  -- without requirements ends it, and with it the filter, but the joins made so far stay.
  unfoldable pub clauses : List String → Result (List (List Condition) × Bool)
  unfolding conditions
  clauses [] = ok ([], true)
  clauses (s ∷ ss) =
      let rest = clauses ss in
      elim (c.parse_selector s) [
        | fail e ↦ fail (http_error 400 "")
        | ok none ↦ ok ([], false)
        | ok (some []) ↦ ok ([], false)
        | ok (some (r ∷ rs)) ↦ elim (conditions (r ∷ rs)) [
          | fail e ↦ fail e
          | ok xs ↦ elim rest [ fail e ↦ fail e | ok (cs, whole) ↦ ok (xs ∷ cs, whole) ]
        ]
      ]

  -- The value of a condition for a bottle and a joined label, which is NULL where a bottle has none.
  unfoldable pub holds : Tables → Bottle → Condition → Option Label → Bool
  holds t b (labelled k vs) (some l) = str_eq l.key k && is_in vs l.value
  holds t b (has_key k) (some l) = str_eq l.key k
  holds t b (above k x) (some l) = str_eq l.key k && c.float_lt x l.numeric_value
  holds t b (below k x) (some l) = str_eq l.key k && c.float_lt l.numeric_value x
  holds t b (labelled k vs) none = false
  holds t b (has_key k) none = false
  holds t b (above k x) none = false
  holds t b (below k x) none = false
  holds t b (not_labelled k vs) l = not (
      any (λ (o : Bottle × Label). o.0.base.id == b.base.id)
        (select (λ o. str_eq o.1.key k && is_in vs o.1.value)
          (owned (λ (o : Bottle). o.labels) t.bottles)))
  holds t b (without_key k) l = not (
      any (λ (o : Bottle × Label). o.0.base.id == b.base.id)
        (select (λ o. str_eq o.1.key k) (owned (λ (o : Bottle). o.labels) t.bottles)))

-- LEFT JOIN labels: a row of NULLs for a bottle without labels.
abbrev pub or_null : List Label → List (Option Label)
or_null [] = none ∷ []
or_null (l ∷ ls) = some l ∷ map some ls

-- The rows that the joins of a selector, and of all selectors, make of a bottle.
abbrev pub joined_labels : Bottle → List Condition → List (List (Option Label))
joined_labels b [] = [] ∷ []
joined_labels b (x ∷ xs) = map (λ r. r.0 ∷ r.1) (owned (λ l. joined_labels b xs) (or_null b.labels))

abbrev pub joined_rows : Bottle → List (List Condition) → List (List (List (Option Label)))
joined_rows b [] = [] ∷ []
joined_rows b (xs ∷ cs) = map (λ r. r.0 ∷ r.1) (owned (λ l. joined_rows b cs) (joined_labels b xs))

module _ (c : Parsers) (t : Tables) (b : Bottle) where
  -- The conjunction of a selector and the disjunction of the selectors, on one row.
  unfoldable pub all_hold : List Condition → List (Option Label) → Bool
  unfolding holds
  all_hold [] ls = true
  all_hold (x ∷ xs) [] = false
  all_hold (x ∷ xs) (l ∷ ls) = holds c t b x l && all_hold xs ls

  unfoldable pub some_hold : List (List Condition) → List (List (Option Label)) → Bool
  unfolding all_hold
  some_hold [] rows = false
  some_hold (xs ∷ cs) [] = false
  some_hold (xs ∷ cs) (ls ∷ rows) = all_hold xs ls || some_hold cs rows

-- A condition without a clause is no condition.
abbrev pub where_some :
    Parsers
    → Tables
    → List (List Condition)
    → Bool
    → List (Bottle × List (List (Option Label)))
    → List (Bottle × List (List (Option Label)))
where_some c t cs false rows = rows
where_some c t [] true rows = rows
where_some c t (xs ∷ cs) true rows = select (λ r. some_hold c t r.0 (xs ∷ cs) r.1) rows

unfoldable pub filter_by_selectors :
    Parsers → List String → Tables → List Bottle → Result (List Bottle)
unfolding clauses
filter_by_selectors c selectors t rows = elim (clauses c selectors) [
  | fail e ↦ fail e
  | ok (cs, whole) ↦
      ok (map (λ r. r.0) (where_some c t cs whole (owned (λ b. joined_rows b cs) rows)))
]
