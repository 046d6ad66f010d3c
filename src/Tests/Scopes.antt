-- ===== src/Tests/Scopes.antt =====
-- Examples for internal/db/scopes.go, on a table of two bottles: the second has the first as a source
-- and deprecates it.
use data_telemetry.Prelude.{
  ℕ, ◌≡◌, refl, sym, ap, ◌∙◌, ◌↔◌, true, String, List, [], ◌∷◌, Memᴰ, some, ltb, false, str_eq,
  eq_iff, inl, inr, if◌then◌else◌, ◌<>◌, Bool, ◌⊎◌,
}
use mathlib.Core.List.Memᴰ
use data_telemetry.Errors.{Digest, ok, fail, message}
use data_telemetry.Db.Models.{
  Author, Bottle, Source, DigestAlias, Part, Label, Metric, Deprecates, Tables,
}
use data_telemetry.Db.Scopes.{parents_of, children_of, exclude_deprecated, filter_by_parts}
use data_telemetry.Db.Scopes.Named.{IsKeyed, Names}
use data_telemetry.Db.Scopes.Family.{parents_of-children_of}
use data_telemetry.Db.Scopes.Deprecation.{
  IsDeprecated, deprecated_by_digest, deprecating_digests, deprecated_by_digest-deprecating_digests,
}
use data_telemetry.Db.Scopes.Filters.{HasPart, exclude_deprecated_lem, filter_by_parts-HasPart}
use data_telemetry.Db.Scopes.Authors.{search_by_author, IsMeant, search_by_author_lem}
use data_telemetry.Db.Scopes.Metrics.{Bound, less_than, metric_queries, filter_by_metric}
use data_telemetry.Db.Scopes.Metrics.Asked.{Asks, filter_by_metric_lem}
use data_telemetry.Db.Scopes.Selectors.{
  Parsers, Condition, labelled, not_labelled, Requirement, equals, not_equals, filter_by_selectors,
  clauses,
}
use data_telemetry.Db.Scopes.Selectors.Matching.{HasIds, selected}
use data_telemetry.Db.Scopes.Selectors.Rows.{filter_by_selectors-selected}

abbrev pub bottle : ℕ → List Source → List Label → List Part → List Deprecates → Bottle
bottle i sources labels parts deprecates = record {
  base = record {
    id = i;
    created_at = 0;
    processor_version = 11;
    content = record { id = i; raw_data = []; canonical_digest = "" };
    data_id = i;
  };
  api_version = "";
  description = "";
  authors = [];
  sources = sources;
  metrics = record { id = 1; location = 0; name = "loss"; description = ""; value = i } ∷ [];
  public_artifacts = [];
  labels = labels;
  annotations = [];
  parts = parts;
  deprecates = deprecates;
}

abbrev pub label : String → String → Label
label key value = record { id = 0; key = key; value = value; numeric_value = 0 }

abbrev old : Bottle
old = bottle 1 [] (label "kind" "raw" ∷ []) [] []

abbrev pub part : Part
part = record { id = 1; location = 0; name = "x"; size = 1; digest = "sha256:x"; labels = [] }

abbrev pub newer : Bottle
newer =
    bottle 2
      (record {
        id = 1;
        location = 0;
        name = "";
        uri = "";
        bottle_digest = "sha256:o";
        part_selectors = [];
      }
        ∷ [])
      (label "kind" "clean" ∷ label "team" "a" ∷ []) (part ∷ [])
      (record { id = 1; deprecated_bottle_digest = "sha256:o" } ∷ [])

abbrev old_alias : DigestAlias
old_alias = record { id = 1; data_id = 1; digest = "sha256:o" }

abbrev newer_alias : DigestAlias
newer_alias = record { id = 2; data_id = 2; digest = "sha256:n" }

abbrev tables : Tables
tables = record {
  data_rows = [];
  digests = old_alias ∷ newer_alias ∷ [];
  blobs = [];
  bottles = old ∷ newer ∷ [];
  manifests = [];
  events = [];
  signatures = [];
}

-- What holds of all pairs from a list of two.
of_two :
    {A : Type 0} (x y : A) (P : A → A → Type 0) (a b : A)
    → Memᴰ a (x ∷ y ∷ [])
    → Memᴰ b (x ∷ y ∷ [])
    → ((a ≡ x) → (b ≡ x) → P a b)
    → ((a ≡ x) → (b ≡ y) → P a b)
    → ((a ≡ y) → (b ≡ x) → P a b)
    → ((a ≡ y) → (b ≡ y) → P a b)
    → P a b
of_two x y P a b m n xx xy yx yy = elim (Memᴰ.cases_cons m) [
  | inl e ↦ elim (Memᴰ.cases_cons n) [ inl f ↦ xx e f | inr f ↦ xy e (Memᴰ.eq_of_singleton f) ]
  | inr e ↦ elim (Memᴰ.cases_cons n) [
    | inl f ↦ yx (Memᴰ.eq_of_singleton e) f
    | inr f ↦ yy (Memᴰ.eq_of_singleton e) (Memᴰ.eq_of_singleton f)
  ]
]

-- A field on which the two differ tells them apart.
apart :
    {A B : Type 0} (x y : A) (f : A → B) (a b : A) → (f x ≡ f y → ⊥) → a ≡ x → b ≡ y → f a ≡ f b → ⊥
apart x y f a b no' e e' h = no' (sym (ap f e) ∙ h ∙ ap f e')

distinct : (a b : String) → str_eq a b ≡ false → a ≡ b → ⊥
distinct a b h e = cc (h, (eq_iff a b).1 e)

keys : IsKeyed tables
keys = record {
  one_data = λ a b m n.
      of_two old_alias newer_alias (λ a b. a.digest ≡ b.digest → a.data_id ≡ b.data_id) a b m n
        (λ e f h. ap (λ (z : DigestAlias). z.data_id) (e ∙ sym f))
        (λ e f h.
          absurd (apart old_alias newer_alias (λ z. z.digest) a b (distinct _ _ refl) e f h))
        (λ e f h.
          absurd (apart newer_alias old_alias (λ z. z.digest) a b (distinct _ _ refl) e f h))
        (λ e f h. ap (λ (z : DigestAlias). z.data_id) (e ∙ sym f));
  one_bottle = λ a b m n.
      of_two old newer (λ a b. a.base.data_id ≡ b.base.data_id → a ≡ b) a b m n (λ e f h. e ∙ sym f)
        (λ e f h. absurd (apart old newer (λ z. z.base.data_id) a b (λ x. cc) e f h))
        (λ e f h. absurd (apart newer old (λ z. z.base.data_id) a b (λ x. cc) e f h))
        (λ e f h. e ∙ sym f);
}

ids : HasIds tables
ids a b m n =
    of_two old newer (λ a b. a.base.id ≡ b.base.id → a ≡ b) a b m n (λ e f h. e ∙ sym f)
      (λ e f h. absurd (apart old newer (λ z. z.base.id) a b (λ x. cc) e f h))
      (λ e f h. absurd (apart newer old (λ z. z.base.id) a b (λ x. cc) e f h)) (λ e f h. e ∙ sym f)

old_named : Names tables old "sha256:o"
old_named = (old_alias, Memᴰ.head refl, refl, refl)

newer_named : Names tables newer "sha256:n"
newer_named = (newer_alias, Memᴰ.tail (Memᴰ.head refl), refl, refl)

parents_of-children_of_example :
    Memᴰ old (parents_of ("sha256:n" ∷ []) tables (old ∷ newer ∷ []))
    ↔ Memᴰ newer (children_of ("sha256:o" ∷ []) tables (old ∷ newer ∷ []))
parents_of-children_of_example =
    parents_of-children_of tables old newer "sha256:o" "sha256:n" keys (Memᴰ.head refl)
      (Memᴰ.tail (Memᴰ.head refl)) old_named newer_named

deprecated_by_digest-deprecating_digests_example :
    Memᴰ "sha256:o" (deprecated_by_digest "sha256:n" tables) ↔ (
      Memᴰ "sha256:n" (deprecating_digests "sha256:o" tables)
      × (c : Bottle) × Memᴰ c (old ∷ newer ∷ [])
      × Names tables c "sha256:o")
deprecated_by_digest-deprecating_digests_example =
    deprecated_by_digest-deprecating_digests tables "sha256:n" "sha256:o"

exclude_deprecated_lem_example :
    Memᴰ old (exclude_deprecated tables (old ∷ newer ∷ []))
    ↔ (Memᴰ old (old ∷ newer ∷ []) × (d : Digest) × Names tables old d × (¬ IsDeprecated tables d))
exclude_deprecated_lem_example = exclude_deprecated_lem tables (old ∷ newer ∷ []) old

filter_by_parts-HasPart_example :
    Memᴰ newer (filter_by_parts ("sha256:x" ∷ []) tables (old ∷ newer ∷ [])) ↔ (
      Memᴰ newer (old ∷ newer ∷ [])
      × (x : Digest) × Names tables newer x
      × ((d : Digest) → Memᴰ d ("sha256:x" ∷ []) → HasPart newer d))
filter_by_parts-HasPart_example = filter_by_parts-HasPart tables ("sha256:x" ∷ []) newer keys

-- `kind=clean` and `kind!=raw`
abbrev pub requirements : String → List Requirement
requirements s =
    record { key = "kind"; operator = equals; values = "clean" ∷ [] }
    ∷ record { key = "kind"; operator = not_equals; values = "raw" ∷ [] }
    ∷ []

abbrev pub parsers : Parsers
parsers = record {
  parse_selector = λ s. ok (some (requirements s));
  parse_float = λ s. if str_eq s "2" then ok 2 else fail (message "");
  nan = 0;
  float_lt = λ a b. ltb a b;
}

abbrev clean_only : List Condition
clean_only = labelled "kind" ("clean" ∷ []) ∷ not_labelled "kind" ("raw" ∷ []) ∷ []

parsed : clauses parsers ("kind=clean,kind!=raw" ∷ []) ≡ ok (clean_only ∷ [], true)
unfolding clauses
parsed = refl

filter_by_selectors-selected_example :
    (kept : List Bottle) × (filter_by_selectors parsers
        ("kind=clean,kind!=raw" ∷ [])
        tables
        (old ∷ newer ∷ [])
      ≡ ok kept)
    × ((b : Bottle)
        → Memᴰ b kept
          ↔ (Memᴰ b (old ∷ newer ∷ []) × (selected parsers (clean_only ∷ []) b.labels ≡ true)))
filter_by_selectors-selected_example =
    filter_by_selectors-selected parsers ("kind=clean,kind!=raw" ∷ []) tables (old ∷ newer ∷ [])
      clean_only [] ids (λ b m. m) parsed

abbrev low_loss : String × Bound
low_loss = ("loss", less_than 2)

metrics_parsed : metric_queries parsers (λ s. s) ("loss<2" ∷ []) ≡ ok (low_loss ∷ [])
unfolding metric_queries
metrics_parsed = refl

filter_by_metric_lem_example :
    (kept : List Bottle) × (filter_by_metric parsers
        (λ s. s)
        ("loss<2" ∷ [])
        tables
        (old ∷ newer ∷ [])
      ≡ ok kept)
    × ((b : Bottle)
        → Memᴰ b kept ↔ (
            Memᴰ b (old ∷ newer ∷ [])
            × (x : Digest) × Names tables b x
            × ((s : String)
                → Memᴰ s ("loss<2" ∷ [])
                → (m : Metric) × Memᴰ m b.metrics × Asks parsers (λ s. s) s m)))
filter_by_metric_lem_example =
    filter_by_metric_lem parsers (λ s. s) tables ("loss<2" ∷ []) (low_loss ∷ []) keys metrics_parsed

abbrev author : Author
author = record { id = 1; location = 0; name = "Ann"; url = ""; email = "ann@lab" }

abbrev authored : Bottle
authored = record old { authors = author ∷ [] }

abbrev like : String → String → Bool
like text pattern = str_eq ("%" <> text <> "%") pattern

by_email : search_by_author like "ann@lab" (newer ∷ authored ∷ []) ≡ authored ∷ []
unfolding search_by_author
by_email = refl

abbrev ann : String
ann = "Ann"

search_by_author_lem_example : Memᴰ authored (search_by_author like ann (newer ∷ authored ∷ [])) ↔ (
    Memᴰ authored (newer ∷ authored ∷ [])
    × ((ann ≡ "") ⊎ ((a : Author) × Memᴰ a (author ∷ []) × IsMeant like ann a)))
search_by_author_lem_example = search_by_author_lem like ann (newer ∷ authored ∷ []) authored
