-- ===== src/Tests/Pages.antt =====
-- Examples for the pages of internal/webapp: tooltips, the selection of parts, and searches.
use data_telemetry.Prelude.{
  ℕ, ◌+◌, ◌≤◌, ◌<◌, ◌≡◌, refl, ◌↔◌, ◌⊎◌, String, Bool, true, false, List, [], ◌∷◌, ◌++◌, length,
  select, Memᴰ, if◌then◌else◌, arith,
}
use text.Mathlib.Text.{starts_with}
use data_telemetry.Errors.{Digest, Bytes, Status, ok, fail, message}
use data_telemetry.Db.Models.{Part, PublicArtifact}
use data_telemetry.Db.Relatives.{BottleRelative}
use data_telemetry.Webapp.Tooltips.{
  truncate_kv_field, total_len, truncate_kv_field_longest, ellipsis, truncate_string_field,
  truncate_string_field_bound,
}
use data_telemetry.Webapp.Partial.{
  add_parts_to_bottle_with_selector, get_bottle_total_size, total_of_sizes,
  get_bottle_total_size_bound, add_parts_to_bottle_with_selector-artifacts,
}
use data_telemetry.Webapp.Search.{BottleRequestParams, validate}
use data_telemetry.Webapp.Search.Valid.{IsValidSearch, validate_lem}
use data_telemetry.Tests.Scopes.{newer, parsers}

abbrev lengths : List ℕ
lengths = 3 ∷ 4 ∷ 5 ∷ []

truncate_kv_field_longest_example :
    (left : List ℕ) × (lengths ≡ truncate_kv_field (λ n. n) 8 lengths ++ left)
    × (total_len (λ n. n) (truncate_kv_field (λ n. n) 8 lengths) ≤ 8)
    × ((x : ℕ) (xs : List ℕ)
        → left ≡ x ∷ xs
        → 8 < total_len (λ n. n) (truncate_kv_field (λ n. n) 8 lengths) + x)
truncate_kv_field_longest_example = truncate_kv_field_longest (λ n. n) 8 lengths

-- "a,bc", cut to three bytes
abbrev words : Bytes
words = 97 ∷ 44 ∷ 98 ∷ 99 ∷ []

truncate_string_field_bound_example :
    ((length words < 3) × (truncate_string_field 3 words ≡ words))
    ⊎ ((3 ≤ length words)
        × (prefix : Bytes) × (left : Bytes) × (words ≡ prefix ++ left)
        × (length prefix ≤ 3)
        × (truncate_string_field 3 words ≡ prefix ++ ellipsis))
truncate_string_field_bound_example = truncate_string_field_bound 3 words

abbrev parts : List Part
parts =
    record { id = 1; location = 0; name = "a"; size = 3; digest = ""; labels = ("k", "v") ∷ [] }
    ∷ record { id = 2; location = 1; name = "b"; size = 4; digest = ""; labels = [] }
    ∷ []

abbrev artifact : PublicArtifact
artifact = record {
  id = 1;
  location = 0;
  name = "plot";
  media_type = "";
  path = "a/plot";
  data_id = 1;
  digest = "";
}

abbrev relative : BottleRelative
relative = record {
  bottle = record newer { parts = parts; public_artifacts = artifact ∷ [] };
  digests = [];
  part_selectors = [];
}

abbrev labelled_only : List (String × String) → Bool
labelled_only [] = false
labelled_only (x ∷ xs) = true

abbrev under : String → String → Bool
under path name = starts_with path name

abbrev selection : BottleRelative
selection = add_parts_to_bottle_with_selector labelled_only under relative

selected_size : get_bottle_total_size selection ≡ 3
unfolding get_bottle_total_size add_parts_to_bottle_with_selector
selected_size = refl

get_bottle_total_size_bound_example :
    (get_bottle_total_size relative ≡ total_of_sizes parts)
    × (get_bottle_total_size selection
        ≡ total_of_sizes (select (λ (p : Part). labelled_only p.labels) parts))
    × (get_bottle_total_size selection ≤ get_bottle_total_size relative)
get_bottle_total_size_bound_example =
    get_bottle_total_size_bound labelled_only under relative (omega arith)

add_parts_to_bottle_with_selector-artifacts_example :
    Memᴰ artifact selection.bottle.public_artifacts ↔ (
      Memᴰ artifact relative.bottle.public_artifacts
      × (p : Part) × Memᴰ p selection.bottle.parts
      × (under artifact.path p.name ≡ true))
add_parts_to_bottle_with_selector-artifacts_example =
    add_parts_to_bottle_with_selector-artifacts labelled_only under relative artifact

abbrev params : BottleRequestParams
params = record {
  bottle = "";
  label_selectors = "kind=clean" ∷ [];
  author = "";
  description = "";
  signature_fingerprint = "sha256:f";
  signature_annotations = "a=b" ∷ [];
  parents_of = "";
  children_of = "";
  deprecated_by = "";
  deprecates = "";
  show_deprecated = false;
  part_digests = "sha256:x" ∷ [];
  limit = 10;
  metrics = [];
  sort_by_metric = "";
  metric_sort_ascending = false;
  page = 0;
  created_before = 0;
  bottle_repo = "";
}

abbrev digest_ok : Digest → Status
digest_ok d = if starts_with d "sha256:" then ok tt else fail (message "invalid")

valid : validate digest_ok parsers params ≡ ok tt
unfolding validate
valid = refl

validate_lem_example :
    (validate digest_ok parsers params ≡ ok tt) ↔ IsValidSearch digest_ok parsers params
validate_lem_example = validate_lem digest_ok parsers params
