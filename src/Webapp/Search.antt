-- ===== src/Webapp/Search.antt =====
-- internal/webapp/search.go: the parameters of a search for bottles and their validation.
-- digest.Digest.Validate is a parameter, as is labels.Parse.
pub mod Valid
use data_telemetry.Prelude.{
  ℕ, String, ◌<>◌, ◌≡◌, refl, ◌∙◌, ◌↔◌, ◌⊎◌, inl, inr, Bool, true, false, Option, none, some, List,
  [], ◌∷◌, ◌++◌, map, Memᴰ, Memᴰ-map, Memᴰ-map_self, str_eq, eq_iff, if◌then◌else◌, Bool-cases,
}
use mathlib.Core.List.Memᴰ
use data_telemetry.Errors.{GoError, Digest, message, Result, ok, fail, wrap, Status, join}
use data_telemetry.Types.{Time}
use data_telemetry.Db.Scopes.Metrics.{text_cut}
use data_telemetry.Db.Scopes.Selectors.{Parsers, Requirement}

pub record BottleRequestParams : Type 0 where
  pub bottle : Digest
  pub label_selectors : List String
  pub author : String
  pub description : String
  pub signature_fingerprint : Digest
  pub signature_annotations : List String
  pub parents_of : Digest
  pub children_of : Digest
  pub deprecated_by : Digest
  pub deprecates : Digest
  pub show_deprecated : Bool
  pub part_digests : List Digest
  pub limit : ℕ
  pub metrics : List String
  pub sort_by_metric : String
  pub metric_sort_ascending : Bool
  pub page : ℕ
  pub created_before : Time
  pub bottle_repo : String

-- `len(strings.Split(s, "=")) == 2`
unfoldable pub splits_in_two : String → Bool
unfolding text_cut
splits_in_two s = elim (text_cut s "=") [
  | none ↦ false
  | some (key, value) ↦ elim (text_cut value "=") [ none ↦ true | some p ↦ false ]
]

-- `multiError = errors.Join(multiError, err)`, where there is an error.
unfoldable pub add_error : Status → Status → Status
unfolding join
add_error acc r = join (acc ∷ r ∷ [])

unfoldable pub add_errors : Status → List Status → Status
unfolding add_error
add_errors acc [] = acc
add_errors acc (r ∷ rs) = add_errors (add_error acc r) rs

-- The digests that are validated, with the names of their parameters.
unfoldable pub digest_params : BottleRequestParams → List (String × Digest)
digest_params p =
    ("bottle", p.bottle)
    ∷ ("signature-fingerprint", p.signature_fingerprint)
    ∷ ("parents-of", p.parents_of)
    ∷ ("children-of", p.children_of)
    ∷ ("deprecated-by", p.deprecated_by)
    ∷ ("deprecates", p.deprecates)
    ∷ map (λ d. ("part-digest", d)) p.part_digests

abbrev pub invalid_param : String → String → String
invalid_param field value = "invalid search param \"" <> field <> "\" (" <> value <> ")"

abbrev pub parsed_or : {A : Type 0} → String → Result A → Status
parsed_or text (ok a) = ok tt
parsed_or text (fail e) = fail (GoError.wrapped text e)

module _ (validate_digest : Digest → Status) (c : Parsers) where
  unfoldable pub check_digest : String × Digest → Status
  check_digest (field, d) =
      if str_eq d "" then ok tt else wrap (invalid_param field d) (validate_digest d)

  unfoldable pub check_selector : String → Status
  check_selector s = parsed_or (invalid_param "label-selector" s) (c.parse_selector s)

  unfoldable pub check_annotation : String → Status
  unfolding splits_in_two
  check_annotation s =
      if splits_in_two s then ok tt else fail (message (invalid_param "signature-annotation" s))

  unfoldable pub validate : BottleRequestParams → Status
  unfolding add_errors digest_params check_digest check_selector check_annotation
  validate p = add_errors (ok tt) (
      map check_digest (digest_params p)
      ++ (map check_selector p.label_selectors ++ map check_annotation p.signature_annotations))
