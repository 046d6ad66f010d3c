-- ===== src/Tests/Rows.antt =====
-- Examples for internal/db/helpers.go, internal/db/relatives.go and internal/webapp/ancestors.go.
use data_telemetry.Prelude.{
  ℕ, ◌≡◌, refl, String, Option, some, none, List, [], ◌∷◌, ◌++◌, ◌<>◌, Memᴰ,
}
use data_telemetry.Errors.{Result, ok, fail, message}
use data_telemetry.Action.{Action}
use data_telemetry.Action.Returns.{Returns}
use data_telemetry.Db.Helpers.{number_key, process_by_key}
use data_telemetry.Db.Helpers.Match.{converted, process_by_key-matches, process_by_key-fails}
use data_telemetry.Db.Models.{Bottle, Source}
use data_telemetry.Db.Relatives.{BottleRelative}
use data_telemetry.Db.Relatives.Sources.{match_up, IsLast, match_up-IsLast}
use data_telemetry.Webapp.Ancestors.{new_extended_ancestors, find_relative}
use data_telemetry.Webapp.Ancestors.Links.{LinksTo, find_relative-LinksTo}

-- A record is its location and its text; the world lists the records that were deleted.
abbrev Row : Type 0
Row = ℕ × String

abbrev location : Row → ℕ
location r = r.0

abbrev stored_rows : List Row
stored_rows = (1, "one") ∷ (2, "two") ∷ []

abbrev find_rows : Action (List Row) (List Row)
find_rows w = (ok stored_rows, w)

abbrev delete_row : Row → Action (List Row) (Unit {0})
delete_row x w = (ok tt, w ++ (x ∷ []))

-- Keeps the old text in front; the item "bad" does not convert.
abbrev convert_row : Row → ℕ → Option String → Result Row
convert_row old k (some text) = ok (k, old.1 <> text)
convert_row old k none = fail (message "bad item")

process_by_key-matches_example :
    Returns
      (process_by_key number_key location
        (0, "")
        find_rows
        delete_row
        convert_row
        ((3, some "c") ∷ (2, some "b") ∷ []))
      []
      ((3, "c") ∷ (2, "twob") ∷ [])
      (λ w'. w' ≡ (1, "one") ∷ [])
unfolding converted
process_by_key-matches_example =
    process_by_key-matches number_key location (0, "") find_rows delete_row convert_row stored_rows
      (λ w. w) (λ w. record { value = refl; after = refl })
      (λ x w. record { value = refl; after = refl }) ((3, some "c") ∷ (2, some "b") ∷ [])
      ((3, "c") ∷ (2, "twob") ∷ []) [] (refl, (refl, tt)) (refl, (refl, tt)) refl

process_by_key-fails_example :
    ((process_by_key number_key location
        (0, "")
        find_rows
        delete_row
        convert_row
        ((3, some "c") ∷ (2, none) ∷ [])
        []).0
      ≡ fail (message "bad item"))
    × ((process_by_key number_key location
          (0, "")
          find_rows
          delete_row
          convert_row
          ((3, some "c") ∷ (2, none) ∷ [])
          []).1
        ≡ [])
unfolding converted
process_by_key-fails_example =
    process_by_key-fails number_key location (0, "") find_rows delete_row convert_row stored_rows
      (λ w. w) (λ w. record { value = refl; after = refl })
      (λ x w. record { value = refl; after = refl }) ((3, some "c") ∷ (2, none) ∷ [])
      (message "bad item") [] (refl, (refl, tt)) (refl, (refl, tt)) refl

abbrev some_source : String → String → Source
some_source uri digest = record {
  id = 0;
  location = 0;
  name = "";
  uri = uri;
  bottle_digest = digest;
  part_selectors = [];
}

abbrev bottle_with : List Source → Bottle
bottle_with sources = record {
  base = record {
    id = 0;
    created_at = 0;
    processor_version = 0;
    content = record { id = 0; raw_data = []; canonical_digest = "" };
    data_id = 0;
  };
  api_version = "";
  description = "";
  authors = [];
  sources = sources;
  metrics = [];
  public_artifacts = [];
  labels = [];
  annotations = [];
  parts = [];
  deprecates = [];
}

abbrev child : BottleRelative
child = record {
  bottle = bottle_with (some_source "https://a" "" ∷ some_source "bottle:p" "sha256:p" ∷ []);
  digests = "sha256:c" ∷ [];
  part_selectors = [];
}

abbrev parent : BottleRelative
parent = record {
  bottle = bottle_with [];
  digests = "sha512:p" ∷ "sha256:p" ∷ [];
  part_selectors = [];
}

abbrev numbered : String → ℕ → String
numbered format i = format <> "-i"

find_relative-LinksTo_example :
    LinksTo numbered
      (new_extended_ancestors (parent ∷ []) (child ∷ []))
      "url"
      "unknown"
      "known"
      (some_source "bottle:p" "sha256:p")
      (find_relative numbered
        (new_extended_ancestors (parent ∷ []) (child ∷ []))
        "url"
        "unknown"
        "known"
        (some_source "bottle:p" "sha256:p"))
find_relative-LinksTo_example =
    find_relative-LinksTo numbered "url" "unknown" "known" (parent ∷ []) (child ∷ []) 0 1 child
      (some_source "bottle:p" "sha256:p") refl refl

abbrev partial_sources : List Source
partial_sources =
    record (some_source "" "sha256:p") { part_selectors = "kind=old" ∷ [] }
    ∷ record (some_source "" "sha512:p") { part_selectors = "kind=raw" ∷ [] }
    ∷ some_source "https://a" ""
    ∷ []

abbrev selected_parent : BottleRelative
selected_parent = record parent { part_selectors = "kind=raw" ∷ [] }

selected_parent-found : Memᴰ selected_parent (match_up partial_sources (parent ∷ []))
unfolding match_up
selected_parent-found = Memᴰ.head refl

match_up-IsLast_example :
    (g : BottleRelative) × Memᴰ g (parent ∷ [])
    × (selected_parent.bottle ≡ g.bottle)
    × (selected_parent.digests ≡ g.digests)
    × IsLast g g.part_selectors partial_sources ("kind=raw" ∷ [])
match_up-IsLast_example =
    match_up-IsLast partial_sources (parent ∷ []) selected_parent selected_parent-found
