-- ===== src/Webapp/Ancestors.antt =====
-- internal/webapp/ancestors.go: the ancestors of a bottle of every kind, and the link from a source
-- of the bottle to its entry. The charts are not modelled. `sprintf` is fmt.Sprintf with a number.
pub mod Loops
pub mod Links
use data_telemetry.Prelude.{ℕ, String, Option, none, some, List, ◌+◌, length, str_eq, if◌then◌else◌}
use data_telemetry.Db.Models.{Source}
use data_telemetry.Db.Relatives.{
  BottleRelative, NonBottleRelative, UnknownBottleRelative, Generation, bottle_matches_source,
  non_bottle_matches_source, unknown_matches_source, get_non_bottle_parents,
  get_unknown_bottle_parents, first_index,
}

pub record ExtendedAncestors : Type 0 where
  pub non_bottles : List NonBottleRelative
  pub unknown_bottles : List UnknownBottleRelative
  pub bottles : List BottleRelative

unfoldable pub new_extended_ancestors : Generation → Generation → ExtendedAncestors
unfolding get_non_bottle_parents get_unknown_bottle_parents
new_extended_ancestors ancestors current = record {
  non_bottles = get_non_bottle_parents current;
  unknown_bottles = get_unknown_bottle_parents ancestors current;
  bottles = ancestors;
}

unfoldable pub size : ExtendedAncestors → ℕ
size g = length g.non_bottles + length g.unknown_bottles + length g.bottles

unfoldable pub find_relative :
    (String → ℕ → String) → ExtendedAncestors → String → String → String → Source → String
unfolding bottle_matches_source non_bottle_matches_source unknown_matches_source
find_relative sprintf g non_bottle_format unknown_bottle_format known_bottle_format source =
    if str_eq source.bottle_digest ""
    then elim (first_index (non_bottle_matches_source source) 0 g.non_bottles) [
      | some i ↦ sprintf non_bottle_format i
      | none ↦ ""
    ]
    else elim (first_index (unknown_matches_source source) 0 g.unknown_bottles) [
      | some i ↦ sprintf unknown_bottle_format i
      | none ↦ elim (first_index (bottle_matches_source source) 0 g.bottles) [
        | some i ↦ sprintf known_bottle_format i
        | none ↦ ""
      ]
    ]
