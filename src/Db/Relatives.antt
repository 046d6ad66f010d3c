-- ===== src/Db/Relatives.antt =====
-- internal/db/relatives.go: the relatives of a bottle and the generations that they form. The queries
-- that find a generation are not modelled; Sources is what FindParents does with their rows.
pub mod Sources
use data_telemetry.Prelude.{
  ℕ, zero, suc, String, Bool, Option, none, some, List, [], ◌∷◌, ◌++◌, str_eq, any, if◌then◌else◌,
}
use data_telemetry.Errors.{Digest}
use data_telemetry.Action.{Action, pure, ◌>>=◌}
use data_telemetry.Db.Models.{Bottle, Source}

pub record BottleRelative : Type 0 where
  pub bottle : Bottle
  pub digests : List Digest
  pub part_selectors : List String

pub record NonBottleRelative : Type 0 where
  pub uri : String

pub record UnknownBottleRelative : Type 0 where
  pub digest : Digest
  pub part_selectors : List String

abbrev pub Generation : Type 0
Generation = List BottleRelative

-- The three methods MatchesSource.
unfoldable pub bottle_matches_source : Source → BottleRelative → Bool
bottle_matches_source source r = any (λ d. str_eq d source.bottle_digest) r.digests

unfoldable pub non_bottle_matches_source : Source → NonBottleRelative → Bool
non_bottle_matches_source source u = str_eq u.uri source.uri

unfoldable pub unknown_matches_source : Source → UnknownBottleRelative → Bool
unknown_matches_source source b = str_eq b.digest source.bottle_digest

unfoldable pub get_digests : Generation → List Digest
get_digests [] = []
get_digests (r ∷ g) = r.digests ++ get_digests g

-- Membership in getDigestSet.
unfoldable pub in_digest_set : Generation → Digest → Bool
unfolding get_digests
in_digest_set g d = any (λ x. str_eq x d) (get_digests g)

-- The inner loops of GetNonBottleParents and GetUnknownBottleParents, over the sources of a bottle.
unfoldable pub non_bottles_of : List Source → List NonBottleRelative
non_bottles_of [] = []
non_bottles_of (s ∷ ss) =
    let rest = non_bottles_of ss in
    if str_eq s.bottle_digest "" then record { uri = s.uri } ∷ rest else rest

unfoldable pub unknown_bottles_of : Generation → List Source → List UnknownBottleRelative
unfolding in_digest_set
unknown_bottles_of known [] = []
unknown_bottles_of known (s ∷ ss) =
    let rest = unknown_bottles_of known ss in
    if str_eq s.bottle_digest ""
    then rest
    else if in_digest_set known s.bottle_digest
    then rest
    else record { digest = s.bottle_digest; part_selectors = s.part_selectors } ∷ rest

unfoldable pub get_non_bottle_parents : Generation → List NonBottleRelative
unfolding non_bottles_of
get_non_bottle_parents [] = []
get_non_bottle_parents (r ∷ g) = non_bottles_of r.bottle.sources ++ get_non_bottle_parents g

unfoldable pub get_unknown_bottle_parents : Generation → Generation → List UnknownBottleRelative
unfolding unknown_bottles_of
get_unknown_bottle_parents known [] = []
get_unknown_bottle_parents known (r ∷ g) =
    unknown_bottles_of known r.bottle.sources ++ get_unknown_bottle_parents known g

-- `for i, r := range xs { if test(r) { return i } }`, counting from `i`; `none` where the loop ends.
abbrev pub first_index : {A : Type 0} → (A → Bool) → ℕ → List A → Option ℕ
first_index test i [] = none
first_index test i (x ∷ xs) =
    let rest = first_index test (suc i) xs in if test x then some i else rest

-- `none` is the result -1.
unfoldable pub find_relative_idx : Source → Generation → Option ℕ
unfolding bottle_matches_source
find_relative_idx source = first_index (bottle_matches_source source) 0

-- FindGenerations, with GetUniqueDigests as the walk over the keys of a set, in an order that Go
-- leaves open.
module _ {W : Type 0} (unique : List Digest → List Digest)
    (finder : List Digest → Action W Generation) where
  unfoldable pub next_generations : ℕ → List Digest → Action W (List Generation)
  unfolding get_digests
  next_generations zero digests = pure []
  next_generations (suc depth) digests = do
    gen ← finder digests
    more ← next_generations depth (unique (get_digests gen))
    pure (gen ∷ more)

  unfoldable pub find_generations : Digest → ℕ → Action W (List Generation)
  unfolding next_generations
  find_generations bottle_digest depth = next_generations depth (bottle_digest ∷ [])
