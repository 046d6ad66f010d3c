-- ===== src/Db/Relatives/Sources.antt =====
-- internal/db/relatives.go: the part selectors that FindParents gives to the parents it found, from the
-- sources of the bottles that it was asked about.
use data_telemetry.Prelude.{
  ◌≡◌, refl, sym, ap, ◌∙◌, ◌⊎◌, inl, inr, String, true, false, List, [], ◌∷◌, ◌++◌, map, Memᴰ,
  Memᴰ-map, if◌then◌else◌, Bool-cases,
}
use mathlib.Core.List.Memᴰ
use mathlib.Core.Path.{subst}
use data_telemetry.Db.Models.{Source}
use data_telemetry.Db.Relatives.{BottleRelative, Generation, bottle_matches_source}

-- The inner loops: a later source overwrites the selectors of an earlier one.
unfoldable pub selectors_from : BottleRelative → List String → List Source → List String
unfolding bottle_matches_source
selectors_from g selectors [] = selectors
selectors_from g selectors (s ∷ ss) =
    selectors_from g (if bottle_matches_source s g then s.part_selectors else selectors) ss

unfoldable pub with_selectors : List Source → BottleRelative → BottleRelative
unfolding selectors_from
with_selectors sources g = record g { part_selectors = selectors_from g g.part_selectors sources }

unfoldable pub match_up : List Source → Generation → Generation
unfolding with_selectors
match_up sources = map (with_selectors sources)

-- None of the sources matches the relative.
abbrev pub NoneMatch : BottleRelative → List Source → Type 0
NoneMatch g ss = (s : Source) → Memᴰ s ss → bottle_matches_source s g ≡ false

-- The selectors are those of the last source that matches, if one does.
abbrev pub IsLast : BottleRelative → List String → List Source → List String → Type 0
IsLast g old ss selectors =
    (NoneMatch g ss × (selectors ≡ old))
    ⊎ ((before : List Source) × (s : Source) × (after : List Source) × (ss ≡ before ++ (s ∷ after))
        × (bottle_matches_source s g ≡ true)
        × NoneMatch g after
        × (selectors ≡ s.part_selectors))

NoneMatch-cons :
    (g : BottleRelative) (s : Source) (ss : List Source)
    → bottle_matches_source s g ≡ false
    → NoneMatch g ss
    → NoneMatch g (s ∷ ss)
NoneMatch-cons g s ss no' all x n = elim (Memᴰ.cases_cons n) [
  | inl e ↦ ap (λ z. bottle_matches_source z g) e ∙ no'
  | inr n' ↦ all x n'
]

selectors_from-IsLast :
    (g : BottleRelative) (old : List String) (ss : List Source)
    → IsLast g old ss (selectors_from g old ss)
unfolding selectors_from
selectors_from-IsLast g old [] = inl (λ s n. absurd (Memᴰ.not-nil n), refl)
selectors_from-IsLast g old (s ∷ ss) = elim (Bool-cases (bottle_matches_source s g)) [
  | inl hit ↦ elim (selectors_from-IsLast g s.part_selectors ss) [
    | inl (clear, e) ↦ inr ([], s, ss, refl, hit, clear, rw hit e)
    | inr (before, x, after, split, hit2, clear, e) ↦
        inr (s ∷ before, x, after, ap (λ l. s ∷ l) split, hit2, clear, rw hit (e))
  ]
  | inr no' ↦ elim (selectors_from-IsLast g old ss) [
    | inl (clear, e) ↦ inl (NoneMatch-cons g s ss no' clear, rw no' e)
    | inr (before, x, after, split, hit2, clear, e) ↦
        inr (s ∷ before, x, after, ap (λ l. s ∷ l) split, hit2, clear, rw no' e)
  ]
]

-- Each parent that is returned is one that was found, with its selectors replaced by those of the last
-- source that names one of its digests, if one does.
pub match_up-IsLast :
    (sources : List Source) (gen : Generation) (r : BottleRelative)
    → Memᴰ r (match_up sources gen)
    → (g : BottleRelative) × Memᴰ g gen
      × (r.bottle ≡ g.bottle)
      × (r.digests ≡ g.digests)
      × IsLast g g.part_selectors sources r.part_selectors
unfolding match_up with_selectors
match_up-IsLast sources gen r m =
    let (g, at, e) = (Memᴰ-map (with_selectors sources) gen r).0 m in
    (
      g,
      at,
      ap (λ (z : BottleRelative). z.bottle) e,
      ap (λ (z : BottleRelative). z.digests) e,
      subst (IsLast g g.part_selectors sources)
          (sym (ap (λ (z : BottleRelative). z.part_selectors) e))
          (selectors_from-IsLast g g.part_selectors sources),
    )
