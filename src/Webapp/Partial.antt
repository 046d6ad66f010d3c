-- ===== src/Webapp/Partial.antt =====
-- internal/webapp/pages.go: the parts and artifacts of a bottle that a selector leaves. The matching of
-- labels and util.IsPathPrefix are parameters.
use data_telemetry.Prelude.{
  ℕ, ◌+◌, ◌≤◌, ◌<◌, String, ◌≡◌, refl, sym, ap, ◌∙◌, ◌↔◌, inl, inr, Bool, true, List, [], ◌∷◌, ◌++◌,
  Memᴰ, Memᴰ-select, select, if◌then◌else◌, Bool-cases, arith,
}
use mathlib.Core.List.Memᴰ
use Prim.Native.Nat.{◌%◌, ◌^◌}
use native.Mathlib.Nat.{mod-eq_of_lt}
use data_telemetry.Db.Models.{PublicArtifact, Part}
use data_telemetry.Db.Relatives.{BottleRelative}

module _ (matches : List (String × String) → Bool) (is_path_prefix : String → String → Bool) where
  -- The loop, with the artifacts that the bottle has.
  unfoldable pub artifacts_of_parts : List PublicArtifact → List Part → List PublicArtifact
  artifacts_of_parts artifacts [] = []
  artifacts_of_parts artifacts (p ∷ ps) =
      let rest = artifacts_of_parts artifacts ps in
      if matches p.labels
      then select (λ a. is_path_prefix a.path p.name) artifacts ++ rest
      else rest

  unfoldable pub add_parts_to_bottle_with_selector : BottleRelative → BottleRelative
  unfolding artifacts_of_parts
  add_parts_to_bottle_with_selector r = record r {
    bottle = record r.bottle {
      parts = select (λ p. matches p.labels) r.bottle.parts;
      public_artifacts = artifacts_of_parts r.bottle.public_artifacts r.bottle.parts;
    };
  }

-- The sum that wraps around at 64 bits.
unfoldable pub total_size_from : ℕ → List Part → ℕ
total_size_from total [] = total
total_size_from total (p ∷ ps) = total_size_from ((total + p.size) % 2 ^ 64) ps

unfoldable pub get_bottle_total_size : BottleRelative → ℕ
unfolding total_size_from
get_bottle_total_size r = total_size_from 0 r.bottle.parts

abbrev pub total_of_sizes : List Part → ℕ
total_of_sizes [] = 0
total_of_sizes (p ∷ ps) = p.size + total_of_sizes ps

total_size_from_lem :
    (total : ℕ) (ps : List Part)
    → total + total_of_sizes ps < 2 ^ 64
    → total_size_from total ps ≡ total + total_of_sizes ps
unfolding total_size_from
total_size_from_lem total [] small = omega arith
total_size_from_lem total (p ∷ ps) small =
    rw (mod-eq_of_lt {n = total + p.size} {m = 2 ^ 64} (omega (arith, small)))
      (total_size_from_lem (total + p.size) ps (omega (arith, small)) ∙ omega arith)

select-le :
    (test : Part → Bool) (ps : List Part) → total_of_sizes (select test ps) ≤ total_of_sizes ps
select-le test [] = omega arith
select-le test (p ∷ ps) = elim (Bool-cases (test p)) [
  | inl passes ↦ rw passes (omega (arith, select-le test ps))
  | inr fails ↦ rw fails (omega (arith, select-le test ps))
]

module _ (matches : List (String × String) → Bool) (is_path_prefix : String → String → Bool) where
  -- If the sizes of all parts together are below 2^64, the total size of a bottle is their sum, and that
  -- of a selection is the sum over the selected parts and at most as large.
  pub get_bottle_total_size_bound :
      (r : BottleRelative)
      → total_of_sizes r.bottle.parts < 2 ^ 64
      → (get_bottle_total_size r ≡ total_of_sizes r.bottle.parts)
        × (get_bottle_total_size (add_parts_to_bottle_with_selector matches is_path_prefix r)
            ≡ total_of_sizes (select (λ p. matches p.labels) r.bottle.parts))
        × (get_bottle_total_size (add_parts_to_bottle_with_selector matches is_path_prefix r)
            ≤ get_bottle_total_size r)
  unfolding get_bottle_total_size add_parts_to_bottle_with_selector
  get_bottle_total_size_bound r small =
      let less = select-le (λ p. matches p.labels) r.bottle.parts in
      let all = total_size_from_lem 0 r.bottle.parts (omega (arith, small)) in
      let kept =
        total_size_from_lem 0 (select (λ p. matches p.labels) r.bottle.parts)
          (omega (arith, small, less)) in
      (all ∙ omega arith, kept ∙ omega arith, omega (arith, all, kept, less))

  of_Memᴰ-artifacts :
      (xs : List PublicArtifact) (ps : List Part) (a : PublicArtifact)
      → Memᴰ a (artifacts_of_parts matches is_path_prefix xs ps)
      → Memᴰ a xs
        × (p : Part) × Memᴰ p ps
        × (matches p.labels ≡ true)
        × (is_path_prefix a.path p.name ≡ true)
  unfolding artifacts_of_parts
  of_Memᴰ-artifacts xs [] a m = absurd (Memᴰ.not-nil m)
  of_Memᴰ-artifacts xs (p ∷ ps) a m = elim (Bool-cases (matches p.labels)) [
    | inl hit ↦
        elim (Memᴰ.append_cases (select (λ x. is_path_prefix x.path p.name) xs) (rw hit at m)) [
          | inl here ↦
              let (at, under) = (Memᴰ-select (λ x. is_path_prefix x.path p.name) xs a).0 here in
              (at, p, Memᴰ.head refl, hit, under)
          | inr rest ↦
              let (at, q, own, h, h2) = of_Memᴰ-artifacts xs ps a rest in
              (at, q, Memᴰ.tail own, h, h2)
        ]
    | inr no' ↦
        let (at, q, own, h, h2) = of_Memᴰ-artifacts xs ps a (rw no' at m) in
        (at, q, Memᴰ.tail own, h, h2)
  ]

  to_Memᴰ-artifacts :
      (xs : List PublicArtifact) (ps : List Part) (a : PublicArtifact) (p : Part)
      → Memᴰ a xs
      → Memᴰ p ps
      → matches p.labels ≡ true
      → is_path_prefix a.path p.name ≡ true
      → Memᴰ a (artifacts_of_parts matches is_path_prefix xs ps)
  unfolding artifacts_of_parts
  to_Memᴰ-artifacts xs [] a p m n hit under = absurd (Memᴰ.not-nil n)
  to_Memᴰ-artifacts xs (q ∷ ps) a p m n hit under = elim (Memᴰ.cases_cons n) [
    | inl e ↦ rw (ap (λ (z : Part). matches z.labels) (sym e) ∙ hit) (
        Memᴰ.append_left (artifacts_of_parts matches is_path_prefix xs ps) (
          (Memᴰ-select (λ x. is_path_prefix x.path q.name) xs a).1
            (m, ap (λ (z : Part). is_path_prefix a.path z.name) (sym e) ∙ under)))
    | inr n' ↦
        let rest = to_Memᴰ-artifacts xs ps a p m n' hit under in
        elim (Bool-cases (matches q.labels)) [
          | inl hit' ↦
              rw hit' (Memᴰ.append_right (select (λ x. is_path_prefix x.path q.name) xs) rest)
          | inr no' ↦ rw no' rest
        ]
  ]

  -- A selection of a bottle has exactly its artifacts that lie under the name of a selected part.
  pub add_parts_to_bottle_with_selector-artifacts :
      (r : BottleRelative) (a : PublicArtifact)
      → Memᴰ a (add_parts_to_bottle_with_selector matches is_path_prefix r).bottle.public_artifacts
        ↔ (Memᴰ a r.bottle.public_artifacts
            × (p : Part) × Memᴰ p
                (add_parts_to_bottle_with_selector matches is_path_prefix r).bottle.parts
            × (is_path_prefix a.path p.name ≡ true))
  unfolding add_parts_to_bottle_with_selector
  add_parts_to_bottle_with_selector-artifacts r a = (
    λ m.
        let (at, p, own, hit, under) =
          of_Memᴰ-artifacts r.bottle.public_artifacts r.bottle.parts a m in
        (
          at,
          p,
          (Memᴰ-select (λ (p : Part). matches p.labels) r.bottle.parts p).1 (own, hit),
          under,
        ),
    λ (at, p, own, under).
        let (own', hit) = (Memᴰ-select (λ (p : Part). matches p.labels) r.bottle.parts p).0 own in
        to_Memᴰ-artifacts r.bottle.public_artifacts r.bottle.parts a p at own' hit under,
  )
