-- ===== src/Db/Processors/Linked/Aliases.antt =====
-- internal/db/bottle_processor.go: if no public artifact is missing, each has stored data.
use data_telemetry.Prelude.{
  ℕ, ◌≡◌, ◌⊎◌, refl, sym, ap, ◌∙◌, Option, none, some, List, [], ◌∷◌, ◌++◌, Memᴰ, str_eq, inl, inr,
  Bool-cases,
}
use mathlib.Core.List.Memᴰ
use mathlib.Core.Path.{subst}
use mathlib.Core.Option.{some-injective}
use data_telemetry.Errors.{Digest}
use data_telemetry.Action.{Action}
use data_telemetry.Action.Ensures.{Post, Post-weaken}
use data_telemetry.Db.Models.{DigestAlias, Tables}
use data_telemetry.Db.Gorm.{Gorm}
use data_telemetry.Db.Documents.{Documents, Deletes, PublicArtifactDto}
use data_telemetry.Db.Helpers.{text_key, lookup_or, store}
use data_telemetry.Db.Helpers.Keeps.{lookup_or-store, lookup_or-store_self}
use data_telemetry.Db.Processors.Bottles.{alias_with, found_alias, collect_aliases}
use data_telemetry.Db.Processors.Linked.{HasData, IsSaving}
use data_telemetry.Db.Processors.Linked.Rewriting.{ReadOutcome-cases}

alias_with-Memᴰ :
    (d : Digest) (xs : List DigestAlias) (x : DigestAlias) → alias_with d xs ≡ some x → Memᴰ x xs
unfolding alias_with
alias_with-Memᴰ d [] x h = cc
alias_with-Memᴰ d (y ∷ xs) x h = elim (Bool-cases (str_eq d "")) [
  | inl empty ↦ Memᴰ.head (sym (some-injective y x (rw empty at h)))
  | inr given ↦ elim (Bool-cases (str_eq d y.digest)) [
    | inl same ↦ Memᴰ.head (sym (some-injective y x (rw (given, same) at h)))
    | inr other ↦ Memᴰ.tail (alias_with-Memᴰ d xs x (rw (given, other) at h))
  ]
]

append_nonempty : {A : Type 0} (xs : List A) (x : A) → xs ++ (x ∷ []) ≡ [] → ⊥
append_nonempty [] x h = cc
append_nonempty (y ∷ xs) x h = cc

found_alias-Post :
    {W A : Type 0} (found : Option DigestAlias) (absent : Action W A)
    (present : DigestAlias → Action W A) (w : W) (Q : A → W → Type 0) (E : W → Type 0)
    → Post Q E (absent w)
    → ((x : DigestAlias) → found ≡ some x → Post Q E (present x w))
    → Post Q E (found_alias found absent present w)
found_alias-Post none absent present w Q E h k = h
found_alias-Post (some x) absent present w Q E h k = k x refl

module _ (g : Gorm) (o : Deletes) (d : Documents) (saves : IsSaving g o) where
  -- The map leads from the digest to stored data.
  abbrev pub Known : Tables → List (Digest × ℕ) → Digest → Type 0
  Known t aliases x = HasData t (lookup_or text_key 0 x aliases)

  abbrev Collected :
      List PublicArtifactDto
      → List Digest
      → List (Digest × ℕ)
      → Tables
      → List Digest × List (Digest × ℕ)
      → Type 0
  Collected items missing aliases w r =
      r.0 ≡ []
      → (missing ≡ [])
        × ((x : Digest)
            → (Known w aliases x ⊎ ((a : PublicArtifactDto) × Memᴰ a items × (a.digest ≡ x)))
            → Known w r.1 x)

  Known-store :
      (w : Tables) (aliases : List (Digest × ℕ)) (k : Digest) (found : DigestAlias) (x : Digest)
      → Memᴰ found w.digests
      → Known w aliases x
      → Known w (store text_key k found.data_id aliases) x
  Known-store w aliases k found x at h =
      elim (lookup_or-store text_key 0 x k found.data_id aliases) [
        | inl e ↦ (found, at, sym e)
        | inr e ↦ subst (HasData w) (sym e) h
      ]

  found_first :
      (a : PublicArtifactDto) (rest : List PublicArtifactDto) (aliases : List (Digest × ℕ))
      (w : Tables) (x : DigestAlias) (y : Digest)
      → Memᴰ x w.digests
      → (Known w aliases y ⊎ ((b : PublicArtifactDto) × Memᴰ b (a ∷ rest) × (b.digest ≡ y)))
      → Known w (store text_key a.digest x.data_id aliases) y
        ⊎ ((b : PublicArtifactDto) × Memᴰ b rest × (b.digest ≡ y))
  found_first a rest aliases w x y at (inl h) = inl (Known-store w aliases a.digest x y at h)
  found_first a rest aliases w x y at (inr (b, n, same)) = elim (Memᴰ.cases_cons n) [
    | inr later ↦ inr (b, later, same)
    | inl e ↦ inl (
        subst (λ z. Known w (store text_key a.digest x.data_id aliases) z)
          (ap (λ (p : PublicArtifactDto). p.digest) (sym e) ∙ same)
          (x, at, sym (lookup_or-store_self text_key 0 a.digest x.data_id aliases)))
  ]

  collect_aliases-Known :
      (items : List PublicArtifactDto) (missing : List Digest) (aliases : List (Digest × ℕ))
      (w : Tables)
      → Post
          (λ r t. (t ≡ w) × Collected items missing aliases w r)
          (λ t. t ≡ w)
          (collect_aliases g d o items missing aliases w)
  unfolding collect_aliases
  collect_aliases-Known [] missing aliases w =
      (refl, λ e. (e, λ x k. elim k [ inl h ↦ h | inr (a, n, same) ↦ absurd (Memᴰ.not-nil n) ]))
  collect_aliases-Known (a ∷ rest) missing aliases w =
      elim (ReadOutcome-cases w (g.read w) (saves.reads w)) [
        | inr (x, e) ↦ rw e refl
        | inl read ↦ rw read (
            found_alias-Post (alias_with a.digest w.digests)
              (collect_aliases g d o rest (missing ++ (a.digest ∷ [])) aliases)
              (λ x. collect_aliases g d o rest missing (store text_key a.digest x.data_id aliases))
              w (λ r t. (t ≡ w) × Collected (a ∷ rest) missing aliases w r) (λ t. t ≡ w)
              (Post-weaken
                (λ r t. (t ≡ w) × Collected rest (missing ++ (a.digest ∷ [])) aliases w r)
                (λ r t. (t ≡ w) × Collected (a ∷ rest) missing aliases w r) (λ t. t ≡ w)
                (λ t. t ≡ w) _
                (λ r t h. (h.0, λ e. absurd (append_nonempty missing a.digest (h.1 e).0)))
                (λ t h. h) (collect_aliases-Known rest (missing ++ (a.digest ∷ [])) aliases w))
              (λ x found.
                Post-weaken
                  (λ r t.
                    (t ≡ w)
                    × Collected rest missing (store text_key a.digest x.data_id aliases) w r)
                  (λ r t. (t ≡ w) × Collected (a ∷ rest) missing aliases w r) (λ t. t ≡ w)
                  (λ t. t ≡ w) _
                  (λ r t h. (
                    h.0,
                    λ e. (
                      (h.1 e).0,
                      λ y k. (h.1 e).1 y (
                          found_first a rest aliases w x y
                            (alias_with-Memᴰ a.digest w.digests x found) k),
                    ),
                  ))
                  (λ t h. h)
                  (collect_aliases-Known rest missing (store text_key a.digest x.data_id aliases)
                    w)))
      ]

  -- If nothing is missing, the map leads from every artifact to stored data.
  pub collect_aliases_all :
      (items : List PublicArtifactDto) (w : Tables)
      → Post
          (λ r t.
            (t ≡ w) × (r.0 ≡ [] → (a : PublicArtifactDto) → Memᴰ a items → Known w r.1 a.digest))
          (λ t. t ≡ w)
          (collect_aliases g d o items [] [] w)
  collect_aliases_all items w =
      Post-weaken (λ r t. (t ≡ w) × Collected items [] [] w r)
        (λ r t.
          (t ≡ w) × (r.0 ≡ [] → (a : PublicArtifactDto) → Memᴰ a items → Known w r.1 a.digest))
        (λ t. t ≡ w) (λ t. t ≡ w) (collect_aliases g d o items [] [] w)
        (λ r t h. (h.0, λ e a n. (h.1 e).1 a.digest (inr (a, n, refl)))) (λ t h. h)
        (collect_aliases-Known items [] [] w)
