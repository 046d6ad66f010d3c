-- ===== src/Db/Scopes/Deprecation.antt =====
-- internal/db/scopes.go and deprecate.go: which bottles deprecate which.
use data_telemetry.Prelude.{
  ◌≡◌, sym, ◌↔◌, List, [], ◌∷◌, Memᴰ, map, str_eq, eq_iff, Memᴰ-map, Memᴰ-map_self,
}
use mathlib.Core.List.Memᴰ
use data_telemetry.Errors.{Digest}
use data_telemetry.Action.{Action, pure, ◌>>=◌}
use data_telemetry.Db.Models.{DigestAlias, Bottle, Deprecates, Tables}
use data_telemetry.Db.Joins.{owned, Memᴰ-owned}
use data_telemetry.Db.Gorm.{Gorm}
use data_telemetry.Db.Scopes.{
  with_digests, named_in, deprecated_digests, deprecated_by, deprecates_this,
}
use data_telemetry.Db.Scopes.Named.{Names, Memᴰ-with_digests, Memᴰ-named_in, Memᴰ-digests_of_owners}

-- `con.Select("digests.digest").Table("bottles").Scopes(...)`, without a failure of the database.
unfoldable pub deprecated_by_digest : Digest → Tables → List Digest
unfolding deprecated_by
deprecated_by_digest d t = map (λ r. r.1.digest) (deprecated_by d t t.bottles)

unfoldable pub deprecating_digests : Digest → Tables → List Digest
unfolding deprecates_this
deprecating_digests d t = map (λ r. r.1.digest) (deprecates_this d t t.bottles)

module _ (g : Gorm) where
  unfoldable pub find_deprecated_by : Digest → Action Tables (List Digest)
  unfolding deprecated_by_digest
  find_deprecated_by d = do t ← g.read; pure (deprecated_by_digest d t)

  unfoldable pub find_deprecates : Digest → Action Tables (List Digest)
  unfolding deprecating_digests
  find_deprecates d = do t ← g.read; pure (deprecating_digests d t)

-- The bottle says that it deprecates the digest.
abbrev pub Deprecating : Bottle → Digest → Type 0
Deprecating b d = (x : Deprecates) × Memᴰ x b.deprecates × (x.deprecated_bottle_digest ≡ d)

module _ (t : Tables) where
  -- The digests of the rows of a join that are among `ds`.
  Memᴰ-named_digests :
      (ds : List Digest) (e : Digest)
      → Memᴰ e (map (λ r. r.1.digest) (named_in ds (with_digests t t.bottles)))
        ↔ (Memᴰ e ds × (c : Bottle) × Memᴰ c t.bottles × Names t c e)
  Memᴰ-named_digests ds e = (
    λ m.
        let p = (Memᴰ-map (λ (r : Bottle × DigestAlias). r.1.digest) _ e).0 m in
        let q = (Memᴰ-named_in t ds _ p.0).0 p.1 in
        let r = (Memᴰ-with_digests t t.bottles p.0.0 p.0.1).0 q.0 in
        (Memᴰ.cast p.2 q.1, p.0.0, r.0, (p.0.1, r.1, r.2, sym p.2)),
    λ (n, c, m, (a, at, of, named)). Memᴰ.cast (sym named) (
        Memᴰ-map_self (λ (r : Bottle × DigestAlias). r.1.digest) _ (c, a)
          ((Memᴰ-named_in t ds _ (c, a)).1
            ((Memᴰ-with_digests t t.bottles c a).1 (m, at, of), Memᴰ.cast named n))),
  )

  Memᴰ-deprecated_digests :
      (d e : Digest)
      → Memᴰ e (deprecated_digests d t)
        ↔ ((b : Bottle) × Memᴰ b t.bottles × Names t b d × Deprecating b e)
  unfolding deprecated_digests
  Memᴰ-deprecated_digests d e = (
    λ m.
        let p =
          (Memᴰ-map (λ (r : (Bottle × DigestAlias) × Deprecates). r.1.deprecated_bottle_digest) _
              e).0
            m in
        let q = (Memᴰ-owned (λ (r : Bottle × DigestAlias). r.0.deprecates) _ p.0.0 p.0.1).0 p.1 in
        let r = (Memᴰ-named_in t (d ∷ []) _ p.0.0).0 q.0 in
        let w = (Memᴰ-with_digests t t.bottles p.0.0.0 p.0.0.1).0 r.0 in
        (p.0.0.0, w.0, (p.0.0.1, w.1, w.2, Memᴰ.eq_of_singleton r.1), (p.0.1, q.1, sym p.2)),
    λ (b, m, (a, at, of, named), (x, own, e')). Memᴰ.cast (sym e') (
        Memᴰ-map_self (λ (r : (Bottle × DigestAlias) × Deprecates). r.1.deprecated_bottle_digest) _
          ((b, a), x)
          ((Memᴰ-owned (λ (r : Bottle × DigestAlias). r.0.deprecates) _ (b, a) x).1 (
            (Memᴰ-named_in t (d ∷ []) _ (b, a)).1
                ((Memᴰ-with_digests t t.bottles b a).1 (m, at, of), Memᴰ.head named),
            own,
          ))),
  )

  -- FindDeprecates lists the digests of the bottles that say they deprecate the digest.
  Memᴰ-deprecating_digests :
      (d e : Digest)
      → Memᴰ d (deprecating_digests e t)
        ↔ ((b : Bottle) × Memᴰ b t.bottles × Names t b d × Deprecating b e)
  unfolding deprecating_digests deprecates_this
  Memᴰ-deprecating_digests d e =
      let owners =
        Memᴰ-digests_of_owners t (λ b. b.deprecates) (λ x. str_eq x.deprecated_bottle_digest e) d in
      let rows = Memᴰ-named_digests _ d in
      (
        λ m.
            let (b, at, named, x, own, h) = owners.0 (rows.0 m).0 in
            (b, at, named, (x, own, (eq_iff x.deprecated_bottle_digest e).0 h)),
        λ (b, at, named, (x, own, h)). rows.1 (
          owners.1 (b, at, named, x, own, (eq_iff x.deprecated_bottle_digest e).1 h),
          b,
          at,
          named,
        ),
      )

  -- A digest is among those that FindDeprecatedBy lists for a digest exactly when some bottle has
  -- it and FindDeprecates lists the second digest for it.
  pub deprecated_by_digest-deprecating_digests :
      (d e : Digest)
      → Memᴰ e (deprecated_by_digest d t)
        ↔ (Memᴰ d (deprecating_digests e t) × (c : Bottle) × Memᴰ c t.bottles × Names t c e)
  unfolding deprecated_by_digest deprecated_by
  deprecated_by_digest-deprecating_digests d e =
      let rows = Memᴰ-named_digests (deprecated_digests d t) e in
      let said = Memᴰ-deprecated_digests d e in
      let saying = Memᴰ-deprecating_digests d e in
      (
        λ m. let (n, c, at, named) = rows.0 m in (saying.1 (said.0 n), c, at, named),
        λ (n, c, at, named). rows.1 (said.1 (saying.0 n), c, at, named),
      )

  -- Some bottle of the table deprecates the digest.
  abbrev pub IsDeprecated : Digest → Type 0
  IsDeprecated d = (c : Bottle) × Memᴰ c t.bottles × Deprecating c d

  pub Memᴰ-IsDeprecated :
      (d : Digest)
      → Memᴰ d
          (map (λ r. r.1.deprecated_bottle_digest) (owned (λ (b : Bottle). b.deprecates) t.bottles))
        ↔ IsDeprecated d
  Memᴰ-IsDeprecated d = (
    λ m.
        let p = (Memᴰ-map (λ (r : Bottle × Deprecates). r.1.deprecated_bottle_digest) _ d).0 m in
        let q = (Memᴰ-owned (λ (b : Bottle). b.deprecates) t.bottles p.0.0 p.0.1).0 p.1 in
        (p.0.0, q.0, (p.0.1, q.1, sym p.2)),
    λ (c, m, (x, own, e)). Memᴰ.cast (sym e) (
        Memᴰ-map_self (λ (r : Bottle × Deprecates). r.1.deprecated_bottle_digest) _ (c, x)
          ((Memᴰ-owned (λ (b : Bottle). b.deprecates) t.bottles c x).1 (m, own))),
  )
