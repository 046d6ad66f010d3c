-- ===== src/Db/Scopes/Filters.antt =====
-- internal/db/scopes.go: the bottles that ExcludeDeprecated and FilterByParts let through.
use data_telemetry.Prelude.{
  ◌≡◌, refl, sym, ◌↔◌, not, List, Memᴰ, map, str_eq, eq_iff, any-str_eq, Memᴰ-select, not_iff,
  Memᴰ-map, Memᴰ-map_self,
}
use mathlib.Core.Path.{subst}
use data_telemetry.Errors.{Digest}
use data_telemetry.Db.Models.{DigestAlias, Bottle, Part, Deprecates, Tables}
use data_telemetry.Db.Joins.{owned}
use data_telemetry.Db.Scopes.{is_in, exclude_deprecated, filter_by_parts}
use data_telemetry.Db.Scopes.Named.{IsKeyed, Names, Memᴰ-with_digests}
use data_telemetry.Db.Scopes.Having.{Memᴰ-having}
use data_telemetry.Db.Scopes.Deprecation.{IsDeprecated, Memᴰ-IsDeprecated}

-- ExcludeDeprecated lets a bottle through exactly when it has a digest that no bottle deprecates,
-- even if another of its digests is deprecated.
pub exclude_deprecated_lem :
    (t : Tables) (rows : List Bottle) (b : Bottle)
    → Memᴰ b (exclude_deprecated t rows)
      ↔ (Memᴰ b rows × (d : Digest) × Names t b d × (¬ IsDeprecated t d))
unfolding exclude_deprecated
exclude_deprecated_lem t rows b =
    let deprecated =
      map (λ (r : Bottle × Deprecates). r.1.deprecated_bottle_digest)
        (owned (λ (b : Bottle). b.deprecates) t.bottles) in
    (
      λ m.
          let p = (Memᴰ-map (λ (r : Bottle × DigestAlias). r.0) _ b).0 m in
          let q =
            (Memᴰ-select (λ (r : Bottle × DigestAlias). not (is_in deprecated r.1.digest)) _ p.0).0
              p.1 in
          let r = (Memᴰ-with_digests t rows p.0.0 p.0.1).0 q.0 in
          subst (λ z. Memᴰ z rows × (d : Digest) × Names t z d × (¬ IsDeprecated t d)) (sym p.2)
            (
              r.0,
              p.0.1.digest,
              (p.0.1, r.1, r.2, refl),
              λ h.
                  (not_iff (is_in deprecated p.0.1.digest)).0 q.1 (
                    (any-str_eq p.0.1.digest deprecated).1
                      ((Memᴰ-IsDeprecated t p.0.1.digest).1 h)),
            ),
      λ (m, d, (a, at, of, named), h).
          Memᴰ-map_self (λ (r : Bottle × DigestAlias). r.0) _ (b, a)
            ((Memᴰ-select (λ (r : Bottle × DigestAlias). not (is_in deprecated r.1.digest)) _
                (b, a)).1
              (
                (Memᴰ-with_digests t rows b a).1 (m, at, of),
                (not_iff (is_in deprecated a.digest)).1 (λ e. h (
                    subst (IsDeprecated t) named
                      ((Memᴰ-IsDeprecated t a.digest).0 ((any-str_eq a.digest deprecated).0 e)))),
              )),
    )

-- The bottle has a part with the digest.
abbrev pub HasPart : Bottle → Digest → Type 0
HasPart b d = (p : Part) × Memᴰ p b.parts × (p.digest ≡ d)

-- In tables with unique digests and one bottle for each data record, FilterByParts lets through
-- exactly the bottles of the table that have a digest and parts with all of the digests.
pub filter_by_parts-HasPart :
    (t : Tables) (ds : List Digest) (b : Bottle)
    → IsKeyed t
    → Memᴰ b (filter_by_parts ds t t.bottles)
      ↔ (Memᴰ b t.bottles × (x : Digest) × Names t b x × ((d : Digest) → Memᴰ d ds → HasPart b d))
unfolding filter_by_parts
filter_by_parts-HasPart t ds b keys =
    let rows = Memᴰ-having (λ b. b.parts) (λ d p. str_eq p.digest d) t keys ds b in
    (
      λ m.
          let (n, x, named, all) = rows.0 m in
          (n, x, named, λ d k. let (p, own, h) = all d k in (p, own, (eq_iff p.digest d).0 h)),
      λ (n, x, named, all).
          rows.1
            (n, x, named, λ d k. let (p, own, e) = all d k in (p, own, (eq_iff p.digest d).1 e)),
    )
