-- ===== src/Db/Scopes/Named.antt =====
-- internal/db/scopes.go: which rows the joins with digest records hold, and what the keys of the
-- tables mean for them.
use data_telemetry.Prelude.{
  ◌≡◌, refl, sym, ◌∙◌, ◌↔◌, Bool, true, List, Memᴰ, map, select, ==_iff, any-str_eq, Memᴰ-select,
  Memᴰ-map, Memᴰ-map_self,
}
use mathlib.Core.List.Memᴰ
use mathlib.Core.Path.{subst}
use data_telemetry.Errors.{Digest}
use data_telemetry.Db.Models.{DigestAlias, Bottle, Tables}
use data_telemetry.Db.Joins.{owned, Memᴰ-owned, Memᴰ-inner_join}
use data_telemetry.Db.Scopes.{has_alias, with_digests, named_in, is_in, digests_of_owners}

-- The unique index on digests.digest, and one bottle for each data record.
pub record IsKeyed (t : Tables) : Type 0 where
  pub one_data :
      (a b : DigestAlias)
      → Memᴰ a t.digests
      → Memᴰ b t.digests
      → a.digest ≡ b.digest
      → a.data_id ≡ b.data_id
  pub one_bottle :
      (b c : Bottle) → Memᴰ b t.bottles → Memᴰ c t.bottles → b.base.data_id ≡ c.base.data_id → b ≡ c

-- The bottle has the digest.
abbrev pub Names : Tables → Bottle → Digest → Type 0
Names t b d = (a : DigestAlias) × Memᴰ a t.digests × (a.data_id ≡ b.base.data_id) × (a.digest ≡ d)

module _ (t : Tables) where
  pub Memᴰ-with_digests :
      (rows : List Bottle) (b : Bottle) (a : DigestAlias)
      → Memᴰ (b, a) (with_digests t rows)
        ↔ (Memᴰ b rows × Memᴰ a t.digests × (a.data_id ≡ b.base.data_id))
  unfolding with_digests
  Memᴰ-with_digests rows b a =
      let join = Memᴰ-inner_join has_alias t.digests rows b a in
      let same = ==_iff a.data_id b.base.data_id in
      (λ m. let p = join.0 m in (p.0, p.1, same.0 p.2), λ p. join.1 (p.0, p.1, same.1 p.2))

  pub Memᴰ-named_in :
      (ds : List Digest) (rows : List (Bottle × DigestAlias)) (r : Bottle × DigestAlias)
      → Memᴰ r (named_in ds rows) ↔ (Memᴰ r rows × Memᴰ r.1.digest ds)
  unfolding named_in
  Memᴰ-named_in ds rows r =
      let kept = Memᴰ-select (λ (r : Bottle × DigestAlias). is_in ds r.1.digest) rows r in
      let named = any-str_eq r.1.digest ds in
      (λ m. let p = kept.0 m in (p.0, named.0 p.1), λ p. kept.1 (p.0, named.1 p.1))

  -- The first components of rows of bottles named by `ds`.
  pub Memᴰ-named_bottles :
      (ds : List Digest) (rows : List Bottle) (b : Bottle)
      → Memᴰ b (map (λ r. r.0) (named_in ds (with_digests t rows)))
        ↔ (Memᴰ b rows × (d : Digest) × Memᴰ d ds × Names t b d)
  Memᴰ-named_bottles ds rows b =
      let firsts =
        Memᴰ-map (λ (r : Bottle × DigestAlias). r.0) (named_in ds (with_digests t rows)) b in
      (
        λ m.
            let p = firsts.0 m in
            let q = (Memᴰ-named_in ds (with_digests t rows) p.0).0 p.1 in
            let r = (Memᴰ-with_digests rows p.0.0 p.0.1).0 q.0 in
            subst (λ z. Memᴰ z rows × (d : Digest) × Memᴰ d ds × Names t z d) (sym p.2)
              (r.0, p.0.1.digest, q.1, (p.0.1, r.1, r.2, refl)),
        λ (m, d, n, (a, at, of, named)).
            Memᴰ-map_self (λ (r : Bottle × DigestAlias). r.0) (named_in ds (with_digests t rows))
              (b, a)
              ((Memᴰ-named_in ds (with_digests t rows) (b, a)).1
                ((Memᴰ-with_digests rows b a).1 (m, at, of), Memᴰ.cast named n)),
      )

  module _ {Row : Type 0} (rows : Bottle → List Row) (test : Row → Bool) where
    -- A digest of the subquery is one of a bottle that owns a record that passes the test.
    abbrev OwnsNamed : Digest → Type 0
    OwnsNamed d =
        (b : Bottle) × Memᴰ b t.bottles
        × Names t b d
        × (x : Row) × Memᴰ x (rows b)
        × (test x ≡ true)

    Memᴰ-owners :
        (b : Bottle)
        → Memᴰ b (map (λ r. r.0) (select (λ r. test r.1) (owned rows t.bottles)))
          ↔ (Memᴰ b t.bottles × (x : Row) × Memᴰ x (rows b) × (test x ≡ true))
    Memᴰ-owners b = (
      λ m.
          let p =
            (Memᴰ-map (λ (r : Bottle × Row). r.0) (select (λ r. test r.1) (owned rows t.bottles))
                b).0
              m in
          let q = (Memᴰ-select (λ (r : Bottle × Row). test r.1) (owned rows t.bottles) p.0).0 p.1 in
          let r = (Memᴰ-owned rows t.bottles p.0.0 p.0.1).0 q.0 in
          subst (λ z. Memᴰ z t.bottles × (x : Row) × Memᴰ x (rows z) × (test x ≡ true)) (sym p.2)
            (r.0, p.0.1, r.1, q.1),
      λ (m, x, n, h).
          Memᴰ-map_self (λ (r : Bottle × Row). r.0) (select (λ r. test r.1) (owned rows t.bottles))
            (b, x)
            ((Memᴰ-select (λ (r : Bottle × Row). test r.1) (owned rows t.bottles) (b, x)).1
              ((Memᴰ-owned rows t.bottles b x).1 (m, n), h)),
    )

    pub Memᴰ-digests_of_owners : (d : Digest) → Memᴰ d (digests_of_owners rows test t) ↔ OwnsNamed d
    unfolding digests_of_owners
    Memᴰ-digests_of_owners d = (
      λ m.
          let p = (Memᴰ-map (λ (r : Bottle × DigestAlias). r.1.digest) _ d).0 m in
          let q = (Memᴰ-with_digests _ p.0.0 p.0.1).0 p.1 in
          let r = (Memᴰ-owners p.0.0).0 q.0 in
          (p.0.0, r.0, (p.0.1, q.1, q.2, sym p.2), r.1, r.2, r.3),
      λ (b, m, (a, at, of, named), x, own, h). Memᴰ.cast (sym named) (
          Memᴰ-map_self (λ (r : Bottle × DigestAlias). r.1.digest) _ (b, a)
            ((Memᴰ-with_digests _ b a).1 ((Memᴰ-owners b).1 (m, x, own, h), at, of))),
    )

  module _ (keys : IsKeyed t) where
    pub one_named :
        (b c : Bottle) (d : Digest)
        → Memᴰ b t.bottles
        → Memᴰ c t.bottles
        → Names t b d
        → Names t c d
        → b ≡ c
    one_named b c d m n (x, at, of, named) (y, at', of', named') =
        keys.one_bottle b c m n (sym of ∙ keys.one_data x y at at' (named ∙ sym named') ∙ of')
