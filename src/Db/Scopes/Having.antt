-- ===== src/Db/Scopes/Having.antt =====
-- internal/db/scopes.go: what the loops of FilterByParts and FilterByMetric let through.
use data_telemetry.Prelude.{
  ◌≡◌, refl, sym, ◌↔◌, Bool, true, List, [], ◌∷◌, Memᴰ, map, Memᴰ-map, Memᴰ-map_self, inl, inr,
}
use mathlib.Core.List.Memᴰ
use mathlib.Core.Path.{subst}
use data_telemetry.Errors.{Digest}
use data_telemetry.Db.Models.{DigestAlias, Bottle, Tables}
use data_telemetry.Db.Scopes.{with_digests, digests_of_owners, having}
use data_telemetry.Db.Scopes.Named.{
  IsKeyed, Names, Memᴰ-with_digests, Memᴰ-named_in, Memᴰ-digests_of_owners, one_named,
}

module _ {Q Row : Type 0} (rows : Bottle → List Row) (test : Q → Row → Bool) (t : Tables) where
  -- The bottle owns a row that passes.
  abbrev pub Owns : Bottle → Q → Type 0
  Owns b q = (p : Row) × Memᴰ p (rows b) × (test q p ≡ true)

  -- The digest is one of a bottle that owns a row which passes.
  abbrev IsOwned : Digest → Q → Type 0
  IsOwned x q =
      (b : Bottle) × Memᴰ b t.bottles
      × Names t b x
      × (p : Row) × Memᴰ p (rows b)
      × (test q p ≡ true)

  Memᴰ-having_rows :
      (qs : List Q) (rs : List (Bottle × DigestAlias)) (r : Bottle × DigestAlias)
      → Memᴰ r (having rows test qs t rs)
        ↔ (Memᴰ r rs × ((q : Q) → Memᴰ q qs → IsOwned r.1.digest q))
  unfolding having
  Memᴰ-having_rows [] rs r = (λ m. (m, λ q n. absurd (Memᴰ.not-nil n)), λ p. p.0)
  Memᴰ-having_rows (q ∷ qs) rs r =
      let first = Memᴰ-named_in t (digests_of_owners rows (test q) t) rs r in
      let owners = Memᴰ-digests_of_owners t rows (test q) r.1.digest in
      let rest = Memᴰ-having_rows qs _ r in
      (
        λ m.
            let (n, all) = rest.0 m in
            let (at, one) = first.0 n in
            (
              at,
              λ x k. elim (Memᴰ.cases_cons k) [
                | inl e ↦ subst (λ z. IsOwned r.1.digest z) (sym e) (owners.0 one)
                | inr k' ↦ all x k'
              ],
            ),
        λ (at, all).
            rest.1 (first.1 (at, owners.1 (all q (Memᴰ.head refl))), λ x k. all x (Memᴰ.tail k)),
      )

  pub Memᴰ-having :
      IsKeyed t
      → (qs : List Q) (b : Bottle)
      → Memᴰ b (map (λ r. r.0) (having rows test qs t (with_digests t t.bottles)))
        ↔ (Memᴰ b t.bottles × (x : Digest) × Names t b x × ((q : Q) → Memᴰ q qs → Owns b q))
  Memᴰ-having keys qs b = (
    λ m.
        let p = (Memᴰ-map (λ (r : Bottle × DigestAlias). r.0) _ b).0 m in
        let q = (Memᴰ-having_rows qs _ p.0).0 p.1 in
        let r = (Memᴰ-with_digests t t.bottles p.0.0 p.0.1).0 q.0 in
        subst
          (λ z. Memᴰ z t.bottles × (x : Digest) × Names t z x × ((q : Q) → Memᴰ q qs → Owns z q))
          (sym p.2)
          (
            r.0,
            p.0.1.digest,
            (p.0.1, r.1, r.2, refl),
            λ d k.
                let (c, at, named, x, own, e) = q.1 d k in
                let same =
                  one_named t keys c p.0.0 p.0.1.digest at r.0 named (p.0.1, r.1, r.2, refl) in
                (x, subst (λ z. Memᴰ x (rows z)) same own, e),
          ),
    λ (m, x, (a, at, of, named), all).
        Memᴰ-map_self (λ (r : Bottle × DigestAlias). r.0) _ (b, a)
          ((Memᴰ-having_rows qs _ (b, a)).1 (
            (Memᴰ-with_digests t t.bottles b a).1 (m, at, of),
            λ d k. let (p, own, e) = all d k in (b, m, (a, at, of, refl), p, own, e),
          )),
  )
