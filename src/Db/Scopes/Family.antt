-- ===== src/Db/Scopes/Family.antt =====
-- internal/db/scopes.go: ParentsOf and ChildrenOf find the two ends of the same links.
use data_telemetry.Prelude.{
  ◌≡◌, refl, sym, ◌∙◌, ◌↔◌, List, [], ◌∷◌, Memᴰ, ◌==◌, ==_iff, any-str_eq, Memᴰ-select, Memᴰ-map,
  Memᴰ-map_self,
}
use mathlib.Core.List.Memᴰ
use mathlib.Core.Path.{subst}
use data_telemetry.Errors.{Digest}
use data_telemetry.Db.Models.{DigestAlias, Bottle, Source, Tables}
use data_telemetry.Db.Joins.{Memᴰ-owned, Memᴰ-inner_join}
use data_telemetry.Db.Scopes.{is_in, parent_digests, parents_of, child_digests, children_of}
use data_telemetry.Db.Scopes.Named.{
  IsKeyed, Names, Memᴰ-with_digests, Memᴰ-named_in, Memᴰ-named_bottles, one_named,
}

module _ (t : Tables) (ds : List Digest) where
  -- A digest that a source of a bottle with one of the digests names.
  abbrev IsParentDigest : Digest → Type 0
  IsParentDigest x =
      (c : Bottle) × Memᴰ c t.bottles
      × (d : Digest) × Memᴰ d ds
      × Names t c d
      × (s : Source) × Memᴰ s c.sources
      × (s.bottle_digest ≡ x)

  Memᴰ-parent_digests : (x : Digest) → Memᴰ x (parent_digests ds t) ↔ IsParentDigest x
  unfolding parent_digests
  Memᴰ-parent_digests x = (
    λ m.
        let p = (Memᴰ-map (λ (r : (Bottle × DigestAlias) × Source). r.1.bottle_digest) _ x).0 m in
        let q = (Memᴰ-owned (λ (r : Bottle × DigestAlias). r.0.sources) _ p.0.0 p.0.1).0 p.1 in
        let r = (Memᴰ-named_in t ds _ p.0.0).0 q.0 in
        let w = (Memᴰ-with_digests t t.bottles p.0.0.0 p.0.0.1).0 r.0 in
        (p.0.0.0, w.0, p.0.0.1.digest, r.1, (p.0.0.1, w.1, w.2, refl), p.0.1, q.1, sym p.2),
    λ (c, m, d, n, (a, at, of, named), s, own, e). Memᴰ.cast (sym e) (
        Memᴰ-map_self (λ (r : (Bottle × DigestAlias) × Source). r.1.bottle_digest) _ ((c, a), s)
          ((Memᴰ-owned (λ (r : Bottle × DigestAlias). r.0.sources) _ (c, a) s).1 (
            (Memᴰ-named_in t ds _ (c, a)).1
                ((Memᴰ-with_digests t t.bottles c a).1 (m, at, of), Memᴰ.cast named n),
            own,
          ))),
  )

  -- A digest of data that has one of the digests.
  Memᴰ-child_digests :
      (x : Digest)
      → Memᴰ x (child_digests ds t) ↔ (
          (a : DigestAlias) × Memᴰ a t.digests
          × (a.digest ≡ x)
          × (o : DigestAlias) × Memᴰ o t.digests
          × (a.data_id ≡ o.data_id)
          × Memᴰ o.digest ds)
  unfolding child_digests
  Memᴰ-child_digests x = (
    λ m.
        let p = (Memᴰ-map (λ (r : DigestAlias × DigestAlias). r.0.digest) _ x).0 m in
        let q =
          (Memᴰ-select (λ (r : DigestAlias × DigestAlias). is_in ds r.1.digest) _ p.0).0 p.1 in
        let r =
          (Memᴰ-inner_join (λ (a : DigestAlias) (o : DigestAlias). a.data_id == o.data_id) t.digests
              t.digests p.0.0 p.0.1).0
            q.0 in
        (
          p.0.0,
          r.0,
          sym p.2,
          p.0.1,
          r.1,
          (==_iff p.0.0.data_id p.0.1.data_id).0 r.2,
          (any-str_eq p.0.1.digest ds).0 q.1,
        ),
    λ (a, at, e, o, at', same, n). Memᴰ.cast (sym e) (
        Memᴰ-map_self (λ (r : DigestAlias × DigestAlias). r.0.digest) _ (a, o)
          ((Memᴰ-select (λ (r : DigestAlias × DigestAlias). is_in ds r.1.digest) _ (a, o)).1 (
            (Memᴰ-inner_join (λ (a : DigestAlias) (o : DigestAlias). a.data_id == o.data_id)
                  t.digests t.digests a o).1
                (at, at', (==_iff a.data_id o.data_id).1 same),
            (any-str_eq o.digest ds).1 n,
          ))),
  )

  Memᴰ-children_of :
      (rows : List Bottle) (c : Bottle)
      → Memᴰ c (children_of ds t rows) ↔ (
          Memᴰ c rows × (s : Source) × Memᴰ s c.sources × Memᴰ s.bottle_digest (child_digests ds t))
  unfolding children_of
  Memᴰ-children_of rows c = (
    λ m.
        let p = (Memᴰ-map (λ (r : Bottle × Source). r.0) _ c).0 m in
        let q =
          (Memᴰ-select (λ (r : Bottle × Source). is_in (child_digests ds t) r.1.bottle_digest) _
              p.0).0
            p.1 in
        let r = (Memᴰ-owned (λ (b : Bottle). b.sources) rows p.0.0 p.0.1).0 q.0 in
        subst
          (λ z.
            Memᴰ z rows
            × (s : Source) × Memᴰ s z.sources
            × Memᴰ s.bottle_digest (child_digests ds t))
          (sym p.2) (r.0, p.0.1, r.1, (any-str_eq p.0.1.bottle_digest (child_digests ds t)).0 q.1),
    λ (m, s, own, n).
        Memᴰ-map_self (λ (r : Bottle × Source). r.0) _ (c, s)
          ((Memᴰ-select (λ (r : Bottle × Source). is_in (child_digests ds t) r.1.bottle_digest) _
              (c, s)).1
            (
              (Memᴰ-owned (λ (b : Bottle). b.sources) rows c s).1 (m, own),
              (any-str_eq s.bottle_digest (child_digests ds t)).1 n,
            )),
  )

-- A source of the child names a digest of the parent.
abbrev pub LinksTo : Tables → Bottle → Bottle → Type 0
LinksTo t c p = (s : Source) × Memᴰ s c.sources × Names t p s.bottle_digest

module _ (t : Tables) (keys : IsKeyed t) (p c : Bottle) (d : Digest) where
  -- The parents of a bottle of the table, asked for by one of its digests, are the bottles that its
  -- sources name.
  pub parents_of-LinksTo :
      Memᴰ c t.bottles
      → Names t c d
      → Memᴰ p (parents_of (d ∷ []) t t.bottles) ↔ (Memᴰ p t.bottles × LinksTo t c p)
  unfolding parents_of
  parents_of-LinksTo at named =
      let rows = Memᴰ-named_bottles t (parent_digests (d ∷ []) t) t.bottles p in
      (
        λ m.
            let (n, x, k, names) = rows.0 m in
            let (b, at', e, one, names', s, own, same) = (Memᴰ-parent_digests t (d ∷ []) x).0 k in
            let b≡c =
              one_named t keys b c e at' at names'
                (subst (λ z. Names t c z) (sym (Memᴰ.eq_of_singleton one)) named) in
            (
              n,
              (s, subst (λ z. Memᴰ s z.sources) b≡c own, subst (λ z. Names t p z) (sym same) names),
            ),
        λ (n, (s, own, names)). rows.1 (
          n,
          s.bottle_digest,
          (Memᴰ-parent_digests t (d ∷ []) s.bottle_digest).1
              (c, at, d, Memᴰ.head refl, named, s, own, refl),
          names,
        ),
      )

  -- The children of a bottle of the table, asked for by one of its digests, are the bottles with a
  -- source that names it.
  pub children_of-LinksTo :
      Names t p d → Memᴰ c (children_of (d ∷ []) t t.bottles) ↔ (Memᴰ c t.bottles × LinksTo t c p)
  children_of-LinksTo (x, here, of, named) =
      let rows = Memᴰ-children_of t (d ∷ []) t.bottles c in
      (
        λ m.
            let (n, s, own, k) = rows.0 m in
            let (a, at, e, o, at', same, one) =
              (Memᴰ-child_digests t (d ∷ []) s.bottle_digest).0 k in
            let agree = keys.one_data o x at' here (Memᴰ.eq_of_singleton one ∙ sym named) in
            (n, (s, own, (a, at, same ∙ agree ∙ of, e))),
        λ (n, (s, own, (a, at, of', e))). rows.1 (
          n,
          s,
          own,
          (Memᴰ-child_digests t (d ∷ []) s.bottle_digest).1
              (a, at, e, x, here, of' ∙ sym of, Memᴰ.head named),
        ),
      )

-- In tables with unique digests and one bottle for each data record, a bottle is among the parents of
-- a digest of another exactly when that other is among the children of a digest of the first.
pub parents_of-children_of :
    (t : Tables) (p c : Bottle) (d e : Digest)
    → IsKeyed t
    → Memᴰ p t.bottles
    → Memᴰ c t.bottles
    → Names t p d
    → Names t c e
    → Memᴰ p (parents_of (e ∷ []) t t.bottles) ↔ Memᴰ c (children_of (d ∷ []) t t.bottles)
parents_of-children_of t p c d e keys m n of of' =
    let up = parents_of-LinksTo t keys p c e n of' in
    let down = children_of-LinksTo t keys p c d of in
    (λ h. down.1 (n, (up.0 h).1), λ h. up.1 (m, (down.0 h).1))
