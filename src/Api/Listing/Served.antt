-- ===== src/Api/Listing/Served.antt =====
-- internal/api/handlers.go: which entries the list of a table has.
use data_telemetry.Prelude.{
  ◌≡◌, refl, sym, ◌↔◌, String, true, some, List, [], ◌∷◌, map, Memᴰ, select, leb, ◌==◌, ==_iff,
  any_iff, Bool-cases, inl, inr, Memᴰ-map, Memᴰ-map_self, Memᴰ-select,
}
use mathlib.Core.List.Memᴰ
use mathlib.Core.Path.{subst}
use data_telemetry.Errors.{Digest}
use data_telemetry.Types.{ListResultEntry}
use data_telemetry.Db.Models.{Data, DigestAlias, Base, Tables}
use data_telemetry.Db.Gorm.{bases, data_by_id}
use data_telemetry.Api.{Config, preload_data}
use data_telemetry.Api.Listing.{digests_of, has_digests, insert_by_time, order_by_time, list_entry}

Memᴰ-insert_by_time : (b x : Base) (ys : List Base) → Memᴰ b (insert_by_time x ys) ↔ Memᴰ b (x ∷ ys)
unfolding insert_by_time
Memᴰ-insert_by_time b x [] = (λ m. m, λ m. m)
Memᴰ-insert_by_time b x (y ∷ ys) = elim (Bool-cases (leb x.created_at y.created_at)) [
  | inl before ↦ rw before (λ m. m, λ m. m)
  | inr later ↦
      let rest = Memᴰ-insert_by_time b x ys in
      rw later (
        λ m. elim (Memᴰ.cases_cons m) [
          | inl e ↦ Memᴰ.tail (Memᴰ.head e)
          | inr n ↦ elim (Memᴰ.cases_cons (rest.0 n)) [
            | inl e ↦ Memᴰ.head e
            | inr k ↦ Memᴰ.tail (Memᴰ.tail k)
          ]
        ],
        λ m. elim (Memᴰ.cases_cons m) [
          | inl e ↦ Memᴰ.tail (rest.1 (Memᴰ.head e))
          | inr n ↦ elim (Memᴰ.cases_cons n) [
            | inl e ↦ Memᴰ.head e
            | inr k ↦ Memᴰ.tail (rest.1 (Memᴰ.tail k))
          ]
        ],
      )
]

Memᴰ-order_by_time : (b : Base) (xs : List Base) → Memᴰ b (order_by_time xs) ↔ Memᴰ b xs
unfolding order_by_time
Memᴰ-order_by_time b [] = (λ m. m, λ m. m)
Memᴰ-order_by_time b (x ∷ xs) =
    let insert = Memᴰ-insert_by_time b x (order_by_time xs) in
    let rest = Memᴰ-order_by_time b xs in
    (
      λ m. elim (Memᴰ.cases_cons (insert.0 m)) [
        | inl e ↦ Memᴰ.head e
        | inr n ↦ Memᴰ.tail (rest.0 n)
      ],
      λ m.
          insert.1
            (elim (Memᴰ.cases_cons m) [ inl e ↦ Memᴰ.head e | inr n ↦ Memᴰ.tail (rest.1 n) ]),
    )

-- The digest is one of the object's data.
abbrev pub IsDigestOf : Tables → Base → Digest → Type 0
IsDigestOf t b d = (a : DigestAlias) × Memᴰ a t.digests × (b.data_id ≡ a.data_id) × (a.digest ≡ d)

-- The entry has the creation time, exactly the digests, and the stored data of the object.
pub record IsEntryOf (t : Tables) (b : Base) (e : ListResultEntry) : Type 0 where
  pub created : e.created_at ≡ b.created_at
  pub named : (d : Digest) → Memᴰ d e.digests ↔ IsDigestOf t b d
  pub filled : (x : Data) → data_by_id b.data_id t.data_rows ≡ some x → e.content ≡ x.raw_data

-- The entries are those of the objects of the table that have a digest.
pub record IsListing (t : Tables) (table : String) (es : List ListResultEntry) : Type 0 where
  pub only :
      (e : ListResultEntry)
      → Memᴰ e es
      → (b : Base) × Memᴰ b (bases table t) × (d : Digest) × IsDigestOf t b d × IsEntryOf t b e
  pub all :
      (b : Base) (d : Digest)
      → Memᴰ b (bases table t)
      → IsDigestOf t b d
      → (e : ListResultEntry) × Memᴰ e es × IsEntryOf t b e

module _ (c : Config) (t : Tables) where
  -- All objects of a table that have a digest, in the order of their creation.
  unfoldable pub served : String → List ListResultEntry
  served table =
      map (list_entry c t) (order_by_time (select (has_digests t.digests) (bases table t)))

  list_entry-IsEntryOf : (b : Base) → IsEntryOf t b (list_entry c t b)
  unfolding list_entry digests_of preload_data
  list_entry-IsEntryOf b = record {
    created = refl;
    named = λ d. (
      λ m.
          let (a, k, e) = (Memᴰ-map (λ (a : DigestAlias). a.digest) _ d).0 m in
          let (at, same) =
            (Memᴰ-select (λ (a : DigestAlias). b.data_id == a.data_id) t.digests a).0 k in
          (a, at, (==_iff b.data_id a.data_id).0 same, sym e),
      λ (a, at, same, e). Memᴰ.cast (sym e) (
          Memᴰ-map_self (λ (a : DigestAlias). a.digest) _ a
            ((Memᴰ-select (λ (a : DigestAlias). b.data_id == a.data_id) t.digests a).1
              (at, (==_iff b.data_id a.data_id).1 same))),
    );
    filled = λ x e. rw (list_entry, preload_data, e) refl;
  }

  has_digests-IsDigestOf :
      (b : Base) → (has_digests t.digests b ≡ true) ↔ ((d : Digest) × IsDigestOf t b d)
  unfolding has_digests
  has_digests-IsDigestOf b =
      let found = any_iff (λ (a : DigestAlias). b.data_id == a.data_id) t.digests in
      (
        λ h.
            let (a, at, same) = found.0 h in
            (a.digest, (a, at, (==_iff b.data_id a.data_id).0 same, refl)),
        λ (d, (a, at, same, e)). found.1 (a, at, (==_iff b.data_id a.data_id).1 same),
      )

  pub served-IsListing : (table : String) → IsListing t table (served table)
  unfolding served
  served-IsListing table = record {
    only = λ e m.
        let (b, k, same) = (Memᴰ-map (list_entry c t) _ e).0 m in
        let (at, h) =
          (Memᴰ-select (has_digests t.digests) (bases table t) b).0
            ((Memᴰ-order_by_time b _).0 k) in
        let (d, named) = (has_digests-IsDigestOf b).0 h in
        (b, at, d, named, subst (IsEntryOf t b) (sym same) (list_entry-IsEntryOf b));
    all = λ b d at named. (
      list_entry c t b,
      Memᴰ-map_self (list_entry c t) _ b (
          (Memᴰ-order_by_time b _).1 (
            (Memᴰ-select (has_digests t.digests) (bases table t) b).1
              (at, (has_digests-IsDigestOf b).1 (d, named)))),
      list_entry-IsEntryOf b,
    );
  }
