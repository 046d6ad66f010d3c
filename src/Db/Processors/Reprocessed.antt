-- ===== src/Db/Processors/Reprocessed.antt =====
-- internal/db/processor.go and blob_processor.go: reprocessing ends, with every blob up to date.
use mathlib.Core.Path.{subst}
use data_telemetry.Prelude.{
  ℕ, zero, suc, ◌<◌, ◌≡◌, refl, sym, ◌∙◌, ap, Bool, true, false, List, [], ◌∷◌, map, arith, ltb,
  ◌==◌, ==_iff, if◌then◌else◌, select, Bool-cases, inl, inr,
}
use data_telemetry.Errors.{GoError, Result, ok, fail, ok-injective}
use data_telemetry.Action.{follow}
use data_telemetry.Action.Returns.{Returns, Returns-weaken, Returns_of_eq}
use data_telemetry.Db.Models.{Data, Base, Blob, Tables}
use data_telemetry.Db.Gorm.{Gorm, first_row, bases}
use data_telemetry.Db.Processors.{loaded, blob_processor, reprocess, reprocess_row}

abbrev pub has_id : ℕ → List Blob → Bool
has_id i [] = false
has_id i (x ∷ xs) = if i == x.base.id then true else has_id i xs

abbrev pub DistinctIds : List Blob → Type 0
DistinctIds [] = Unit
DistinctIds (x ∷ xs) = (has_id x.base.id xs ≡ false) × DistinctIds xs

-- `Save` of a row with a primary key that is there.
abbrev pub replaced : Blob → List Blob → List Blob
replaced x [] = []
replaced x (y ∷ ys) = if x.base.id == y.base.id then x ∷ replaced x ys else y ∷ replaced x ys

abbrev outdated : Blob → Bool
outdated x = ltb x.base.processor_version 3

abbrev first_outdated : List Blob → Result Base
first_outdated xs =
    first_row (select (λ (b : Base). ltb b.processor_version 3) (map (λ (x : Blob). x.base) xs))

-- The number of blobs that an older version processed.
abbrev pub pending : List Blob → ℕ
pending [] = 0
pending (x ∷ xs) = let rest = pending xs in if outdated x then suc rest else rest

-- A database that is up: reads succeed, and so does `Save` of a row whose key is there.
pub record IsUp (g : Gorm) : Type 0 where
  pub reads : (s : Tables) → g.read s ≡ (ok s, s)
  pub saves :
      (x : Blob) (s : Tables)
      → has_id x.base.id s.blobs ≡ true
      → g.save_blob x s ≡ (ok tt, record s { blobs = replaced x s.blobs })

module _ (rows : List Data) where
  -- A blob after it was processed at the current version.
  abbrev pub processed : Base → Blob
  processed b = record { base = record b { content = loaded rows b; processor_version = 3 } }

  abbrev pub brought_up : Blob → Blob
  brought_up x = if outdated x then processed x.base else x

  replaced_absent : (x : Blob) (xs : List Blob) → has_id x.base.id xs ≡ false → replaced x xs ≡ xs
  replaced_absent x [] h = refl
  replaced_absent x (y ∷ ys) h = ground (arith, replaced_absent x ys)

  has_id-first_outdated :
      (xs : List Blob) (b : Base) → first_outdated xs ≡ ok b → has_id b.id xs ≡ true
  has_id-first_outdated [] b h = cc
  has_id-first_outdated (x ∷ xs) b h = ground (arith, has_id-first_outdated xs b)

  differs :
      (b : Base) (x : Blob) (xs : List Blob)
      → has_id b.id xs ≡ true
      → has_id x.base.id xs ≡ false
      → (b.id == x.base.id) ≡ false
  differs b x xs here absent = elim (Bool-cases (b.id == x.base.id)) [
    | inl same ↦ cc (here, absent, (==_iff b.id x.base.id).0 same)
    | inr other ↦ other
  ]

  brought_up-replaced :
      (xs : List Blob) (b : Base)
      → DistinctIds xs
      → first_outdated xs ≡ ok b
      → map brought_up (replaced (processed b) xs) ≡ map brought_up xs
  brought_up-replaced [] b d h = refl
  brought_up-replaced (x ∷ xs) b d h =
      let absent = d.0 in
      elim (Bool-cases (outdated x)) [
        | inl old ↦
            subst
              (λ b'. map brought_up (replaced (processed b') (x ∷ xs)) ≡ map brought_up (x ∷ xs))
              (ok-injective x.base b (rw old at h))
              (rw
                (
                  (==_iff x.base.id x.base.id).1 refl,
                  replaced_absent (processed x.base) xs d.0,
                  old,
                )
                refl)
        | inr new ↦
            let later : first_outdated xs ≡ ok b = rw new at h in
            let differ = differs b x xs (has_id-first_outdated xs b later) absent in
            rw differ (ap (λ l. brought_up x ∷ l) (brought_up-replaced xs b d.1 later))
      ]

  pending-replaced :
      (xs : List Blob) (b : Base)
      → DistinctIds xs
      → first_outdated xs ≡ ok b
      → suc (pending (replaced (processed b) xs)) ≡ pending xs
  pending-replaced [] b d h = cc
  pending-replaced (x ∷ xs) b d h = elim (Bool-cases (outdated x)) [
    | inl old ↦
        subst (λ b'. suc (pending (replaced (processed b') (x ∷ xs))) ≡ pending (x ∷ xs))
          (ok-injective x.base b (rw old at h))
          (rw ((==_iff x.base.id x.base.id).1 refl, replaced_absent (processed x.base) xs d.0, old)
            refl)
    | inr new ↦
        let later : first_outdated xs ≡ ok b = rw new at h in
        let differ = differs b x xs (has_id-first_outdated xs b later) d.0 in
        rw (differ, new) (pending-replaced xs b d.1 later)
  ]

  has_id-replaced : (i : ℕ) (x : Blob) (xs : List Blob) → has_id i (replaced x xs) ≡ has_id i xs
  has_id-replaced i x [] = refl
  has_id-replaced i x (y ∷ ys) = ground (arith, has_id-replaced i x ys)

  replaced-DistinctIds : (x : Blob) (xs : List Blob) → DistinctIds xs → DistinctIds (replaced x xs)
  replaced-DistinctIds x [] d = tt
  replaced-DistinctIds x (y ∷ ys) d = elim (Bool-cases (x.base.id == y.base.id)) [
    | inl same ↦ rw same (
      has_id-replaced x.base.id x ys ∙ rw ((==_iff x.base.id y.base.id).0 same) d.0,
      replaced-DistinctIds x ys d.1,
    )
    | inr other ↦ rw other (has_id-replaced y.base.id x ys ∙ d.0, replaced-DistinctIds x ys d.1)
  ]

  brought_up_none :
      (xs : List Blob) (e : GoError) → first_outdated xs ≡ fail e → map brought_up xs ≡ xs
  brought_up_none [] e h = refl
  brought_up_none (x ∷ xs) e h = elim (Bool-cases (outdated x)) [
    | inl old ↦ cc (rw old at h)
    | inr new ↦ rw new (ap (λ l. x ∷ l) (brought_up_none xs e (rw new at h)))
  ]

module _ (g : Gorm) (up : IsUp g) where
  abbrev with_blobs : Tables → List Blob → Tables
  with_blobs t xs = record t { blobs = xs }

  round_none :
      (fuel : ℕ) (t : Tables) (e : GoError)
      → first_outdated t.blobs ≡ fail e
      → reprocess g (blob_processor g) (suc fuel) t ≡ (ok tt, t)
  unfolding reprocess blob_processor bases
  round_none fuel t e h =
      let p = blob_processor g in
      let again = reprocess g p fuel in
      ap
        (λ (r : Result Tables × Tables).
          follow (λ rows. reprocess_row g p again rows (first_outdated rows.blobs)) r.0 r.1)
        (up.reads t)
      ∙ ap (λ r. reprocess_row g p again t r t) h

  round_some :
      (fuel : ℕ) (t : Tables) (b : Base)
      → first_outdated t.blobs ≡ ok b
      → reprocess g (blob_processor g) (suc fuel) t
        ≡ reprocess g
            (blob_processor g)
            fuel
            (with_blobs t (replaced (processed t.data_rows b) t.blobs))
  unfolding reprocess blob_processor bases
  round_some fuel t b h =
      let p = blob_processor g in
      let again = reprocess g p fuel in
      let saved =
        up.saves (processed t.data_rows b) t (has_id-first_outdated t.data_rows t.blobs b h) in
      ap
        (λ (r : Result Tables × Tables).
          follow (λ rows. reprocess_row g p again rows (first_outdated rows.blobs)) r.0 r.1)
        (up.reads t)
      ∙ ap (λ r. reprocess_row g p again t r t) h
      ∙ ap (λ (r : Result (Unit {0}) × Tables). follow (λ u. again) r.0 r.1) saved

  -- On a database that is up and whose blobs have distinct keys, reprocessing the blobs ends within
  -- as many rounds as there are blobs of an older version, and one more, and returns no error. Each
  -- blob of an older version is then at the current version, with its own data loaded; the other
  -- blobs and all other tables are as they were.
  pub reprocess-brought_up :
      (fuel : ℕ) (t : Tables)
      → DistinctIds t.blobs
      → pending t.blobs < fuel
      → Returns
          (reprocess g (blob_processor g) fuel)
          t
          tt
          (λ t'. t' ≡ record t { blobs = map (brought_up t.data_rows) t.blobs })
  unfolding reprocess blob_processor bases
  reprocess-brought_up zero t d room = absurd (omega arith)
  reprocess-brought_up (suc fuel) t d room =
      go (λ next distinct fits. reprocess-brought_up fuel next distinct fits)
        (first_outdated t.blobs) refl
    where
      go :
          ((next : Tables)
            → DistinctIds next.blobs
            → pending next.blobs < fuel
            → Returns
                (reprocess g (blob_processor g) fuel)
                next
                tt
                (λ t'. t' ≡ record next { blobs = map (brought_up next.data_rows) next.blobs }))
          → (r : Result Base) → first_outdated t.blobs ≡ r
          → Returns
              (reprocess g (blob_processor g) (suc fuel))
              t
              tt
              (λ t'. t' ≡ record t { blobs = map (brought_up t.data_rows) t.blobs })
      go again (fail e) h = record {
        value = ap (λ r. r.0) (round_none fuel t e h);
        after =
            ap (λ r. r.1) (round_none fuel t e h)
            ∙ ap (λ l. record t { blobs = l }) (sym (brought_up_none t.data_rows t.blobs e h));
      }
      go again (ok b) h =
          let next = with_blobs t (replaced (processed t.data_rows b) t.blobs) in
          let fits = pending-replaced t.data_rows t.blobs b d h in
          let rest =
            again next (replaced-DistinctIds t.data_rows (processed t.data_rows b) t.blobs d)
              (omega arith) in
          Returns_of_eq (reprocess g (blob_processor g) (suc fuel))
            (reprocess g (blob_processor g) fuel) t next tt (round_some fuel t b h)
            (Returns-weaken _ next tt rest λ t' e.
              e ∙ ap (λ l. record t { blobs = l }) (brought_up-replaced t.data_rows t.blobs b d h))
