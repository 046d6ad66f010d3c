-- ===== src/Db/Processors/Linked/Rewriting.antt =====
-- Writes to one table keep the foreign keys of all, and so do reads and lookups.
use data_telemetry.Prelude.{
  ℕ, ◌⊎◌, ◌≡◌, refl, sym, ◌∙◌, List, [], ◌∷◌, Memᴰ, map, inl, inr, Memᴰ-map,
}
use mathlib.Core.List.Memᴰ
use mathlib.Core.Path.{subst}
use data_telemetry.Errors.{Digest, GoError, Result, ok, fail, ok-injective}
use data_telemetry.Action.Ensures.{Post}
use data_telemetry.Db.Models.{Base, Bottle, PublicArtifact, Manifest, Event, Signature, Tables}
use data_telemetry.Db.Gorm.{ReadOutcome, first_row}
use data_telemetry.Db.Scopes.{aliases_in, filter_by_digests}
use data_telemetry.Db.Processors.{found_or, first_named}
use data_telemetry.Db.Processors.Linked.{
  HasBottle, HasManifest, HasData, IsLinked, Rewrites, Written, BottlesRewrites, ManifestsRewrites,
  EventsRewrites, SignaturesRewrites,
}

-- A row of the table after a write is like a given row or like an old one.
known_cases :
    {Row : Type 0} {id : Row → ℕ} {Same : Row → Row → Type 0} (P : Row → Type 0)
    (given old rows : List Row)
    → Rewrites id Same given old rows
    → ((x y : Row) → Same x y → P x → P y)
    → ((x : Row) → Memᴰ x given → P x)
    → ((x : Row) → Memᴰ x old → P x)
    → (y : Row) → Memᴰ y rows
    → P y
known_cases P given old rows w like new before y m =
    let (x, n, same) = w.known y m in
    like x y same (elim (Memᴰ.append_cases given n) [ inl g ↦ new x g | inr k ↦ before x k ])

-- A key that a row had, some row has after the write.
still_there :
    {Row : Type 0} {id : Row → ℕ} {Same : Row → Row → Type 0} (given old rows : List Row) (i : ℕ)
    → Rewrites id Same given old rows
    → ((x : Row) × Memᴰ x old × (id x ≡ i))
    → (y : Row) × Memᴰ y rows × (id y ≡ i)
still_there given old rows i w (x, m, e) = let (y, n, same) = w.kept x m in (y, n, same ∙ e)

-- An outcome of a write keeps what both of its kinds keep.
pub Written-Post :
    {Row : Type 0} {Allowed : List Row → Type 0} {put : List Row → Tables} {s : Tables}
    (P : Tables → Type 0) (r : Result (Unit {0}) × Tables)
    → Written Allowed put s r
    → P s
    → ((rows : List Row) → Allowed rows → P (put rows))
    → Post (λ u t. P t) P r
Written-Post P r (Written.failed e) h k = h
Written-Post P r (Written.written rows w) h k = k rows w

pub rewritten_bottles :
    (given : List Bottle) (s : Tables) (rows : List Bottle)
    → BottlesRewrites given s.bottles rows
    → ((b : Bottle) (a : PublicArtifact)
        → Memᴰ b given
        → Memᴰ a b.public_artifacts
        → HasData s a.data_id)
    → IsLinked s
    → IsLinked (record s { bottles = rows })
rewritten_bottles given s rows v new l = record {
  digest_data = l.digest_data;
  manifest_bottle = λ m n. still_there given s.bottles rows _ v (l.manifest_bottle m n);
  event_manifest = l.event_manifest;
  event_bottle = λ e n. still_there given s.bottles rows _ v (l.event_bottle e n);
  signature_manifest = l.signature_manifest;
  signature_bottle = λ x n. still_there given s.bottles rows _ v (l.signature_bottle x n);
  artifact_data = λ b a n.
      known_cases (λ b. (a : PublicArtifact) → Memᴰ a b.public_artifacts → HasData s a.data_id)
        given s.bottles rows v
        (λ x y same h a k. let (o, here, e) = same a k in subst (HasData s) e (h o here))
        (λ x g a k. new x a g k) (λ x k a m. l.artifact_data x a k m) b n a;
}

pub rewritten_manifests :
    (given : List Manifest) (s : Tables) (rows : List Manifest)
    → ManifestsRewrites given s.manifests rows
    → ((m : Manifest) → Memᴰ m given → HasBottle s m.bottle_id)
    → IsLinked s
    → IsLinked (record s { manifests = rows })
rewritten_manifests given s rows v new l = record {
  digest_data = l.digest_data;
  manifest_bottle =
      known_cases (λ (m : Manifest). HasBottle s m.bottle_id) given s.manifests rows v
        (λ x y same h. subst (HasBottle s) same h) new l.manifest_bottle;
  event_manifest = λ e n. still_there given s.manifests rows _ v (l.event_manifest e n);
  event_bottle = l.event_bottle;
  signature_manifest = λ x n. still_there given s.manifests rows _ v (l.signature_manifest x n);
  signature_bottle = l.signature_bottle;
  artifact_data = l.artifact_data;
}

pub rewritten_events :
    (e : Event) (s : Tables) (rows : List Event)
    → EventsRewrites (e ∷ []) s.events rows
    → HasManifest s e.manifest_id
    → HasBottle s e.bottle_id
    → IsLinked s
    → IsLinked (record s { events = rows })
rewritten_events e s rows v m b l = record {
  digest_data = l.digest_data;
  manifest_bottle = l.manifest_bottle;
  event_manifest =
      known_cases (λ (x : Event). HasManifest s x.manifest_id) (e ∷ []) s.events rows v
        (λ x y same h. subst (HasManifest s) same.0 h)
        (λ x g. subst (λ (z : Event). HasManifest s z.manifest_id) (sym (Memᴰ.eq_of_singleton g)) m)
        l.event_manifest;
  event_bottle =
      known_cases (λ (x : Event). HasBottle s x.bottle_id) (e ∷ []) s.events rows v
        (λ x y same h. subst (HasBottle s) same.1 h)
        (λ x g. subst (λ (z : Event). HasBottle s z.bottle_id) (sym (Memᴰ.eq_of_singleton g)) b)
        l.event_bottle;
  signature_manifest = l.signature_manifest;
  signature_bottle = l.signature_bottle;
  artifact_data = l.artifact_data;
}

pub rewritten_signatures :
    (x : Signature) (s : Tables) (rows : List Signature)
    → SignaturesRewrites (x ∷ []) s.signatures rows
    → HasManifest s x.manifest_id
    → HasBottle s x.bottle_id
    → IsLinked s
    → IsLinked (record s { signatures = rows })
rewritten_signatures e s rows v m b l = record {
  digest_data = l.digest_data;
  manifest_bottle = l.manifest_bottle;
  event_manifest = l.event_manifest;
  event_bottle = l.event_bottle;
  signature_manifest =
      known_cases (λ (x : Signature). HasManifest s x.manifest_id) (e ∷ []) s.signatures rows v
        (λ x y same h. subst (HasManifest s) same.0 h)
        (λ x g.
          subst (λ (z : Signature). HasManifest s z.manifest_id) (sym (Memᴰ.eq_of_singleton g)) m)
        l.signature_manifest;
  signature_bottle =
      known_cases (λ (x : Signature). HasBottle s x.bottle_id) (e ∷ []) s.signatures rows v
        (λ x y same h. subst (HasBottle s) same.1 h)
        (λ x g. subst (λ (z : Signature). HasBottle s z.bottle_id) (sym (Memᴰ.eq_of_singleton g)) b)
        l.signature_bottle;
  artifact_data = l.artifact_data;
}

-- A read returns the tables as they are, or fails.
pub ReadOutcome-cases :
    (s : Tables) (r : Result Tables × Tables)
    → ReadOutcome s r
    → (r ≡ (ok s, s)) ⊎ ((e : GoError) × (r ≡ (fail e, s)))
ReadOutcome-cases s r (ReadOutcome.failed e) = inr (e, refl)
ReadOutcome-cases s r ReadOutcome.read_all = inl refl

pub of_found_or : {A : Type 0} (e : GoError) (r : Result A) (a : A) → found_or e r ≡ ok a → r ≡ ok a
of_found_or e (ok x) a h = h
of_found_or e (fail x) a h = absurd (go x h)
  where
    go : (x : GoError) → found_or e (fail x) ≡ ok a → ⊥
    go (GoError.record_not_found) h = cc
    go x h = cc

module _ {Row : Type 0} (base : Row → Base) (d : Digest) (t : Tables) where
  Memᴰ-filter_by_digests :
      (rows : List Row) (r : Row)
      → Memᴰ r (filter_by_digests (λ r. (base r).data_id) (d ∷ []) t.digests rows)
      → Memᴰ r rows
  unfolding filter_by_digests
  Memᴰ-filter_by_digests [] r m = m
  Memᴰ-filter_by_digests (x ∷ xs) r m =
      elim (Memᴰ.append_cases (map (λ a. x) (aliases_in (d ∷ []) (base x).data_id t.digests)) m) [
        | inl here ↦ Memᴰ.head ((Memᴰ-map (λ a. x) _ r).0 here).2
        | inr rest ↦ Memᴰ.tail (Memᴰ-filter_by_digests xs r rest)
      ]

  of_first_row : (rows : List Row) (r : Row) → first_row rows ≡ ok r → Memᴰ r rows
  of_first_row [] r h = cc
  of_first_row (x ∷ xs) r h = Memᴰ.head (sym (ok-injective x r h))

  -- What a lookup by digest finds is a row of the table.
  pub first_named-Memᴰ :
      (rows : List Row) (r : Row) → first_named base d t rows ≡ ok r → Memᴰ r rows
  unfolding first_named
  first_named-Memᴰ rows r h = Memᴰ-filter_by_digests rows r (of_first_row _ r h)
