-- ===== src/Db/Processors/Dependencies.antt =====
-- internal/db/event_processor.go and manifest_processor.go: what becomes of an object by whether what it
-- refers to is stored.
use data_telemetry.Prelude.{
  ◌≡◌, ◌≢◌, ◌⊎◌, refl, sym, ap, ◌∙◌, Bool, true, false, List, [], ◌∷◌, Memᴰ, length, str_eq, ◌==◌,
  ==_iff, Bool-cases, inl, inr, any, if◌then◌else◌, Memᴰ-select, any-str_eq, List-cases,
}
use mathlib.Core.List.Memᴰ
use mathlib.Core.Path.{subst}
use data_telemetry.Errors.{Digest, GoError, missing_digests, http_error, record_not_found, ok, fail}
use data_telemetry.Action.{◌>>=◌}
use data_telemetry.Types.{Time}
use data_telemetry.Types.Documents.{EventDto, Rules, validate_event}
use data_telemetry.Db.Models.{DigestAlias, Base, Bottle, Manifest, Event, Tables}
use data_telemetry.Db.Gorm.{Gorm, first_row}
use data_telemetry.Db.Scopes.{aliases_in, filter_by_digests}
use data_telemetry.Db.Documents.{Documents, Deletes, OciManifest}
use data_telemetry.Db.Processors.{first_named, found_or}
use data_telemetry.Db.Processors.Manifests.{
  with_media_type, validate_manifest_against_bottle, parse_manifest, find_bottle, process_layers,
  process_manifest,
}
use data_telemetry.Db.Processors.Events.{
  event_row, preload_bottle, preload_bottle-cases, bottle_key, parse_event, find_manifest,
  process_event,
}

-- The data of the row has the digest.
abbrev pub IsNamed : Tables → Base → Digest → Type 0
IsNamed t b d = (a : DigestAlias) × Memᴰ a t.digests × (b.data_id ≡ a.data_id) × (a.digest ≡ d)

module _ {Row : Type 0} (base : Row → Base) (d : Digest) (t : Tables) where
  Memᴰ-aliases_in :
      (r : Row) (a : DigestAlias)
      → Memᴰ a (aliases_in (d ∷ []) (base r).data_id t.digests)
      → IsNamed t (base r) d
  unfolding aliases_in
  Memᴰ-aliases_in r a m =
      let test : DigestAlias → Bool =
        λ a. if (base r).data_id == a.data_id then any (str_eq a.digest) (d ∷ []) else false in
      let (n, h) = (Memᴰ-select test t.digests a).0 m in
      elim (Bool-cases ((base r).data_id == a.data_id)) [
        | inl same ↦ (
          a,
          n,
          (==_iff (base r).data_id a.data_id).0 same,
          Memᴰ.eq_of_singleton ((any-str_eq a.digest (d ∷ [])).0 (rw same at h)),
        )
        | inr other ↦ cc (rw other at h)
      ]

  IsNamed-aliases_in :
      (r : Row) → IsNamed t (base r) d → aliases_in (d ∷ []) (base r).data_id t.digests ≡ [] → ⊥
  unfolding aliases_in
  IsNamed-aliases_in r (a, n, same, named) empty =
      let test : DigestAlias → Bool =
        λ a. if (base r).data_id == a.data_id then any (str_eq a.digest) (d ∷ []) else false in
      let passes : test a ≡ true =
        rw ((==_iff (base r).data_id a.data_id).1 same)
          ((any-str_eq a.digest (d ∷ [])).1 (Memᴰ.head named)) in
      Memᴰ.not-nil (subst (λ l. Memᴰ a l) empty ((Memᴰ-select test t.digests a).1 (n, passes)))

  -- A lookup by digest finds a row that has it, or there is none.
  abbrev Absent : List Row → Type 0
  Absent rows = (r : Row) → Memᴰ r rows → IsNamed t (base r) d → ⊥

  abbrev Present : List Row → Row → Type 0
  Present rows r = Memᴰ r rows × IsNamed t (base r) d

  first_cases :
      (rows : List Row)
      → ((first_row (filter_by_digests (λ r. (base r).data_id) (d ∷ []) t.digests rows)
            ≡ fail record_not_found)
          × Absent rows)
        ⊎ ((r : Row) × (first_row
                (filter_by_digests (λ r. (base r).data_id) (d ∷ []) t.digests rows)
              ≡ ok r)
            × Present rows r)
  unfolding filter_by_digests
  first_cases [] = inl (refl, λ r m n. Memᴰ.not-nil m)
  first_cases (x ∷ xs) = elim (List-cases (aliases_in (d ∷ []) (base x).data_id t.digests)) [
    | inr (a, more, e) ↦ inr (
      x,
      rw e refl,
      (Memᴰ.head refl, Memᴰ-aliases_in x a (subst (λ l. Memᴰ a l) (sym e) (Memᴰ.head refl))),
    )
    | inl e ↦ elim (first_cases xs) [
      | inl (none', absent) ↦ inl (
        rw e none',
        λ r m n. elim (Memᴰ.cases_cons m) [
          | inl same ↦ IsNamed-aliases_in x (subst (λ z. IsNamed t (base z) d) same n) e
          | inr rest ↦ absent r rest n
        ],
      )
      | inr (r, found, (m, n)) ↦ inr (r, rw e found, (Memᴰ.tail m, n))
    ]
  ]

  first_named-cases :
      (missing : GoError) (rows : List Row)
      → ((found_or missing (first_named base d t rows) ≡ fail missing) × Absent rows)
        ⊎ ((r : Row) × (found_or missing (first_named base d t rows) ≡ ok r) × Present rows r)
  unfolding first_named
  first_named-cases missing rows = elim (first_cases rows) [
    | inl (none', absent) ↦ inl (rw none' refl, absent)
    | inr (r, found, at) ↦ inr (r, rw found refl, at)
  ]

-- The row of an event: its own fields, the keys of the manifest and of the bottle of the manifest (0,
-- if no bottle has the key that the manifest names), and the digests of both.
pub record IsEventOf (w : Tables) (base : Base) (e : EventDto) (m : Manifest) (x : Event)
    : Type 0 where
  pub base_kept : x.base ≡ base
  pub manifest_key : x.manifest_id ≡ m.base.id
  pub manifest_named : x.manifest_digest ≡ e.manifest_digest
  pub bottle_keyed :
      ((b : Bottle) × Memᴰ b w.bottles × (b.base.id ≡ m.bottle_id) × (x.bottle_id ≡ m.bottle_id))
      ⊎ (((b : Bottle) → Memᴰ b w.bottles → b.base.id ≡ m.bottle_id → ⊥) × (x.bottle_id ≡ 0))
  pub bottle_named : x.bottle_digest ≡ m.bottle_digest
  pub action_kept : x.action ≡ e.action
  pub repository_kept : x.repository ≡ e.repository
  pub tag_kept : x.tag ≡ e.tag
  pub auth_required_kept : x.auth_required ≡ e.auth_required
  pub bandwidth_kept : x.bandwidth ≡ e.bandwidth
  pub timestamp_kept : x.timestamp ≡ e.timestamp
  pub username_kept : x.username ≡ e.username

event_row-IsEventOf :
    (w : Tables) (base : Base) (e : EventDto) (m : Manifest)
    → IsEventOf w base e m (event_row base e m (preload_bottle m.bottle_id w.bottles))
unfolding event_row
event_row-IsEventOf w base e m = record {
  base_kept = refl;
  manifest_key = refl;
  manifest_named = refl;
  bottle_keyed = elim (preload_bottle-cases m.bottle_id w.bottles) [
    | inl (none', absent) ↦ inr (absent, ap bottle_key none')
    | inr (b, found, at, key) ↦ inl (b, at, key, ap bottle_key found ∙ key)
  ];
  bottle_named = refl;
  action_kept = refl;
  repository_kept = refl;
  tag_kept = refl;
  auth_required_kept = refl;
  bandwidth_kept = refl;
  timestamp_kept = refl;
  username_kept = refl;
}

-- On a database that is up, an event that is valid is refused with its manifest digest as the one that
-- is missing, and changes nothing, if no stored manifest has the digest; otherwise its fields are saved
-- with the key and digest of a stored manifest that has the digest, and with the key of that manifest's
-- bottle, or 0 if that bottle is not stored.
pub process_event-cases :
    (g : Gorm) (d : Documents) (r : Rules) (now : Time) (base : Base) (w : Tables) (e : EventDto)
    → d.parse_event base.content.raw_data ≡ ok e
    → validate_event r now e ≡ ok tt
    → d.validate_digest e.manifest_digest ≡ ok tt
    → g.read w ≡ (ok w, w)
    → ((process_event g d r now base w
          ≡ (fail (missing_digests "manifest" (e.manifest_digest ∷ [])), w))
        × ((m : Manifest) → Memᴰ m w.manifests → IsNamed w m.base e.manifest_digest → ⊥))
      ⊎ ((m : Manifest) × (x : Event) × (process_event g d r now base w ≡ g.save_event x w)
          × IsEventOf w base e m x
          × (Memᴰ m w.manifests × IsNamed w m.base e.manifest_digest))
unfolding process_event parse_event find_manifest
process_event-cases g d r now base w e parsed valid digest read =
    elim (first_named-cases (λ (m : Manifest). m.base) e.manifest_digest w
      (missing_digests "manifest" (e.manifest_digest ∷ [])) w.manifests) [
        | inl (none', absent) ↦ inl (rw (parsed, valid, digest, read, none') refl, absent)
        | inr (m, found, at) ↦
            inr (
              m,
              _,
              rw (parsed, valid, digest, read, found) refl,
              event_row-IsEventOf w base e m,
              at,
            )
      ]

-- On a database that is up, a manifest that is valid is refused with its config digest as the one that
-- is missing if no stored bottle has the digest; with status 400 if a stored bottle has it, but
-- another number of parts than the manifest has layers, and both times changes nothing; otherwise its
-- layers are matched and it is saved with the key of that bottle.
pub process_manifest-cases :
    (g : Gorm) (d : Documents) (o : Deletes) (base : Base) (w : Tables) (m : OciManifest)
    → d.parse_manifest base.content.raw_data ≡ ok m
    → d.validate_manifest (with_media_type m) ≡ ok tt
    → g.read w ≡ (ok w, w)
    → ((process_manifest g d o base w ≡ (fail (missing_digests "bottle" (m.config.digest ∷ [])), w))
        × ((b : Bottle) → Memᴰ b w.bottles → IsNamed w b.base m.config.digest → ⊥))
      ⊎ ((b : Bottle) × (((process_manifest g d o base w ≡ (
        fail (http_error 400 "Manifest is not compatible with the referenced bottle"),
        w,
      ))
              × (length m.layers ≢ length b.parts))
            ⊎ ((process_manifest g d o base w
                  ≡ (process_layers g d o base.id m.layers >>= λ layers. g.save_manifest (record {
                    base = base;
                    bottle_id = b.base.id;
                    bottle_digest = m.config.digest;
                    layers = layers;
                  }))
                      w)
                × (length m.layers ≡ length b.parts)))
          × (Memᴰ b w.bottles × IsNamed w b.base m.config.digest))
unfolding process_manifest parse_manifest find_bottle validate_manifest_against_bottle
process_manifest-cases g d o base w m parsed valid read =
    elim (first_named-cases (λ (b : Bottle). b.base) m.config.digest w
      (missing_digests "bottle" (m.config.digest ∷ [])) w.bottles) [
        | inl (none', absent) ↦ inl (rw (parsed, valid, read, none') refl, absent)
        | inr (b, found, at) ↦ elim (Bool-cases (length m.layers == length b.parts)) [
          | inl same ↦ inr (
            b,
            inr (
              rw (parsed, valid, read, found, same) refl,
              (==_iff (length m.layers) (length b.parts)).0 same,
            ),
            at,
          )
          | inr other ↦ inr (
            b,
            inl (
              rw (parsed, valid, read, found, other) refl,
              λ e. cc (other, (==_iff (length m.layers) (length b.parts)).1 e),
            ),
            at,
          )
        ]
      ]
