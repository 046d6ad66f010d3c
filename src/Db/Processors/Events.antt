-- ===== src/Db/Processors/Events.antt =====
-- internal/db/event_processor.go, at the time `now`.
use data_telemetry.Prelude.{
  ℕ, ◌≡◌, refl, ◌⊎◌, inl, inr, Option, none, some, List, [], ◌∷◌, Memᴰ, ◌==◌, ==_iff, if◌then◌else◌,
  Bool-cases,
}
use mathlib.Core.List.Memᴰ
use mathlib.Core.Path.{subst}
use data_telemetry.Errors.{missing_digests, Result, as_http}
use data_telemetry.Action.{Action, lift, ◌>>=◌, ◌>>◌}
use data_telemetry.Types.{Time}
use data_telemetry.Types.Documents.{EventDto, Rules, validate_event}
use data_telemetry.Db.Models.{Base, Bottle, Manifest, Event, Tables}
use data_telemetry.Db.Gorm.{Gorm}
use data_telemetry.Db.Documents.{Documents}
use data_telemetry.Db.Processors.{Processor, first_named, found_or}

-- Preload("Bottle"), by the key that the manifest has.
unfoldable pub preload_bottle : ℕ → List Bottle → Option Bottle
preload_bottle i [] = none
preload_bottle i (b ∷ bs) =
    let rest = preload_bottle i bs in if b.base.id == i then some b else rest

-- The key of a bottle that was preloaded; that of the zero value is 0.
abbrev pub bottle_key : Option Bottle → ℕ
bottle_key none = 0
bottle_key (some b) = b.base.id

-- The row of an event. gorm takes the foreign keys from the manifest and from its bottle.
unfoldable pub event_row : Base → EventDto → Manifest → Option Bottle → Event
event_row base e m bottle = record {
  base = base;
  manifest_id = m.base.id;
  manifest_digest = e.manifest_digest;
  bottle_id = bottle_key bottle;
  bottle_digest = m.bottle_digest;
  action = e.action;
  repository = e.repository;
  tag = e.tag;
  auth_required = e.auth_required;
  bandwidth = e.bandwidth;
  timestamp = e.timestamp;
  username = e.username;
}

module _ (g : Gorm) (d : Documents) (r : Rules) (now : Time) where
  unfoldable pub parse_event : Base → Result EventDto
  parse_event base = as_http 409 "Failed to parse event" (d.parse_event base.content.raw_data)

  unfoldable pub find_manifest : EventDto → Tables → Result Manifest
  unfolding first_named
  find_manifest e t =
      found_or (missing_digests "manifest" (e.manifest_digest ∷ []))
        (first_named (λ (m : Manifest). m.base) e.manifest_digest t t.manifests)

  unfoldable pub process_event : Base → Action Tables (Unit {0})
  unfolding parse_event find_manifest event_row preload_bottle validate_event
  process_event base = do
    e ← lift (parse_event base)
    lift (as_http 400 "Invalid event definition" (validate_event r now e))
    lift (as_http 400 "Invalid manifestDigest" (d.validate_digest e.manifest_digest))
    t ← g.read
    m ← lift (find_manifest e t)
    g.save_event (event_row base e m (preload_bottle m.bottle_id t.bottles))

  unfoldable pub event_processor : Processor
  unfolding process_event
  event_processor = record { primary_table = "events"; version = 3; process = process_event }

-- Preloading finds a bottle with the key, or there is none.
pub preload_bottle-cases :
    (i : ℕ) (bs : List Bottle)
    → ((preload_bottle i bs ≡ none) × ((b : Bottle) → Memᴰ b bs → b.base.id ≡ i → ⊥))
      ⊎ ((b : Bottle) × (preload_bottle i bs ≡ some b) × Memᴰ b bs × (b.base.id ≡ i))
unfolding preload_bottle
preload_bottle-cases i [] = inl (refl, λ b m e. Memᴰ.not-nil m)
preload_bottle-cases i (b ∷ bs) = elim (Bool-cases (b.base.id == i)) [
  | inl same ↦ inr (b, rw same refl, Memᴰ.head refl, (==_iff b.base.id i).0 same)
  | inr other ↦ elim (preload_bottle-cases i bs) [
    | inl (none', absent) ↦ inl (
      rw other none',
      λ x m e. elim (Memᴰ.cases_cons m) [
        | inl here ↦
            cc (other, (==_iff b.base.id i).1 (subst (λ (z : Bottle). z.base.id ≡ i) here e))
        | inr rest ↦ absent x rest e
      ],
    )
    | inr (x, found, m, e) ↦ inr (x, rw other found, Memᴰ.tail m, e)
  ]
]
