-- ===== src/Db/Processors/Linked/Events.antt =====
-- internal/db/event_processor.go: an event is stored with the keys of a stored manifest and its bottle.
use data_telemetry.Prelude.{inl, inr, ◌≡◌, refl, some}
use data_telemetry.Errors.{ok, Result-cases}
use data_telemetry.Action.Ensures.{Post, Keeps}
use data_telemetry.Types.{Time}
use data_telemetry.Types.Documents.{Rules, EventDto, validate_event}
use data_telemetry.Db.Models.{Base, Manifest, Tables}
use data_telemetry.Db.Gorm.{Gorm}
use data_telemetry.Db.Documents.{Documents, Deletes}
use data_telemetry.Db.Processors.Events.{
  event_row, preload_bottle, preload_bottle-cases, parse_event, find_manifest, process_event,
}
use data_telemetry.Db.Processors.Linked.{IsLinked, IsSaving}
use data_telemetry.Db.Processors.Linked.Rewriting.{
  Written-Post, rewritten_events, ReadOutcome-cases, of_found_or, first_named-Memᴰ,
}

module _ (g : Gorm) (o : Deletes) (d : Documents) (r : Rules) (now : Time) (base : Base)
    (saves : IsSaving g o) where
  event_stored :
      (dto : EventDto) (m : Manifest) (w : Tables)
      → find_manifest g d r now dto w ≡ ok m
      → IsLinked w
      → Post
          (λ u t. IsLinked t)
          IsLinked
          (g.save_event (event_row base dto m (preload_bottle m.bottle_id w.bottles)) w)
  unfolding find_manifest event_row
  event_stored dto m w found h =
      let at =
        first_named-Memᴰ (λ (m : Manifest). m.base) dto.manifest_digest w w.manifests m
          (of_found_or _ _ m found) in
      let (b, in_table, key) = h.manifest_bottle m at in
      elim (preload_bottle-cases m.bottle_id w.bottles) [
        | inl (none', absent) ↦ absurd (absent b in_table key)
        | inr (x, e, n, same) ↦ rw e (
            Written-Post IsLinked _ (saves.saves_event (event_row base dto m (some x)) w) h
              (λ rows v.
                rewritten_events (event_row base dto m (some x)) w rows v (m, at, refl) (x, n, refl)
                  h))
      ]

-- Processing an event keeps every foreign key the key of a row, however it ends.
pub process_event-IsLinked :
    (g : Gorm) (o : Deletes) (d : Documents) (r : Rules) (now : Time) (base : Base)
    → IsSaving g o
    → Keeps IsLinked (process_event g d r now base)
unfolding process_event
process_event-IsLinked g o d r now base saves w h =
    elim (Result-cases (parse_event g d r now base)) [
      | inr (x, e) ↦ rw e h
      | inl (dto, parsed) ↦ elim (Result-cases (validate_event r now dto)) [
        | inr (x, e) ↦ rw (parsed, e) h
        | inl (u, valid) ↦ elim (Result-cases (d.validate_digest dto.manifest_digest)) [
          | inr (x, e) ↦ rw (parsed, valid, e) h
          | inl (u', digest) ↦ elim (ReadOutcome-cases w (g.read w) (saves.reads w)) [
            | inr (x, e) ↦ rw (parsed, valid, digest, e) h
            | inl read ↦ elim (Result-cases (find_manifest g d r now dto w)) [
              | inr (x, e) ↦ rw (parsed, valid, digest, read, e) h
              | inl (m, found) ↦
                  rw (parsed, valid, digest, read, found)
                    (event_stored g o d r now base saves dto m w found h)
            ]
          ]
        ]
      ]
    ]
