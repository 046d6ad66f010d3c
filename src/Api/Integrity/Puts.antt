-- ===== src/Api/Integrity/Puts.antt =====
-- internal/api/handlers.go: every PUT of the shared handler keeps stored digests true.
use data_telemetry.Prelude.{
  ℕ, ◌≡◌, ◌∙◌, ap, String, Option, none, some, [], ◌∷◌, ◌==◌, Bool-cases, inl, inr,
}
use data_telemetry.Errors.{as_http, Digest, Bytes, Result, ok}
use data_telemetry.Action.Ensures.{Post, Post-bind, Post-lift, Post-of_world, Post_world}
use data_telemetry.Db.Models.{Data, DigestAlias, Base, Tables}
use data_telemetry.Db.Gorm.{IsDocumented, DigestOutcome, ReadOutcome, data_by_id}
use data_telemetry.Db.Processors.{Processor}
use data_telemetry.Api.{
  Config, Request, Server, db, write_header, parse_data_put_params, canonical_digest, find_base,
  process_current, process_object, store_data, generic_put_data, no_base,
}
use data_telemetry.Api.Steps.{Post-db, of_as_http}
use data_telemetry.Api.Integrity.{
  All-append, IsIntact, IsDigester, NoCollision, Matches, data_stored, canonical_digest_lem,
  parse_data_put_params-ok,
}

-- A processor works on the tables of the objects, and leaves data and digests alone.
pub record LeavesData (p : Processor) : Type 0 where
  pub same_data : (b : Base) (t : Tables) → (p.process b t).1.data_rows ≡ t.data_rows
  pub same_digests : (b : Base) (t : Tables) → (p.process b t).1.digests ≡ t.digests

module _ (c : Config) where
  IsIntact-of_eq :
      (s t : Tables)
      → t.data_rows ≡ s.data_rows
      → t.digests ≡ s.digests
      → IsIntact c s
      → IsIntact c t
  IsIntact-of_eq s t e f safe = record {
    keyed = rw e safe.keyed;
    canonical = rw e safe.canonical;
    aliases = rw (e, f) safe.aliases;
  }

  abbrev Intact : {A : Type 0} → A → Server → Type 0
  Intact a w = IsIntact c w.tables

  digest_stored :
      (x : Data) (d : Digest) (s : Tables) (r : Result DigestAlias × Tables)
      → DigestOutcome x.id d s r
      → data_by_id x.id s.data_rows ≡ some x
      → c.digester.from_bytes (c.digester.algorithm d) x.raw_data ≡ d
      → IsIntact c s
      → Post (λ y t. IsIntact c t) (IsIntact c) r
  digest_stored x d s r (DigestOutcome.failed e) here hash safe = safe
  digest_stored x d s r (DigestOutcome.found y old) here hash safe = safe
  digest_stored x d s r (DigestOutcome.created j new) here hash safe = record {
    keyed = safe.keyed;
    canonical = safe.canonical;
    aliases =
        All-append (Matches c.digester s.data_rows) s.digests
          (record { id = j; data_id = x.id; digest = d } ∷ []) safe.aliases ((x, here, hash), tt);
  }

  module _ (p : Processor) (leaves : LeavesData p) where
    process_current-IsIntact :
        (x : Data) (b : Base) (w : Server)
        → IsIntact c w.tables
        → Post Intact (λ w'. IsIntact c w'.tables) (process_current c p x b w)
    unfolding process_current
    process_current-IsIntact x b w safe =
        let given = record b { processor_version = p.version; content = x; data_id = x.id } in
        let next =
          IsIntact-of_eq w.tables (p.process given w.tables).1 (leaves.same_data given w.tables)
            (leaves.same_digests given w.tables) safe in
        Post-bind (db (p.process given)) (λ u. write_header 201) w Intact Intact
          (λ w'. IsIntact c w'.tables)
          (Post-of_world (λ w'. IsIntact c w'.tables) (db (p.process given) w) next) (λ u w' h. h)

    process_object-IsIntact :
        (x : Data) (found : Option Base) (w : Server)
        → IsIntact c w.tables
        → Post Intact (λ w'. IsIntact c w'.tables) (process_object c p x found w)
    unfolding process_object
    process_object-IsIntact x none w safe = process_current-IsIntact x no_base w safe
    process_object-IsIntact x (some b) w safe =
        elim (Bool-cases (b.processor_version == p.version)) [
          | inl same ↦ rw same safe
          | inr other ↦ rw other (process_current-IsIntact x b (write_header 204 w).1 safe)
        ]

    find_base-IsIntact :
        (documented : IsDocumented c.gorm) (table : String) (i : ℕ) (t : Tables)
        → IsIntact c t
        → Post (λ found. IsIntact c) (IsIntact c) (find_base c table i t)
    unfolding find_base
    find_base-IsIntact documented table i t safe =
        Post-bind c.gorm.read _ t (λ rows. IsIntact c) (λ found. IsIntact c) (IsIntact c)
          (read_keeps (c.gorm.read t) (documented.reads t)) (λ rows t' h. h)
      where
        read_keeps :
            (r : Result Tables × Tables)
            → ReadOutcome t r
            → Post (λ rows. IsIntact c) (IsIntact c) r
        read_keeps r (ReadOutcome.failed e) = safe
        read_keeps r ReadOutcome.read_all = safe

    store_data-IsIntact :
        (documented : IsDocumented c.gorm) (law : IsDigester c) (content : Bytes) (d : Digest)
        (w : Server)
        → c.digester.from_bytes (c.digester.algorithm d) content ≡ d
        → IsIntact c w.tables
        → NoCollision c content w.tables
        → Post Intact (λ w'. IsIntact c w'.tables) (store_data c p content d w)
    unfolding store_data
    store_data-IsIntact documented law content d w hash safe fresh =
        let key = canonical_digest c d content in
        Post-bind (db (c.gorm.first_or_create_data key content)) _ w
          (λ x w'.
            IsIntact c w'.tables
            × (data_by_id x.id w'.tables.data_rows ≡ some x)
            × (x.raw_data ≡ content))
          Intact (λ w'. IsIntact c w'.tables)
          (Post-db (c.gorm.first_or_create_data key content) w _ (IsIntact c) (
            data_stored c law content key w.tables _ (documented.data_outcome key content w.tables)
              (canonical_digest_lem c law content d hash) safe fresh))
          λ x w1 h1.
            Post-bind (db (c.gorm.first_or_create_digest x.id d)) _ w1 Intact Intact
              (λ w'. IsIntact c w'.tables)
              (Post-db (c.gorm.first_or_create_digest x.id d) w1 _ (IsIntact c) (
                digest_stored x d w1.tables _ (documented.digest_outcome x.id d w1.tables) h1.1
                  (ap (c.digester.from_bytes (c.digester.algorithm d)) h1.2 ∙ hash) h1.0))
              λ y w2 h2.
                Post-bind (db (find_base c p.primary_table x.id)) _ w2 Intact Intact
                  (λ w'. IsIntact c w'.tables)
                  (Post-db (find_base c p.primary_table x.id) w2 (λ found. IsIntact c) (IsIntact c)
                    (find_base-IsIntact documented p.primary_table x.id w2.tables h2))
                  λ found w3 h3. process_object-IsIntact x found w3 h3

    -- If gorm behaves as documented, the digest package can read the algorithm back from the digests
    -- that it makes and has the canonical one, and the processor leaves data and digest records
    -- alone, then a PUT keeps the stored data sound, whether it succeeds or fails and at whatever
    -- step: primary keys identify data records, and every canonical digest and every alias is the
    -- digest of the content it leads to. The body, if it can be read, collides with no stored data
    -- under the canonical algorithm.
    pub generic_put_data-IsIntact :
        (documented : IsDocumented c.gorm) (law : IsDigester c) (req : Request) (w : Server)
        → IsIntact c w.tables
        → ((content : Bytes) → req.body ≡ ok content → NoCollision c content w.tables)
        → IsIntact c (generic_put_data c p req w).1.tables
    unfolding generic_put_data
    generic_put_data-IsIntact documented law req w safe fresh =
        Post_world (λ w'. IsIntact c w'.tables) (generic_put_data c p req w)
          (Post-lift (as_http 400 "Unable to read the body" req.body) _ w Intact
            (λ w'. IsIntact c w'.tables) safe
            λ content read.
              Post-lift (parse_data_put_params c content req) _ w Intact
                (λ w'. IsIntact c w'.tables) safe
                λ d parsed.
                  store_data-IsIntact documented law content d _
                    (parse_data_put_params-ok c law content req d parsed) safe
                    (fresh content (of_as_http "Unable to read the body" req.body content read)))
