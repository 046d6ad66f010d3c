-- ===== src/Api/Listing.antt =====
-- internal/api/handlers.go: `genericListData`, with the scope `IncludeDigests` (internal/db/query.go).
-- The query reads the tables; the order of rows of one creation time and of the digests of a row,
-- which SQL leaves open, is that of the primary keys. A digest has one record (its column has a
-- unique index), so that DISTINCT drops nothing. The entries are given to `WriteJSON`, a parameter.
pub mod Served
pub mod Pages
use data_telemetry.Prelude.{
  ℕ, String, Bool, true, false, Option, none, some, List, [], ◌∷◌, map, ltb, leb, ◌==◌,
  if◌then◌else◌, select, any, take,
}
use data_telemetry.Errors.{as_http, Digest, Result, ok, fail}
use data_telemetry.Action.{Action, lift, ◌>>=◌}
use data_telemetry.Types.{Time, ListResultEntry}
use data_telemetry.Db.Models.{DigestAlias, Base, Tables}
use data_telemetry.Db.Gorm.{bases}
use data_telemetry.Api.{Config, Request, Server, db, preload_data}

-- `INNER JOIN digests aliases ON T.data_id = aliases.data_id`, grouped by row: the digests of a row.
unfoldable pub digests_of : List DigestAlias → ℕ → List Digest
digests_of aliases data_id = map (λ a. a.digest) (select (λ a. data_id == a.data_id) aliases)

unfoldable pub has_digests : List DigestAlias → Base → Bool
has_digests aliases b = any (λ a. b.data_id == a.data_id) aliases

-- `ORDER BY created_at ASC`
unfoldable pub insert_by_time : Base → List Base → List Base
insert_by_time x [] = x ∷ []
insert_by_time x (y ∷ ys) =
    let rest = insert_by_time x ys in if leb x.created_at y.created_at then x ∷ y ∷ ys else y ∷ rest

unfoldable pub order_by_time : List Base → List Base
unfolding insert_by_time
order_by_time [] = []
order_by_time (x ∷ xs) = insert_by_time x (order_by_time xs)

unfoldable pub limited : {A : Type 0} → Option ℕ → List A → List A
limited none xs = xs
limited (some n) xs = take n xs

module _ (c : Config) where
  -- What `MarshalJSON` of a listResultEntry writes.
  unfoldable pub list_entry : Tables → Base → ListResultEntry
  unfolding digests_of
  list_entry t b = record {
    created_at = b.created_at;
    digests = digests_of t.digests b.data_id;
    content = (preload_data c t.data_rows b).content.raw_data;
  }

  unfoldable pub find_entries : String → Time → Option ℕ → Tables → List ListResultEntry
  unfolding has_digests order_by_time limited list_entry
  find_entries table since limit t = map (list_entry t) (
      limited limit (
        order_by_time
          (select (λ b. ltb since b.created_at) (select (has_digests t.digests) (bases table t)))))

  unfoldable pub write_listing : List ListResultEntry → Action Server (Unit {0})
  write_listing entries w =
      let (r, response) = c.write_json entries w.response in (r, record w { response = response })

  unfoldable pub generic_list_data : String → Request → Action Server (Unit {0})
  unfolding find_entries write_listing
  generic_list_data table req = do
    since ← lift (as_http 400 "Invalid since parameter" (c.parse_time req.since))
    limit ← lift (as_http 400 "Invalid limit parameter" (c.atoi req.limit))
    rows ← db c.gorm.read
    write_listing (find_entries table since limit rows)
