-- ===== src/Api/Listing/Pages.antt =====
-- internal/api/handlers.go: the list handler gives the pages that a client's download relies on.
use data_telemetry.Prelude.{◌≤◌, Bool, List, [], ◌∷◌, ltb}
use data_telemetry.Types.{Time, ListResultEntry}
use data_telemetry.Db.Models.{Base}

-- Creation times that never decrease, from a bound on.
abbrev pub NonDecreasingFrom : Time → List ListResultEntry → Type 0
NonDecreasingFrom t [] = Unit
NonDecreasingFrom t (e ∷ es) = (t ≤ e.created_at) × NonDecreasingFrom e.created_at es

abbrev newer : Time → Base → Bool
newer since b = ltb since b.created_at
