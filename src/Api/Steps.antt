-- ===== src/Api/Steps.antt =====
-- Rules for the steps of the handlers of internal/api/handlers.go.
use mathlib.Core.Path.{subst}
use data_telemetry.Prelude.{◌≡◌, sym, String}
use data_telemetry.Errors.{as_http, Result, ok, fail}
use data_telemetry.Action.{Action, follow, ◌>>=◌}
use data_telemetry.Action.Ensures.{Post}
use data_telemetry.Db.Models.{Tables}
use data_telemetry.Api.{Server, db}

-- An action on the tables, as the server runs it.
pub Post-db :
    {A : Type 0} (m : Action Tables A) (w : Server) (Q : A → Tables → Type 0) (E : Tables → Type 0)
    → Post Q E (m w.tables)
    → Post (λ a w'. Q a w'.tables) (λ w'. E w'.tables) (db m w)
Post-db {A = A} m w Q E = go (m w.tables)
  where
    go :
        (r : Result A × Tables)
        → Post Q E r
        → Post (λ a w'. Q a w'.tables) (λ w'. E w'.tables) (r.0, record w { tables = r.1 })
    go (ok a, t) p = p
    go (fail e, t) p = p

-- A step on the tables that changes nothing, and whose result can only be `a`.
pub Post-bind_same :
    {A B : Type 0} (m : Action Tables A) (f : A → Action Server B) (w : Server) (a : A)
    (R : B → Server → Type 0) (E : Server → Type 0)
    → Post (λ x t. (x ≡ a) × (t ≡ w.tables)) (λ t. t ≡ w.tables) (m w.tables)
    → E w
    → Post R E (f a w)
    → Post R E ((db m >>= f) w)
Post-bind_same {A = A} m f w a R E same unchanged next = go (m w.tables) same
  where
    go :
        (r : Result A × Tables)
        → Post (λ x t. (x ≡ a) × (t ≡ w.tables)) (λ t. t ≡ w.tables) r
        → Post R E (follow f r.0 (record w { tables = r.1 }))
    go (ok x, t) p =
        subst (λ y. Post R E (f y (record w { tables = t }))) (sym p.0)
          (subst (λ s. Post R E (f a (record w { tables = s }))) (sym p.1) next)
    go (fail e, t) p = subst (λ s. E (record w { tables = s })) (sym p) unchanged

pub of_as_http :
    {A : Type 0} (text : String) (r : Result A) (a : A) → as_http 400 text r ≡ ok a → r ≡ ok a
of_as_http text (ok x) a h = h
of_as_http text (fail e) a h = cc
