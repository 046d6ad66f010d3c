-- ===== src/Client/Utils/Search.antt =====
-- What `generic_get` returns: the answer of the first client that has one.
use data_telemetry.Prelude.{◌≡◌, refl, true, false, List, [], ◌∷◌, ◌++◌, Bool-cases, inl, inr}
use data_telemetry.Errors.{GoError, not_found, is_not_found, Result, ok, fail}
use data_telemetry.Action.{Action}
use data_telemetry.Client.{Client}
use data_telemetry.Client.Utils.{generic_get}

module _ {W A : Type 0} (get : Client W → Action W A) where
  -- The clients of a list, called in turn from a world, all report not found.
  pub data AllMiss : List (Client W) → W → W → Type 0 where
    none_asked : (w : W) → AllMiss [] w w
    miss :
        (c : Client W) {cs : List (Client W)} {w w' w'' : W} (e : GoError)
        → get c w ≡ (fail e, w')
        → is_not_found e ≡ true
        → AllMiss cs w' w''
        → AllMiss (c ∷ cs) w w''

  -- How a search may end, with the world that it leaves.
  pub data Ends : List (Client W) → W → Result A × W → Type 0 where
    found :
        {skipped : List (Client W)} {w w' w'' : W} (c : Client W) (rest : List (Client W)) (a : A)
        → AllMiss skipped w w'
        → get c w' ≡ (ok a, w'')
        → Ends (skipped ++ (c ∷ rest)) w (ok a, w'')
    broken :
        {skipped : List (Client W)} {w w' w'' : W} (c : Client W) (rest : List (Client W))
        (e : GoError)
        → AllMiss skipped w w'
        → get c w' ≡ (fail e, w'')
        → is_not_found e ≡ false
        → Ends (skipped ++ (c ∷ rest)) w (fail e, w'')
    exhausted : {cs : List (Client W)} {w w' : W} → AllMiss cs w w' → Ends cs w (fail not_found, w')

  later :
      {cs : List (Client W)} {w w' : W} {r : Result A × W} (c : Client W) (e : GoError)
      → get c w ≡ (fail e, w')
      → is_not_found e ≡ true
      → Ends cs w' r
      → Ends (c ∷ cs) w r
  later c e h n (found d rest a misses last) = found d rest a (miss c e h n misses) last
  later c e h n (broken d rest e' misses last hard) =
      broken d rest e' (miss c e h n misses) last hard
  later c e h n (exhausted misses) = exhausted (miss c e h n misses)

  -- A search calls the clients in order while they report not found. It ends with the first
  -- answer, with the first other error, or with `ErrNotFound` when no client is left; no client
  -- after that one is called.
  pub generic_get-Ends :
      (clients : List (Client W)) (w : W) → Ends clients w (generic_get clients get w)
  unfolding generic_get
  generic_get-Ends [] w = exhausted (none_asked w)
  generic_get-Ends (c ∷ cs) w = go (get c w) refl (generic_get-Ends cs (get c w).1)
    where
      go :
          (r : Result A × W)
          → get c w ≡ r
          → Ends cs r.1 (generic_get cs get r.1)
          → Ends (c ∷ cs) w (generic_get (c ∷ cs) get w)
      go (ok a, w') h ih = rw (h, generic_get, h) (found {skipped = []} c cs a (none_asked w) h)
      go (fail e, w') h ih = elim (Bool-cases (is_not_found e)) [
        | inl missing ↦ rw (h, generic_get, missing, h) (later c e h missing ih)
        | inr hard ↦
            rw (h, generic_get, hard, h) (broken {skipped = []} c cs e (none_asked w) h hard)
      ]
