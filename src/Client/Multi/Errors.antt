-- ===== src/Client/Multi/Errors.antt =====
-- The error of a parallel call is nil exactly when every client's is.
use data_telemetry.Prelude.{ℕ, suc, ◌≡◌, ◌↔◌, refl, List, [], ◌∷◌, map, arith, length}
use data_telemetry.Errors.{ok, fail, Status, join}
use data_telemetry.Action.{Action}
use data_telemetry.Client.{Client}
use data_telemetry.Client.Utils.Parallel.{Independent, IsSchedule, each, parallel_map-eq-each}
use data_telemetry.Client.Multi.{slot, join_all}

-- Each client, called from `w`, reports success.
abbrev pub AllSucceed :
    {W : Type 0} → (Client W → Action W (Unit {0})) → List (Client W) → W → Type 0
AllSucceed f [] w = Unit
AllSucceed f (c ∷ cs) w = ((f c w).0 ≡ ok tt) × AllSucceed f cs w

join_cons_ok :
    (r : Status) (rs : List Status) → (join (r ∷ rs) ≡ ok tt) ↔ ((r ≡ ok tt) × (join rs ≡ ok tt))
unfolding join
join_cons_ok (ok u) rs = (λ h. (refl, h), λ h. h.1)
join_cons_ok (fail e) rs = (λ h. ground (arith, h), λ h. cc (h.0))

module _ {W : Type 0} (f : Client W → Action W (Unit {0})) where
  join-each :
      (cs : List (Client W)) (k : ℕ) (w : W)
      → (join (map slot (each (λ client i. f client) cs k w)) ≡ ok tt) ↔ AllSucceed f cs w
  unfolding join
  join-each [] k w = (λ h. tt, λ h. refl)
  join-each (c ∷ cs) k w =
      let (to, from) =
        join_cons_ok (f c w).0 (map slot (each (λ client i. f client) cs (suc k) w)) in
      (
        λ h. ((to h).0, (join-each cs (suc k) w).0 (to h).1),
        λ h. from (h.0, (join-each cs (suc k) w).1 h.1),
      )

  -- If each goroutine runs once, in any order, and no client's call changes what another's returns, the
  -- joined error is nil exactly when the call of each client, made alone, returns nil.
  pub join_all_ok :
      (cs : List (Client W)) (schedule : List ℕ) (w : W)
      → Independent (λ client i. f client) cs
      → IsSchedule (length cs) schedule
      → ((join_all f cs schedule w).0 ≡ ok tt) ↔ AllSucceed f cs w
  unfolding join_all
  join_all_ok cs schedule w free complete =
      rw (parallel_map-eq-each (λ client i. f client) cs schedule w free complete)
        (join-each cs 0 w)
