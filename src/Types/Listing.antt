-- ===== src/Types/Listing.antt =====
-- Pages of a list of objects in the order of their creation times.
use data_telemetry.Prelude.{
  ℕ, zero, suc, ◌≤◌, ◌<◌, ◌≡◌, refl, List, [], ◌∷◌, ◌++◌, arith, ltb, take, drop, select,
  Bool-cases, inl, inr,
}
use data_telemetry.Types.{Time, ListResultEntry}

-- The entries that were created after an instant.
abbrev pub after : Time → List ListResultEntry → List ListResultEntry
after since = select (λ e. ltb since e.created_at)

-- The creation time of the last entry, or `t` if there is none.
abbrev pub last_time : Time → List ListResultEntry → Time
last_time t [] = t
last_time t (e ∷ es) = last_time e.created_at es

-- Strictly ascending creation times, all above a bound.
abbrev pub AscendingFrom : Time → List ListResultEntry → Type 0
AscendingFrom t [] = Unit
AscendingFrom t (e ∷ es) = (t < e.created_at) × AscendingFrom e.created_at es

abbrev pub IsAscending : List ListResultEntry → Type 0
IsAscending [] = Unit
IsAscending (e ∷ es) = AscendingFrom e.created_at es

AscendingFrom-le :
    (s t : Time) (es : List ListResultEntry) → s ≤ t → AscendingFrom t es → AscendingFrom s es
AscendingFrom-le s t [] h a = tt
AscendingFrom-le s t (e ∷ es) h a = (omega arith, a.1)

after_all : (t : Time) (es : List ListResultEntry) → AscendingFrom t es → after t es ≡ es
after_all t [] a = refl
after_all t (e ∷ es) a =
    ground (arith, after_all t es (AscendingFrom-le t e.created_at es (omega arith) a.1))

after-AscendingFrom :
    (s t : Time) (es : List ListResultEntry) → AscendingFrom s es → AscendingFrom t (after t es)
after-AscendingFrom s t [] a = tt
after-AscendingFrom s t (e ∷ es) a = elim (Bool-cases (ltb t e.created_at)) [
  | inl new ↦
      let rest : AscendingFrom t es = AscendingFrom-le t e.created_at es (ground arith) a.1 in
      rw (new, after_all t es rest) (ground arith, a.1)
  | inr old ↦ rw old (after-AscendingFrom e.created_at t es a.1)
]

-- The entries after an instant are in ascending order.
pub after-Ascending :
    (t : Time) (es : List ListResultEntry) → IsAscending es → AscendingFrom t (after t es)
after-Ascending t [] a = tt
after-Ascending t (e ∷ es) a = elim (Bool-cases (ltb t e.created_at)) [
  | inl new ↦
      let rest : AscendingFrom t es = AscendingFrom-le t e.created_at es (ground arith) a in
      rw (new, after_all t es rest) (ground arith, a)
  | inr old ↦ rw old (after-AscendingFrom e.created_at t es a)
]

le-last_time : (t : Time) (es : List ListResultEntry) → AscendingFrom t es → t ≤ last_time t es
le-last_time t [] a = omega arith
le-last_time t (e ∷ es) a = omega (arith, le-last_time e.created_at es a.1)

take-AscendingFrom :
    (b : ℕ) (t : Time) (es : List ListResultEntry)
    → AscendingFrom t es
    → AscendingFrom t (take b es)
take-AscendingFrom zero t es a = tt
take-AscendingFrom (suc b) t [] a = tt
take-AscendingFrom (suc b) t (e ∷ es) a = (a.0, take-AscendingFrom b e.created_at es a.1)

after-last_time :
    (b : ℕ) (t : Time) (es : List ListResultEntry)
    → AscendingFrom t es
    → after (last_time t (take b es)) es ≡ drop b es
after-last_time zero t es a = after_all t es a
after-last_time (suc b) t [] a = refl
after-last_time (suc b) t (e ∷ es) a = ground (
  arith,
  after-last_time b e.created_at es a.1,
  le-last_time e.created_at (take b es) (take-AscendingFrom b e.created_at es a.1),
)

after-after : (s t : Time) (es : List ListResultEntry) → s ≤ t → after t (after s es) ≡ after t es
after-after s t [] h = refl
after-after s t (e ∷ es) h = elim (Bool-cases (ltb s e.created_at)) [
  | inl new ↦ rw (new, after-after s t es h)
  | inr old ↦ rw (old, after-after s t es h) (ground arith)
]

-- The entries after the last of a page are those that the page left out.
pub after-last_time-take :
    (b : ℕ) (t : Time) (es : List ListResultEntry)
    → IsAscending es
    → after (last_time t (take b (after t es))) es ≡ drop b (after t es)
after-last_time-take b t es a =
    rw
      (← after-after t (last_time t (take b (after t es))) es (
        le-last_time t (take b (after t es))
          (take-AscendingFrom b t (after t es) (after-Ascending t es a))))
      (after-last_time b t (after t es) (after-Ascending t es a))

pub last_time-append :
    (t : Time) (xs ys : List ListResultEntry)
    → last_time t (xs ++ ys) ≡ last_time (last_time t xs) ys
last_time-append t [] ys = refl
last_time-append t (x ∷ xs) ys = last_time-append x.created_at xs ys
