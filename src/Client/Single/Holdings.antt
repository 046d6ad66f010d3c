-- ===== src/Client/Single/Holdings.antt =====
-- The digests that a server holds, and those of a list that it lacks.
use mathlib.Core.Path.{subst}
use data_telemetry.Prelude.{
  ◌≡◌, refl, sym, Bool, true, not, ◌||◌, List, [], ◌∷◌, arith, str_eq, eq_refl, select, Bool-cases,
  inl, inr,
}
use data_telemetry.Errors.{Digest}

-- The objects that a server holds, by digest.
abbrev pub Holdings : Type 0
Holdings = Digest → Bool

abbrev pub add : Digest → Holdings → Holdings
add d s x = str_eq x d || s x

abbrev pub add_all : List Digest → Holdings → Holdings
add_all [] s = s
add_all (d ∷ ds) s = add_all ds (add d s)

-- Of the digests, those that are not held.
abbrev pub lacking : Holdings → List Digest → List Digest
lacking s = select (λ d. not (s d))

-- Whatever is lacking, the holdings with it lack nothing.
add_all-keeps : (ds : List Digest) (s : Holdings) (x : Digest) → s x ≡ true → add_all ds s x ≡ true
add_all-keeps [] s x h = h
add_all-keeps (d ∷ ds) s x h = add_all-keeps ds (add d s) x (ground (arith, h))

lacking-none :
    (s t : Holdings) (ns : List Digest)
    → ((x : Digest) → s x ≡ true → t x ≡ true)
    → lacking s ns ≡ []
    → lacking t ns ≡ []
lacking-none s t [] keep h = refl
lacking-none s t (n ∷ ns) keep h = elim (Bool-cases (s n)) [
  | inl held ↦ rw (keep n held) (lacking-none s t ns keep (rw held at h))
  | inr lost ↦ cc (rw lost at h)
]

add_all_mono :
    (ds : List Digest) (s t : Holdings)
    → ((x : Digest) → s x ≡ true → t x ≡ true)
    → (x : Digest) → add_all ds s x ≡ true
    → add_all ds t x ≡ true
add_all_mono [] s t keep x h = keep x h
add_all_mono (d ∷ ds) s t keep x h =
    add_all_mono ds (add d s) (add d t) (λ y e. ground (arith, keep y, e)) x h

add_self : (d : Digest) (s : Holdings) → add d s d ≡ true
add_self d s = rw eq_refl

lacking_cons_held :
    (t : Holdings) (n : Digest) (ns : List Digest)
    → t n ≡ true
    → lacking t ns ≡ []
    → lacking t (n ∷ ns) ≡ []
lacking_cons_held t n ns held h = rw held h

-- With all that is lacking added, nothing is lacking.
pub lacking-add_all : (ns : List Digest) (s : Holdings) → lacking (add_all (lacking s ns) s) ns ≡ []
lacking-add_all [] s = refl
lacking-add_all (n ∷ ns) s = elim (Bool-cases (s n)) [
  | inl held ↦
      let same : lacking s (n ∷ ns) ≡ lacking s ns = rw held in
      subst (λ l. lacking (add_all l s) (n ∷ ns) ≡ []) (sym same)
        (lacking_cons_held (add_all (lacking s ns) s) n ns (add_all-keeps (lacking s ns) s n held)
          (lacking-add_all ns s))
  | inr lost ↦
      let more : lacking s (n ∷ ns) ≡ n ∷ lacking s ns = rw lost in
      subst (λ l. lacking (add_all l s) (n ∷ ns) ≡ []) (sym more)
        (lacking_cons_held (add_all (lacking s ns) (add n s)) n ns
          (add_all-keeps (lacking s ns) (add n s) n (add_self n s))
          (lacking-none (add_all (lacking s ns) s) (add_all (lacking s ns) (add n s)) ns
            (add_all_mono (lacking s ns) s (add n s) (λ y e. ground (arith, e)))
            (lacking-add_all ns s)))
]
