-- ===== src/Webapp/Ancestors/Links.antt =====
-- internal/webapp/ancestors.go: every source of a bottle has an entry among its extended ancestors.
use mathlib.Core.Option.{some-injective}
use mathlib.Core.Path.{subst}
use data_telemetry.Prelude.{
  ℕ, zero, suc, ◌≡◌, ◌≢◌, refl, sym, inl, inr, String, true, false, some, List, [], ◌∷◌, str_eq,
  eq_iff, eq_refl, any, get_elem?, Bool-cases,
}
use data_telemetry.Db.Models.{Source}
use data_telemetry.Db.Relatives.{
  BottleRelative, NonBottleRelative, UnknownBottleRelative, Generation, bottle_matches_source,
  non_bottle_matches_source, unknown_matches_source, get_non_bottle_parents,
  get_unknown_bottle_parents, get_digests, in_digest_set, non_bottles_of, unknown_bottles_of,
}
use data_telemetry.Webapp.Ancestors.{ExtendedAncestors, new_extended_ancestors, find_relative}
use data_telemetry.Webapp.Ancestors.Loops.{
  any_later, any-append, any-append_right, first_index_found, first_index-none, any-append_cases,
}

non_bottles_of-any :
    (source : Source) (ss : List Source) (j : ℕ)
    → str_eq source.bottle_digest "" ≡ true
    → get_elem? ss j ≡ some source
    → any (non_bottle_matches_source source) (non_bottles_of ss) ≡ true
unfolding non_bottles_of non_bottle_matches_source
non_bottles_of-any source [] j other h = cc
non_bottles_of-any source (s ∷ ss) zero other h =
    let e = some-injective s source h in
    let other' = subst (λ x. str_eq x.bottle_digest "" ≡ true) (sym e) other in
    subst (λ x. any (non_bottle_matches_source x) (non_bottles_of (s ∷ ss)) ≡ true) e
      (rw (other', eq_refl s.uri) refl)
non_bottles_of-any source (s ∷ ss) (suc j) other h =
    let rest = non_bottles_of-any source ss j other h in
    elim (Bool-cases (str_eq s.bottle_digest "")) [
      | inl url ↦ rw url (
          any_later (non_bottle_matches_source source) (record { uri = s.uri }) (non_bottles_of ss)
            rest)
      | inr digest ↦ rw digest rest
    ]

unknown_bottles_of-any :
    (known : Generation) (source : Source) (ss : List Source) (j : ℕ)
    → str_eq source.bottle_digest "" ≡ false
    → in_digest_set known source.bottle_digest ≡ false
    → get_elem? ss j ≡ some source
    → any (unknown_matches_source source) (unknown_bottles_of known ss) ≡ true
unfolding unknown_bottles_of unknown_matches_source
unknown_bottles_of-any known source [] j bottle new h = cc
unknown_bottles_of-any known source (s ∷ ss) zero bottle new h =
    let e = some-injective s source h in
    let bottle' = subst (λ x. str_eq x.bottle_digest "" ≡ false) (sym e) bottle in
    let new' = subst (λ x. in_digest_set known x.bottle_digest ≡ false) (sym e) new in
    subst (λ x. any (unknown_matches_source x) (unknown_bottles_of known (s ∷ ss)) ≡ true) e
      (rw (bottle', new', eq_refl s.bottle_digest) refl)
unknown_bottles_of-any known source (s ∷ ss) (suc j) bottle new h =
    let rest = unknown_bottles_of-any known source ss j bottle new h in
    elim (Bool-cases (str_eq s.bottle_digest "")) [
      | inl url ↦ rw url rest
      | inr digest ↦ elim (Bool-cases (in_digest_set known s.bottle_digest)) [
        | inl old ↦ rw (digest, old) rest
        | inr fresh ↦
            rw (digest, fresh)
              (any_later (unknown_matches_source source)
                (record { digest = s.bottle_digest; part_selectors = s.part_selectors })
                (unknown_bottles_of known ss) rest)
      ]
    ]

in_digest_set-any :
    (source : Source) (g : Generation)
    → in_digest_set g source.bottle_digest ≡ true
    → any (bottle_matches_source source) g ≡ true
unfolding in_digest_set get_digests bottle_matches_source
in_digest_set-any source [] h = cc
in_digest_set-any source (r ∷ g) h =
    let rest = in_digest_set-any source g in
    elim (any-append_cases (λ x. str_eq x source.bottle_digest) r.digests (get_digests g) h) [
      | inl here ↦ rw here refl
      | inr later ↦ any_later (bottle_matches_source source) r g (rest later)
    ]

module _ (source : Source) where
  non_bottle_parents-any :
      (current : Generation) (i j : ℕ) (r : BottleRelative)
      → get_elem? current i ≡ some r
      → get_elem? r.bottle.sources j ≡ some source
      → str_eq source.bottle_digest "" ≡ true
      → any (non_bottle_matches_source source) (get_non_bottle_parents current) ≡ true
  unfolding get_non_bottle_parents
  non_bottle_parents-any [] i j r at h other = cc
  non_bottle_parents-any (x ∷ g) zero j r at h other =
      any-append (non_bottle_matches_source source) (non_bottles_of x.bottle.sources)
        (get_non_bottle_parents g)
        (non_bottles_of-any source x.bottle.sources j other
          (subst (λ y. get_elem? y.bottle.sources j ≡ some source) (sym (some-injective x r at)) h))
  non_bottle_parents-any (x ∷ g) (suc i) j r at h other =
      any-append_right (non_bottle_matches_source source) (non_bottles_of x.bottle.sources)
        (get_non_bottle_parents g) (non_bottle_parents-any g i j r at h other)

  unknown_bottle_parents-any :
      (known current : Generation) (i j : ℕ) (r : BottleRelative)
      → get_elem? current i ≡ some r
      → get_elem? r.bottle.sources j ≡ some source
      → str_eq source.bottle_digest "" ≡ false
      → in_digest_set known source.bottle_digest ≡ false
      → any (unknown_matches_source source) (get_unknown_bottle_parents known current) ≡ true
  unfolding get_unknown_bottle_parents
  unknown_bottle_parents-any known [] i j r at h bottle new = cc
  unknown_bottle_parents-any known (x ∷ g) zero j r at h bottle new =
      any-append (unknown_matches_source source) (unknown_bottles_of known x.bottle.sources)
        (get_unknown_bottle_parents known g)
        (unknown_bottles_of-any known source x.bottle.sources j bottle new
          (subst (λ y. get_elem? y.bottle.sources j ≡ some source) (sym (some-injective x r at)) h))
  unknown_bottle_parents-any known (x ∷ g) (suc i) j r at h bottle new =
      any-append_right (unknown_matches_source source) (unknown_bottles_of known x.bottle.sources)
        (get_unknown_bottle_parents known g)
        (unknown_bottle_parents-any known g i j r at h bottle new)

-- The link leads to an entry of a list that matches the source: another URL to the same URL, a bottle
-- to its digest, which is that of an unknown bottle or among those of a known one.
pub data LinksTo (sprintf : String → ℕ → String) (g : ExtendedAncestors) (nf uf kf : String)
    (source : Source) : String → Type 0 where
  non_bottle :
      (i : ℕ) (x : NonBottleRelative)
      → source.bottle_digest ≡ ""
      → get_elem? g.non_bottles i ≡ some x
      → non_bottle_matches_source source x ≡ true
      → LinksTo sprintf g nf uf kf source (sprintf nf i)
  unknown_bottle :
      (i : ℕ) (x : UnknownBottleRelative)
      → source.bottle_digest ≢ ""
      → get_elem? g.unknown_bottles i ≡ some x
      → unknown_matches_source source x ≡ true
      → LinksTo sprintf g nf uf kf source (sprintf uf i)
  known_bottle :
      (i : ℕ) (x : BottleRelative)
      → source.bottle_digest ≢ ""
      → get_elem? g.bottles i ≡ some x
      → bottle_matches_source source x ≡ true
      → LinksTo sprintf g nf uf kf source (sprintf kf i)

-- For a source of a bottle of the current generation, the link that FindRelative makes among the extended
-- ancestors of that generation is never the empty text of a failed search: it carries the position of an
-- entry that matches the source, of the list for the kind of the source. This holds for any generation
-- given as the ancestors.
pub find_relative-LinksTo :
    (sprintf : String → ℕ → String) (nf uf kf : String) (ancestors current : Generation) (i j : ℕ)
    (r : BottleRelative) (source : Source)
    → get_elem? current i ≡ some r
    → get_elem? r.bottle.sources j ≡ some source
    → LinksTo sprintf
        (new_extended_ancestors ancestors current)
        nf
        uf
        kf
        source
        (find_relative sprintf (new_extended_ancestors ancestors current) nf uf kf source)
unfolding find_relative new_extended_ancestors
find_relative-LinksTo sprintf nf uf kf ancestors current i j r source at h =
    elim (Bool-cases (str_eq source.bottle_digest "")) [
      | inl url ↦
          let (k, x, found, here, passes) =
            first_index_found (non_bottle_matches_source source) (get_non_bottle_parents current)
              (non_bottle_parents-any source current i j r at h url) in
          rw (url, found)
            (LinksTo.non_bottle k x ((eq_iff source.bottle_digest "").0 url) here passes)
      | inr digest ↦
          let named : source.bottle_digest ≢ "" =
            λ e. let same = (eq_iff source.bottle_digest "").1 e in cc in
          let unknown = unknown_matches_source source in
          let known = bottle_matches_source source in
          let unknowns = get_unknown_bottle_parents ancestors current in
          elim (Bool-cases (any unknown unknowns)) [
            | inl some_unknown ↦
                let (k, x, found, here, passes) = first_index_found unknown unknowns some_unknown in
                rw (digest, found) (LinksTo.unknown_bottle k x named here passes)
            | inr no_unknown ↦
                let in_set : in_digest_set ancestors source.bottle_digest ≡ true =
                  elim (Bool-cases (in_digest_set ancestors source.bottle_digest)) [
                    | inl old ↦ old
                    | inr new ↦
                        let missed =
                          unknown_bottle_parents-any source ancestors current i j r at h digest
                            new in
                        cc
                  ] in
                let (k, x, found, here, passes) =
                  first_index_found known ancestors (in_digest_set-any source ancestors in_set) in
                rw (digest, first_index-none unknown 0 unknowns no_unknown, found)
                  (LinksTo.known_bottle k x named here passes)
          ]
    ]
