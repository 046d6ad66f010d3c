-- ===== src/Webapp/Search/Valid.antt =====
-- internal/webapp/search.go: which parameters of a search are valid.
use data_telemetry.Prelude.{
  Option-cases, some, none, sym, ap, String, ◌≡◌, refl, ◌∙◌, ◌↔◌, ◌⊎◌, inl, inr, true, Option, List,
  [], ◌∷◌, ◌++◌, map, Memᴰ, Memᴰ-map, Memᴰ-map_self, str_eq, eq_iff, Bool-cases,
}
use mathlib.Core.List.Memᴰ
use mathlib.Core.Option.{some-injective}
use data_telemetry.Db.Scopes.Metrics.{text_cut}
use data_telemetry.Errors.{Digest, Result, ok, fail, wrap, Status, join}
use data_telemetry.Db.Scopes.Selectors.{Parsers, Requirement}
use data_telemetry.Webapp.Search.{
  BottleRequestParams, splits_in_two, add_error, add_errors, digest_params, invalid_param,
  parsed_or, check_digest, check_selector, check_annotation, validate,
}

-- All checks of a list pass.
abbrev AllOk : {A : Type 0} → (A → Status) → List A → Type 0
AllOk f xs = (x : _) → Memᴰ x xs → f x ≡ ok tt

-- An error that was added stays.
add_error_ok : (acc r : Status) → (add_error acc r ≡ ok tt) ↔ ((acc ≡ ok tt) × (r ≡ ok tt))
unfolding add_error join
add_error_ok (ok u) (ok v) = (λ h. (refl, refl), λ p. refl)
add_error_ok (ok u) (fail e) = (λ h. cc, λ p. cc)
add_error_ok (fail e) (ok v) = (λ h. cc, λ p. cc)
add_error_ok (fail e) (fail e') = (λ h. cc, λ p. cc)

add_errors_ok :
    (acc : Status) (rs : List Status)
    → (add_errors acc rs ≡ ok tt) ↔ ((acc ≡ ok tt) × AllOk (λ r. r) rs)
unfolding add_errors
add_errors_ok acc [] = (λ h. (h, λ x n. absurd (Memᴰ.not-nil n)), λ p. p.0)
add_errors_ok acc (r ∷ rs) =
    let rest = add_errors_ok (add_error acc r) rs in
    let first = add_error_ok acc r in
    (
      λ h.
          let (now, later) = rest.0 h in
          let (before, here) = first.0 now in
          (before, λ x n. elim (Memᴰ.cases_cons n) [ inl e ↦ e ∙ here | inr n' ↦ later x n' ]),
      λ (before, all).
          rest.1 (first.1 (before, all r (Memᴰ.head refl)), λ x n. all x (Memᴰ.tail n)),
    )

AllOk-map : {A : Type 0} (f : A → Status) (xs : List A) → AllOk (λ r. r) (map f xs) ↔ AllOk f xs
AllOk-map f xs = (
  λ all x n. all (f x) (Memᴰ-map_self f xs x n),
  λ all r n. let (x, at, e) = (Memᴰ-map f xs r).0 n in e ∙ all x at,
)

AllOk-append :
    (rs ss : List Status) → AllOk (λ r. r) (rs ++ ss) ↔ (AllOk (λ r. r) rs × AllOk (λ r. r) ss)
AllOk-append rs ss = (
  λ all. (λ x n. all x (Memᴰ.append_left ss n), λ x n. all x (Memᴰ.append_right rs n)),
  λ (all, all') x n. elim (Memᴰ.append_cases rs n) [ inl m ↦ all x m | inr m ↦ all' x m ],
)

wrap_ok : (text : String) (r : Status) → (wrap text r ≡ ok tt) ↔ (r ≡ ok tt)
wrap_ok text (ok u) = (λ h. refl, λ h. refl)
wrap_ok text (fail e) = (λ h. cc, λ h. cc)

parsed_or_ok :
    {A : Type 0} (text : String) (r : Result A)
    → (parsed_or text r ≡ ok tt) ↔ ((a : A) × (r ≡ ok a))
parsed_or_ok text (ok a) = (λ h. (a, refl), λ h. refl)
parsed_or_ok text (fail e) = (λ h. cc, λ (a, h). cc)

module _ (validate_digest : Digest → Status) (c : Parsers) where
  check_digest_ok :
      (field : String) (d : Digest)
      → (check_digest validate_digest c (field, d) ≡ ok tt)
        ↔ ((d ≡ "") ⊎ (validate_digest d ≡ ok tt))
  unfolding check_digest
  check_digest_ok field d = elim (Bool-cases (str_eq d "")) [
    | inl empty ↦ rw empty (λ h. inl ((eq_iff d "").0 empty), λ h. refl)
    | inr given ↦ rw given (
      λ h. inr ((wrap_ok (invalid_param field d) (validate_digest d)).0 h),
      λ h. elim h [
        | inl e ↦ cc (given, (eq_iff d "").1 e)
        | inr e ↦ (wrap_ok (invalid_param field d) (validate_digest d)).1 e
      ],
    )
  ]

  -- The text has exactly one `=`.
  abbrev pub IsPair : String → Type 0
  IsPair s =
      (key value : String) × (text_cut s "=" ≡ some (key, value)) × (text_cut value "=" ≡ none)

  splits_in_two-IsPair : (s : String) → (splits_in_two s ≡ true) ↔ IsPair s
  unfolding splits_in_two
  splits_in_two-IsPair s = elim (Option-cases (text_cut s "=")) [
    | inl none' ↦ (λ h. cc (rw (splits_in_two, none') at h), λ (k, v, e, f). cc (none', e))
    | inr ((key, value), e) ↦ elim (Option-cases (text_cut value "=")) [
      | inl none' ↦ (λ h. (key, value, e, none'), λ q. rw (splits_in_two, e, none') refl)
      | inr (more, e') ↦ (
        λ h. cc (rw (splits_in_two, e, e') at h),
        λ (k, v, f, g). cc (
          e',
          ap (λ (r : String × String). text_cut r.1 "=")
                (some-injective (key, value) (k, v) (sym e ∙ f))
              ∙ g,
        ),
      )
    ]
  ]

  check_annotation_ok : (s : String) → (check_annotation validate_digest c s ≡ ok tt) ↔ IsPair s
  unfolding check_annotation
  check_annotation_ok s = elim (Bool-cases (splits_in_two s)) [
    | inl two ↦ rw two (λ h. (splits_in_two-IsPair s).0 two, λ h. refl)
    | inr other ↦ rw other (λ h. cc, λ h. cc (other, (splits_in_two-IsPair s).1 h))
  ]

  -- A digest is absent or valid.
  abbrev pub IsFine : Digest → Type 0
  IsFine d = (d ≡ "") ⊎ (validate_digest d ≡ ok tt)

  pub record IsValidSearch (p : BottleRequestParams) : Type 0 where
    pub bottle : IsFine p.bottle
    pub signature_fingerprint : IsFine p.signature_fingerprint
    pub parents_of : IsFine p.parents_of
    pub children_of : IsFine p.children_of
    pub deprecated_by : IsFine p.deprecated_by
    pub deprecates : IsFine p.deprecates
    pub part_digests : (d : Digest) → Memᴰ d p.part_digests → IsFine d
    pub label_selectors :
        (s : String)
        → Memᴰ s p.label_selectors
        → (rs : Option (List Requirement)) × (c.parse_selector s ≡ ok rs)
    pub signature_annotations : (s : String) → Memᴰ s p.signature_annotations → IsPair s

  named_ok :
      (field : String) (d : Digest) (rest : List (String × Digest))
      → AllOk (check_digest validate_digest c) ((field, d) ∷ rest)
        ↔ (IsFine d × AllOk (check_digest validate_digest c) rest)
  named_ok field d rest =
      let one = check_digest_ok field d in
      (
        λ all. (one.0 (all (field, d) (Memᴰ.head refl)), λ x n. all x (Memᴰ.tail n)),
        λ (fine, all) x n. elim (Memᴰ.cases_cons n) [
          | inl e ↦ ap (check_digest validate_digest c) e ∙ one.1 fine
          | inr n' ↦ all x n'
        ],
      )

  parts_ok :
      (ds : List Digest)
      → AllOk (check_digest validate_digest c) (map (λ d. ("part-digest", d)) ds)
        ↔ ((d : Digest) → Memᴰ d ds → IsFine d)
  parts_ok ds = (
    λ all d n.
        (check_digest_ok "part-digest" d).0
          (all ("part-digest", d) (Memᴰ-map_self (λ (d : Digest). ("part-digest", d)) ds d n)),
    λ all r n.
        let (d, at, e) = (Memᴰ-map (λ (d : Digest). ("part-digest", d)) ds r).0 n in
        ap (check_digest validate_digest c) e ∙ (check_digest_ok "part-digest" d).1 (all d at),
  )

  -- The parameters of a search are valid exactly when each of the seven kinds of digests is empty or
  -- valid, each selector parses and each annotation has exactly one `=`.
  pub validate_lem :
      (p : BottleRequestParams) → (validate validate_digest c p ≡ ok tt) ↔ IsValidSearch p
  unfolding validate check_selector digest_params
  validate_lem p =
      let n1 = named_ok "bottle" p.bottle _ in
      let n2 = named_ok "signature-fingerprint" p.signature_fingerprint _ in
      let n3 = named_ok "parents-of" p.parents_of _ in
      let n4 = named_ok "children-of" p.children_of _ in
      let n5 = named_ok "deprecated-by" p.deprecated_by _ in
      let n6 = named_ok "deprecates" p.deprecates _ in
      let parts = parts_ok p.part_digests in
      let digests = AllOk-map (check_digest validate_digest c) (digest_params p) in
      let selectors = AllOk-map (check_selector validate_digest c) p.label_selectors in
      let annotations = AllOk-map (check_annotation validate_digest c) p.signature_annotations in
      let outer = AllOk-append (map (check_digest validate_digest c) (digest_params p)) (
        map (check_selector validate_digest c) p.label_selectors
        ++ map (check_annotation validate_digest c) p.signature_annotations) in
      let inner =
        AllOk-append (map (check_selector validate_digest c) p.label_selectors)
          (map (check_annotation validate_digest c) p.signature_annotations) in
      let sums = add_errors_ok (ok tt) (
        map (check_digest validate_digest c) (digest_params p)
        ++ (map (check_selector validate_digest c) p.label_selectors
            ++ map (check_annotation validate_digest c) p.signature_annotations)) in
      (
        λ h.
            let (ds, rest) = outer.0 (sums.0 h).1 in
            let (ss, as') = inner.0 rest in
            let (d1, r1) = n1.0 (digests.0 ds) in
            let (d2, r2) = n2.0 r1 in
            let (d3, r3) = n3.0 r2 in
            let (d4, r4) = n4.0 r3 in
            let (d5, r5) = n5.0 r4 in
            let (d6, r6) = n6.0 r5 in
            record {
              bottle = d1;
              signature_fingerprint = d2;
              parents_of = d3;
              children_of = d4;
              deprecated_by = d5;
              deprecates = d6;
              part_digests = parts.0 r6;
              label_selectors = λ s n. (parsed_or_ok _ (c.parse_selector s)).0 (selectors.0 ss s n);
              signature_annotations = λ s n. (check_annotation_ok s).0 (annotations.0 as' s n);
            },
        λ v. sums.1 (
          refl,
          outer.1 (
            digests.1 (
                n1.1 (
                  v.bottle,
                  n2.1 (
                    v.signature_fingerprint,
                    n3.1 (
                      v.parents_of,
                      n4.1 (
                        v.children_of,
                        n5.1 (v.deprecated_by, n6.1 (v.deprecates, parts.1 v.part_digests)),
                      ),
                    ),
                  ),
                )),
            inner.1 (
              selectors.1 (λ s n. (parsed_or_ok _ (c.parse_selector s)).1 (v.label_selectors s n)),
              annotations.1 (λ s n. (check_annotation_ok s).1 (v.signature_annotations s n)),
            ),
          ),
        ),
      )
