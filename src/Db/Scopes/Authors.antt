-- ===== src/Db/Scopes/Authors.antt =====
-- internal/db/scopes.go: SearchByAuthor. SQL's LIKE is a parameter.
use data_telemetry.Prelude.{
  ℕ, Option-cases, ◌≡◌, refl, sym, ◌↔◌, ◌⊎◌, inl, inr, String, ◌<>◌, Bool, true, false, none, some,
  List, map, select, str_eq, eq_iff, if◌then◌else◌, Bool-cases, Memᴰ, Memᴰ-map, Memᴰ-map_self,
  Memᴰ-select,
}
use mathlib.Core.Path.{subst}
use text.Mathlib.Text.{find?}
use data_telemetry.Db.Models.{Author, Bottle}
use data_telemetry.Db.Joins.{owned, Memᴰ-owned}

-- `strings.Contains(author, "@")`
unfoldable pub has_at_sign : String → Bool
has_at_sign author = elim (find? author "@") [ some i ↦ true | none ↦ false ]

module _ (like : String → String → Bool) where
  unfoldable pub author_matches : String → Author → Bool
  unfolding has_at_sign
  author_matches author a =
      if has_at_sign author then str_eq a.email author else like a.name ("%" <> author <> "%")

  unfoldable pub search_by_author : String → List Bottle → List Bottle
  unfolding author_matches
  search_by_author author rows =
      if str_eq author ""
      then rows
      else map (λ r. r.0)
          (select (λ r. author_matches author r.1) (owned (λ (b : Bottle). b.authors) rows))

  -- An author is meant by the email, if the text has an `@`, or else by a part of the name.
  abbrev pub IsMeant : String → Author → Type 0
  IsMeant author a =
      ((i : ℕ) × (find? author "@" ≡ some i) × (a.email ≡ author))
      ⊎ ((find? author "@" ≡ none) × (like a.name ("%" <> author <> "%") ≡ true))

  author_matches-IsMeant :
      (author : String) (a : Author) → (author_matches author a ≡ true) ↔ IsMeant author a
  unfolding author_matches has_at_sign
  author_matches-IsMeant author a = elim (Option-cases (find? author "@")) [
    | inr (i, at) ↦
        rw (author_matches, has_at_sign, at)
          (
            λ h. inl (i, refl, (eq_iff a.email author).0 h),
            λ h. elim h [ inl (k, t, e) ↦ (eq_iff a.email author).1 e | inr (t, e) ↦ cc t ],
          )
    | inl none' ↦
        rw (author_matches, has_at_sign, none')
          (λ h. inr (refl, h), λ h. elim h [ inl (k, t, e) ↦ cc t | inr (t, e) ↦ e ])
  ]

  -- A text that is not empty lets through exactly the bottles with an author that it means; the empty
  -- text lets all through.
  pub search_by_author_lem :
      (author : String) (rows : List Bottle) (b : Bottle)
      → Memᴰ b (search_by_author author rows)
        ↔ (Memᴰ b rows × ((author ≡ "") ⊎ ((a : Author) × Memᴰ a b.authors × IsMeant author a)))
  unfolding search_by_author
  search_by_author_lem author rows b = elim (Bool-cases (str_eq author "")) [
    | inl empty ↦ rw empty (λ m. (m, inl ((eq_iff author "").0 empty)), λ p. p.0)
    | inr given ↦ rw given (
      λ m.
          let ((c, a), k, e) = (Memᴰ-map (λ (r : Bottle × Author). r.0) _ b).0 m in
          let (joined, hit) =
            (Memᴰ-select (λ (r : Bottle × Author). author_matches author r.1) _ (c, a)).0 k in
          let (at, own) = (Memᴰ-owned (λ (b : Bottle). b.authors) rows c a).0 joined in
          subst
            (λ z.
              Memᴰ z rows × ((author ≡ "") ⊎ ((a : Author) × Memᴰ a z.authors × IsMeant author a)))
            (sym e) (at, inr (a, own, (author_matches-IsMeant author a).0 hit)),
      λ (at, meant). elim meant [
        | inl e ↦ cc (given, (eq_iff author "").1 e)
        | inr (a, own, h) ↦
            Memᴰ-map_self (λ (r : Bottle × Author). r.0) _ (b, a)
              ((Memᴰ-select (λ (r : Bottle × Author). author_matches author r.1) _ (b, a)).1 (
                (Memᴰ-owned (λ (b : Bottle). b.authors) rows b a).1 (at, own),
                (author_matches-IsMeant author a).1 h,
              ))
      ],
    )
  ]
