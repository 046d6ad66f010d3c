-- ===== src/Db/Scopes/Selectors/Rows.antt =====
-- internal/db/scopes.go: the rows that the joins of FilterBySelectors make, and the bottles that are
-- left.
use data_telemetry.Prelude.{
  ◌≡◌, refl, sym, ap, ◌∙◌, ◌↔◌, Bool, true, String, List, [], ◌∷◌, Memᴰ, map, Option, select, inl,
  inr, any_iff, &&_iff, ||_iff, Memᴰ-select, Memᴰ-map, Memᴰ-map_self,
}
use mathlib.Core.List.Memᴰ
use mathlib.Core.Path.{subst}
use data_telemetry.Errors.{ok}
use data_telemetry.Db.Models.{Label, Bottle, Tables}
use data_telemetry.Db.Joins.{owned, Memᴰ-owned}
use data_telemetry.Db.Scopes.Selectors.{
  Parsers, Condition, clauses, holds, or_null, joined_labels, joined_rows, all_hold, some_hold,
  filter_by_selectors,
}
use data_telemetry.Db.Scopes.Selectors.Matching.{
  HasIds, satisfies, satisfies_all, selected, holds-satisfies, or_null_some,
}

module _ (c : Parsers) (t : Tables) (b : Bottle) (ids : HasIds t) (at : Memᴰ b t.bottles) where
  -- Some row of the joins of a selector meets it exactly when the labels satisfy all of it.
  abbrev MeetsAll : List Condition → Type 0
  MeetsAll xs =
      (ls : List (Option Label)) × Memᴰ ls (joined_labels b xs) × (all_hold c t b xs ls ≡ true)

  of_joined :
      (xs : List Condition) (ls : List (Option Label))
      → Memᴰ ls (joined_labels b xs)
      → all_hold c t b xs ls ≡ true
      → satisfies_all c b.labels xs ≡ true
  unfolding all_hold satisfies_all
  of_joined [] ls m h = refl
  of_joined (x ∷ xs) ls m h =
      let p = (Memᴰ-map (λ (r : Option Label × List (Option Label)). r.0 ∷ r.1) _ ls).0 m in
      let q = (Memᴰ-owned (λ l. joined_labels b xs) (or_null b.labels) p.0.0 p.0.1).0 p.1 in
      let both =
        (&&_iff (holds c t b x p.0.0) (all_hold c t b xs p.0.1)).0
          (ap (all_hold c t b (x ∷ xs)) (sym p.2) ∙ h) in
      (&&_iff (satisfies c b.labels x) (satisfies_all c b.labels xs)).1 (
        sym (holds-satisfies c t b ids at x) ∙ (any_iff (holds c t b x) _).1 (p.0.0, q.0, both.0),
        of_joined xs p.0.1 q.1 both.1,
      )

  to_joined : (xs : List Condition) → satisfies_all c b.labels xs ≡ true → MeetsAll xs
  unfolding all_hold satisfies_all
  to_joined [] h = ([], Memᴰ.head refl, refl)
  to_joined (x ∷ xs) h =
      let both = (&&_iff (satisfies c b.labels x) (satisfies_all c b.labels xs)).0 h in
      let (l, m, here) = (any_iff (holds c t b x) _).0 (holds-satisfies c t b ids at x ∙ both.0) in
      let (ls, n, rest) = to_joined xs both.1 in
      (
        l ∷ ls,
        Memᴰ-map_self (λ (r : Option Label × List (Option Label)). r.0 ∷ r.1) _ (l, ls)
            ((Memᴰ-owned (λ l. joined_labels b xs) (or_null b.labels) l ls).1 (m, n)),
        (&&_iff (holds c t b x l) (all_hold c t b xs ls)).1 (here, rest),
      )

  joined_labels_some :
      (xs : List Condition) → (ls : List (Option Label)) × Memᴰ ls (joined_labels b xs)
  joined_labels_some [] = ([], Memᴰ.head refl)
  joined_labels_some (x ∷ xs) =
      let (l, m) = or_null_some b.labels in
      let (ls, n) = joined_labels_some xs in
      (
        l ∷ ls,
        Memᴰ-map_self (λ (r : Option Label × List (Option Label)). r.0 ∷ r.1) _ (l, ls)
            ((Memᴰ-owned (λ l. joined_labels b xs) (or_null b.labels) l ls).1 (m, n)),
      )

  cons_joined :
      (xs : List Condition) (cs : List (List Condition)) (ls : List (Option Label))
      (rows : List (List (Option Label)))
      → Memᴰ ls (joined_labels b xs)
      → Memᴰ rows (joined_rows b cs)
      → Memᴰ (ls ∷ rows) (joined_rows b (xs ∷ cs))
  cons_joined xs cs ls rows m n =
      Memᴰ-map_self (λ (r : List (Option Label) × List (List (Option Label))). r.0 ∷ r.1) _
        (ls, rows) ((Memᴰ-owned (λ l. joined_rows b cs) (joined_labels b xs) ls rows).1 (m, n))

  joined_rows_some :
      (cs : List (List Condition))
      → (rows : List (List (Option Label))) × Memᴰ rows (joined_rows b cs)
  joined_rows_some [] = ([], Memᴰ.head refl)
  joined_rows_some (xs ∷ cs) =
      let (ls, m) = joined_labels_some xs in
      let (rows, n) = joined_rows_some cs in (ls ∷ rows, cons_joined xs cs ls rows m n)

  pub of_rows :
      (cs : List (List Condition)) (rows : List (List (Option Label)))
      → Memᴰ rows (joined_rows b cs)
      → some_hold c t b cs rows ≡ true
      → selected c cs b.labels ≡ true
  unfolding some_hold selected
  of_rows [] rows m h = cc
  of_rows (xs ∷ cs) rows m h =
      let p =
        (Memᴰ-map (λ (r : List (Option Label) × List (List (Option Label))). r.0 ∷ r.1) _ rows).0
          m in
      let q = (Memᴰ-owned (λ l. joined_rows b cs) (joined_labels b xs) p.0.0 p.0.1).0 p.1 in
      let either =
        (||_iff (all_hold c t b xs p.0.0) (some_hold c t b cs p.0.1)).0
          (ap (some_hold c t b (xs ∷ cs)) (sym p.2) ∙ h) in
      (any_iff (satisfies_all c b.labels) (xs ∷ cs)).1 (elim either [
        | inl here ↦ (xs, Memᴰ.head refl, of_joined xs p.0.0 q.0 here)
        | inr rest ↦
            let (ys, k, all) =
              (any_iff (satisfies_all c b.labels) cs).0 (of_rows cs p.0.1 q.1 rest) in
            (ys, Memᴰ.tail k, all)
      ])

  pub to_rows :
      (cs : List (List Condition)) (xs : List Condition)
      → Memᴰ xs cs
      → satisfies_all c b.labels xs ≡ true
      → (rows : List (List (Option Label))) × Memᴰ rows (joined_rows b cs)
        × (some_hold c t b cs rows ≡ true)
  unfolding some_hold
  to_rows [] xs m h = absurd (Memᴰ.not-nil m)
  to_rows (ys ∷ cs) xs (Memᴰ.head e) h =
      let (ls, k, here) = to_joined ys (ap (satisfies_all c b.labels) (sym e) ∙ h) in
      let (rows, n) = joined_rows_some cs in
      (
        ls ∷ rows,
        cons_joined ys cs ls rows k n,
        (||_iff (all_hold c t b ys ls) (some_hold c t b cs rows)).1 (inl here),
      )
  to_rows (ys ∷ cs) xs (Memᴰ.tail m) h =
      let (rows, n, rest) = to_rows cs xs m h in
      let (ls, k) = joined_labels_some ys in
      (
        ls ∷ rows,
        cons_joined ys cs ls rows k n,
        (||_iff (all_hold c t b ys ls) (some_hold c t b cs rows)).1 (inr rest),
      )

kept_row :
    (c : Parsers) (t : Tables) (rows : List Bottle) (cs : List (List Condition)) (b : Bottle)
    → HasIds t
    → Memᴰ b rows
    → Memᴰ b t.bottles
    → selected c cs b.labels ≡ true
    → Memᴰ b (
        map
          (λ r. r.0)
          (select (λ r. some_hold c t r.0 cs r.1) (owned (λ (b : Bottle). joined_rows b cs) rows)))
unfolding selected
kept_row c t rows cs b ids m at h =
    let (ys, k, all) = (any_iff (satisfies_all c b.labels) cs).0 h in
    let (ls, n, passes) = to_rows c t b ids at cs ys k all in
    Memᴰ-map_self (λ (r : Bottle × List (List (Option Label))). r.0) _ (b, ls)
      ((Memᴰ-select (λ (r : Bottle × List (List (Option Label))). some_hold c t r.0 cs r.1) _
          (b, ls)).1
        ((Memᴰ-owned (λ (b : Bottle). joined_rows b cs) rows b ls).1 (m, n), passes))

-- If the selectors parse into conditions and primary keys of bottles are unique, FilterBySelectors
-- keeps, of rows of the table, exactly the bottles whose own labels satisfy all conditions of some
-- selector, although its SQL joins the labels once for each requirement.
pub filter_by_selectors-selected :
    (c : Parsers) (selectors : List String) (t : Tables) (rows : List Bottle) (xs : List Condition)
    (cs : List (List Condition))
    → HasIds t
    → ((b : Bottle) → Memᴰ b rows → Memᴰ b t.bottles)
    → clauses c selectors ≡ ok (xs ∷ cs, true)
    → (kept : List Bottle) × (filter_by_selectors c selectors t rows ≡ ok kept)
      × ((b : Bottle) → Memᴰ b kept ↔ (Memᴰ b rows × (selected c (xs ∷ cs) b.labels ≡ true)))
unfolding filter_by_selectors
filter_by_selectors-selected c selectors t rows xs cs ids within parsed =
    let made = owned (λ (b : Bottle). joined_rows b (xs ∷ cs)) rows in
    let test : Bottle × List (List (Option Label)) → Bool = λ r. some_hold c t r.0 (xs ∷ cs) r.1 in
    (
      map (λ r. r.0) (select test made),
      rw (parsed, filter_by_selectors) refl,
      λ b. (
        λ m.
            let p = (Memᴰ-map (λ (r : Bottle × List (List (Option Label))). r.0) _ b).0 m in
            let q = (Memᴰ-select test made p.0).0 p.1 in
            let r = (Memᴰ-owned (λ (b : Bottle). joined_rows b (xs ∷ cs)) rows p.0.0 p.0.1).0 q.0 in
            subst (λ z. Memᴰ z rows × (selected c (xs ∷ cs) z.labels ≡ true)) (sym p.2)
              (r.0, of_rows c t p.0.0 ids (within p.0.0 r.0) (xs ∷ cs) p.0.1 r.1 q.1),
        λ (m, h). kept_row c t rows (xs ∷ cs) b ids m (within b m) h,
      ),
    )
