-- ===== src/Db/Joins.antt =====
-- SQL joins as functions of lists: objects with the rows that they own (`ON b.a_id = a.id`), and
-- the rows of `a INNER JOIN b ON test`, both in the order of the tables.
use data_telemetry.Prelude.{
  ◌≡◌, sym, ap, ◌↔◌, inl, inr, Bool, true, List, [], ◌∷◌, ◌++◌, map, Memᴰ, select, Memᴰ-select,
  Memᴰ-map, Memᴰ-map_self,
}
use mathlib.Core.List.Memᴰ
use mathlib.Core.Path.{subst}

module _ {A B : Type 0} where
  abbrev pub owned : (A → List B) → List A → List (A × B)
  owned rows [] = []
  owned rows (a ∷ xs) = map (λ b. (a, b)) (rows a) ++ owned rows xs

  abbrev pub inner_join : (A → B → Bool) → List B → List A → List (A × B)
  inner_join test bs = owned (λ a. select (test a) bs)

  of_Memᴰ-owned :
      (rows : A → List B) (xs : List A) (a : A) (b : B)
      → Memᴰ (a, b) (owned rows xs)
      → Memᴰ a xs × Memᴰ b (rows a)
  of_Memᴰ-owned rows [] a b m = absurd (Memᴰ.not-nil m)
  of_Memᴰ-owned rows (x ∷ xs) a b m = elim (Memᴰ.append_cases (map (λ y. (x, y)) (rows x)) m) [
    | inl here ↦
        let p = (Memᴰ-map (λ (y : B). (x, y)) (rows x) (a, b)).0 here in
        let first : a ≡ x = ap (λ (r : A × B). r.0) p.2 in
        let second : b ≡ p.0 = ap (λ (r : A × B). r.1) p.2 in
        (Memᴰ.head first, subst (λ z. Memᴰ b (rows z)) (sym first) (Memᴰ.cast second p.1))
    | inr rest ↦ let p = of_Memᴰ-owned rows xs a b rest in (Memᴰ.tail p.0, p.1)
  ]

  to_Memᴰ-owned :
      (rows : A → List B) (xs : List A) (a : A) (b : B)
      → Memᴰ a xs
      → Memᴰ b (rows a)
      → Memᴰ (a, b) (owned rows xs)
  to_Memᴰ-owned rows [] a b m n = absurd (Memᴰ.not-nil m)
  to_Memᴰ-owned rows (x ∷ xs) a b (Memᴰ.head e) n =
      subst (λ z. Memᴰ (z, b) (owned rows (x ∷ xs))) (sym e)
        (Memᴰ.append_left (owned rows xs)
          (Memᴰ-map_self (λ (y : B). (x, y)) (rows x) b (subst (λ z. Memᴰ b (rows z)) e n)))
  to_Memᴰ-owned rows (x ∷ xs) a b (Memᴰ.tail m) n =
      Memᴰ.append_right (map (λ y. (x, y)) (rows x)) (to_Memᴰ-owned rows xs a b m n)

  pub Memᴰ-owned :
      (rows : A → List B) (xs : List A) (a : A) (b : B)
      → Memᴰ (a, b) (owned rows xs) ↔ (Memᴰ a xs × Memᴰ b (rows a))
  Memᴰ-owned rows xs a b = (of_Memᴰ-owned rows xs a b, λ p. to_Memᴰ-owned rows xs a b p.0 p.1)

  pub Memᴰ-inner_join :
      (test : A → B → Bool) (bs : List B) (xs : List A) (a : A) (b : B)
      → Memᴰ (a, b) (inner_join test bs xs) ↔ (Memᴰ a xs × Memᴰ b bs × (test a b ≡ true))
  Memᴰ-inner_join test bs xs a b =
      let rows = Memᴰ-owned (λ a. select (test a) bs) xs a b in
      let passing = Memᴰ-select (test a) bs b in
      (
        λ m. let p = rows.0 m in let q = passing.0 p.1 in (p.0, q.0, q.1),
        λ p. rows.1 (p.0, passing.1 (p.1, p.2)),
      )
