-- ===== src/Webapp/Tooltips.antt =====
-- internal/webapp/ancestors.go: the texts and lists that tooltips of the lineage graph cut short. A
-- string is the list of its bytes.
use data_telemetry.Prelude.{
  ℕ, zero, suc, ◌+◌, ◌≤◌, ◌<◌, ◌≡◌, refl, ap, ◌∙◌, sym, Option, none, some, List, [], ◌∷◌, ◌++◌,
  arith, ltb, ltb→lt, ◌==◌, if◌then◌else◌, length, take, drop, take-append-drop, length-append,
  Bool-cases, Option-cases, inl, inr, ◌⊎◌,
}
use mathlib.Core.List.{append_assoc}
use mathlib.Core.Option.{some-injective}
use data_telemetry.Errors.{Bytes}

module _ {A : Type 0} (get_item_len : A → ℕ) where
  -- The loop, with the length so far.
  unfoldable pub truncate_from : ℕ → ℕ → List A → List A
  truncate_from max total [] = []
  truncate_from max total (x ∷ xs) =
      let rest = truncate_from max (total + get_item_len x) xs in
      if ltb max (total + get_item_len x) then [] else x ∷ rest

  unfoldable pub truncate_kv_field : ℕ → List A → List A
  unfolding truncate_from
  truncate_kv_field max items = truncate_from max 0 items

  abbrev pub total_len : List A → ℕ
  total_len [] = 0
  total_len (x ∷ xs) = get_item_len x + total_len xs

  abbrev first : A → List A → A
  first z [] = z
  first z (x ∷ xs) = x

  truncate_from_longest :
      (max total : ℕ) (items : List A)
      → total ≤ max
      → (left : List A) × (items ≡ truncate_from max total items ++ left)
        × (total + total_len (truncate_from max total items) ≤ max)
        × ((x : A) (xs : List A)
            → left ≡ x ∷ xs
            → max < total + total_len (truncate_from max total items) + get_item_len x)
  unfolding truncate_from
  truncate_from_longest max total [] fits = ([], refl, omega arith, λ x xs e. cc)
  truncate_from_longest max total (y ∷ ys) fits =
      elim (Bool-cases (ltb max (total + get_item_len y))) [
        | inl over ↦ rw over (
          y ∷ ys,
          refl,
          omega arith,
          λ x xs e. omega (
            arith,
            ltb→lt max (total + get_item_len y) over,
            ap (λ l. get_item_len (first y l)) e,
          ),
        )
        | inr fits' ↦
            let (left, split, sum, longest) =
              truncate_from_longest max (total + get_item_len y) ys (ground (arith, fits')) in
            rw fits' (
              left,
              ap (λ l. y ∷ l) split,
              omega (arith, sum),
              λ x xs e. omega (arith, longest x xs e),
            )
      ]

  -- What is left of a list is the longest prefix whose items fit into the limit together.
  pub truncate_kv_field_longest :
      (max : ℕ) (items : List A)
      → (left : List A) × (items ≡ truncate_kv_field max items ++ left)
        × (total_len (truncate_kv_field max items) ≤ max)
        × ((x : A) (xs : List A)
            → left ≡ x ∷ xs
            → max < total_len (truncate_kv_field max items) + get_item_len x)
  unfolding truncate_kv_field
  truncate_kv_field_longest max items =
      let (left, split, sum, longest) = truncate_from_longest max 0 items (omega arith) in
      (left, split, omega (arith, sum), λ x xs e. omega (arith, longest x xs e))

-- `strings.LastIndex`: the bytes before the last one that is `c`.
unfoldable pub before_last : ℕ → Bytes → Option Bytes
before_last c [] = none
before_last c (x ∷ xs) =
    let rest = before_last c xs in
    elim rest [ some ys ↦ some (x ∷ ys) | none ↦ if x == c then some [] else none ]

-- " ..."
abbrev pub ellipsis : Bytes
ellipsis = 32 ∷ 46 ∷ 46 ∷ 46 ∷ []

abbrev pub comma : ℕ
comma = 44

abbrev pub cut : Bytes → Option Bytes → Bytes
cut text none = text
cut text (some before) = before

unfoldable pub truncate_string_field : ℕ → Bytes → Bytes
unfolding before_last
truncate_string_field max field =
    if ltb (length field) max
    then field
    else cut (take max field) (before_last comma (take max field)) ++ ellipsis

before_last-prefix :
    (c : ℕ) (xs ys : Bytes) → before_last c xs ≡ some ys → (left : Bytes) × (xs ≡ ys ++ left)
unfolding before_last
before_last-prefix c [] ys h = cc
before_last-prefix c (x ∷ xs) ys h = elim (Option-cases (before_last c xs)) [
  | inr (zs, e) ↦
      let (left, split) = before_last-prefix c xs zs e in
      (left, ap (λ l. x ∷ l) split ∙ ap (λ l. l ++ left) (some-injective (x ∷ zs) ys (rw e at h)))
  | inl none' ↦ elim (Bool-cases (x == c)) [
    | inl same ↦ (x ∷ xs, ap (λ l. l ++ (x ∷ xs)) (some-injective [] ys (rw (none', same) at h)))
    | inr other ↦ cc (rw (none', other) at h)
  ]
]

length-take : (n : ℕ) (xs : Bytes) → length (take n xs) ≤ n
length-take zero xs = omega arith
length-take (suc n) [] = omega arith
length-take (suc n) (x ∷ xs) = omega (arith, length-take n xs)

-- A text that is shorter than the limit is kept; of another, a prefix of at most the limit and an
-- ellipsis is left.
pub truncate_string_field_bound :
    (max : ℕ) (field : Bytes)
    → ((length field < max) × (truncate_string_field max field ≡ field))
      ⊎ ((max ≤ length field)
          × (prefix : Bytes) × (left : Bytes) × (field ≡ prefix ++ left)
          × (length prefix ≤ max)
          × (truncate_string_field max field ≡ prefix ++ ellipsis))
unfolding truncate_string_field
truncate_string_field_bound max field = elim (Bool-cases (ltb (length field) max)) [
  | inl short ↦ inl (ltb→lt (length field) max short, rw short refl)
  | inr long ↦ elim (Option-cases (before_last comma (take max field))) [
    | inl none' ↦ inr (
      ground (arith, long),
      take max field,
      drop max field,
      sym (take-append-drop max field),
      length-take max field,
      rw (long, none') refl,
    )
    | inr (before, e) ↦
        let (left, split) = before_last-prefix comma (take max field) before e in
        inr (
          ground (arith, long),
          before,
          left ++ drop max field,
          sym (take-append-drop max field)
              ∙ ap (λ l. l ++ drop max field) split
              ∙ append_assoc before left (drop max field),
          omega (
            arith,
            length-take max field,
            length-append before left,
            ap (λ (l : Bytes). length l) split,
          ),
          rw (long, e) refl,
        )
  ]
]
