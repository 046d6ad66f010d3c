-- ===== src/Db/Scopes/Selectors/Matching.antt =====
-- internal/db/scopes.go: the SQL of FilterBySelectors matches a bottle's own labels.
use data_telemetry.Prelude.{
  ◌≡◌, refl, ap, Bool, true, false, not, ◌&&◌, List, [], ◌∷◌, Memᴰ, map, Option, none, some, str_eq,
  select, any, if◌then◌else◌, Bool-cases, ◌==◌, ==_iff, inl, inr, Bool_ext, any_iff, Memᴰ-select,
}
use mathlib.Core.Path.{subst}
use data_telemetry.Db.Models.{Label, Bottle, Tables}
use data_telemetry.Db.Joins.{owned, Memᴰ-owned}
use data_telemetry.Db.Scopes.{is_in}
use data_telemetry.Db.Scopes.Selectors.{
  Parsers, Condition, labelled, has_key, above, below, not_labelled, without_key, holds, or_null,
}

module _ (c : Parsers) where
  -- The matching of a set of labels, as Kubernetes documents it.
  unfoldable pub satisfies : List Label → Condition → Bool
  satisfies ls (labelled k vs) = any (λ l. str_eq l.key k && is_in vs l.value) ls
  satisfies ls (has_key k) = any (λ l. str_eq l.key k) ls
  satisfies ls (above k x) = any (λ l. str_eq l.key k && c.float_lt x l.numeric_value) ls
  satisfies ls (below k x) = any (λ l. str_eq l.key k && c.float_lt l.numeric_value x) ls
  satisfies ls (not_labelled k vs) = not (any (λ l. str_eq l.key k && is_in vs l.value) ls)
  satisfies ls (without_key k) = not (any (λ l. str_eq l.key k) ls)

  unfoldable pub satisfies_all : List Label → List Condition → Bool
  unfolding satisfies
  satisfies_all ls [] = true
  satisfies_all ls (x ∷ xs) = satisfies ls x && satisfies_all ls xs

  unfoldable pub selected : List (List Condition) → List Label → Bool
  unfolding satisfies_all
  selected cs ls = any (satisfies_all ls) cs

-- Primary keys of bottles.
abbrev pub HasIds : Tables → Type 0
HasIds t = (a b : Bottle) → Memᴰ a t.bottles → Memᴰ b t.bottles → a.base.id ≡ b.base.id → a ≡ b

-- A subquery on the labels of all bottles, asked for one bottle, looks at its own labels.
own_labels :
    (t : Tables) (b : Bottle) (p : Label → Bool)
    → HasIds t
    → Memᴰ b t.bottles
    → any
        (λ (o : Bottle × Label). o.0.base.id == b.base.id)
        (select (λ o. p o.1) (owned (λ (o : Bottle). o.labels) t.bottles))
      ≡ any p b.labels
own_labels t b p ids at =
    let rows = any_iff (λ (o : Bottle × Label). o.0.base.id == b.base.id) _ in
    Bool_ext _ _ (
      λ h.
          let (o, m, same) = rows.0 h in
          let q = (Memᴰ-select (λ (o : Bottle × Label). p o.1) _ o).0 m in
          let r = (Memᴰ-owned (λ (o : Bottle). o.labels) t.bottles o.0 o.1).0 q.0 in
          let b≡o = ids o.0 b r.0 at ((==_iff o.0.base.id b.base.id).0 same) in
          (any_iff p b.labels).1 (o.1, subst (λ z. Memᴰ o.1 z.labels) b≡o r.1, q.1),
      λ h.
          let (l, m, passes) = (any_iff p b.labels).0 h in
          rows.1 (
            (b, l),
            (Memᴰ-select (λ (o : Bottle × Label). p o.1) _ (b, l)).1
                ((Memᴰ-owned (λ (o : Bottle). o.labels) t.bottles b l).1 (at, m), passes),
            (==_iff b.base.id b.base.id).1 refl,
          ),
    )

-- A test on joined labels that NULL fails.
on_labels :
    (f : Option Label → Bool) (p : Label → Bool) (ls : List Label)
    → f none ≡ false
    → ((l : Label) → f (some l) ≡ p l)
    → any f (or_null ls) ≡ any p ls
on_labels f p [] n h = rw n refl
on_labels f p (l ∷ ls) n h = rw h (ap (λ r. if p l then true else r) (go ls))
  where
    go : (ls : List Label) → any f (map some ls) ≡ any p ls
    go [] = refl
    go (l ∷ ls) = rw h (ap (λ r. if p l then true else r) (go ls))

-- A test that does not look at the joined label.
on_any :
    (f : Option Label → Bool) (v : Bool) (ls : List Label)
    → ((l : Option Label) → f l ≡ v)
    → any f (or_null ls) ≡ v
on_any f v [] h = elim (Bool-cases v) [ inl e ↦ rw (h, e) refl | inr e ↦ rw (h, e) refl ]
on_any f true (l ∷ ls) h = rw h refl
on_any f false (l ∷ ls) h = rw h (go ls)
  where
    go : (ls : List Label) → any f (map some ls) ≡ false
    go [] = refl
    go (l ∷ ls) = rw h (go ls)

pub or_null_some : (ls : List Label) → (l : Option Label) × Memᴰ l (or_null ls)
or_null_some [] = (none, Memᴰ.head refl)
or_null_some (l ∷ ls) = (some l, Memᴰ.head refl)

module _ (c : Parsers) (t : Tables) (b : Bottle) (ids : HasIds t) (at : Memᴰ b t.bottles) where
  -- A condition holds of some joined label exactly when the labels of the bottle satisfy it.
  pub holds-satisfies :
      (x : Condition) → any (holds c t b x) (or_null b.labels) ≡ satisfies c b.labels x
  unfolding holds satisfies
  holds-satisfies (labelled k vs) = on_labels _ _ b.labels refl (λ l. refl)
  holds-satisfies (has_key k) = on_labels _ _ b.labels refl (λ l. refl)
  holds-satisfies (above k x) = on_labels _ _ b.labels refl (λ l. refl)
  holds-satisfies (below k x) = on_labels _ _ b.labels refl (λ l. refl)
  holds-satisfies (not_labelled k vs) =
      on_any (holds c t b (not_labelled k vs)) _ b.labels
        (λ l. ap not (own_labels t b (λ l. str_eq l.key k && is_in vs l.value) ids at))
  holds-satisfies (without_key k) =
      on_any (holds c t b (without_key k)) _ b.labels
        (λ l. ap not (own_labels t b (λ l. str_eq l.key k) ids at))
