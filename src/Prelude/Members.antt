-- ===== src/Prelude/Members.antt =====
-- Membership in lists that are made by `select`, `map` and `++`, and the search for a string.
use Prim.Native.String.{String}
use mathlib.Core.Path.{◌≡◌, refl, sym, ap, subst, ◌∙◌}
use mathlib.Core.Logic.{◌↔◌, ◌⊎◌, inl, inr}
use mathlib.Core.Bool.{Bool, true, false, not, ◌&&◌, ◌||◌}
use mathlib.Core.List.{List, [], ◌∷◌, map, Memᴰ}
use mathlib.Core.List.Memᴰ
use text.Mathlib.Text.{◌==◌ as str_eq}
use text.Mathlib.TextEquality.{eq_iff}
use data_telemetry.Prelude.Tests.{Bool-cases}
use data_telemetry.Prelude.Lists.{select, any}

module _ {ℓ} {A : Type ℓ} where
  -- A selection holds what passes the test.
  of_Memᴰ-select :
      (test : A → Bool) (xs : List A) (a : A)
      → Memᴰ a (select test xs)
      → Memᴰ a xs × (test a ≡ true)
  of_Memᴰ-select test [] a m = absurd (Memᴰ.not-nil m)
  of_Memᴰ-select test (x ∷ xs) a m = elim (Bool-cases (test x)) [
    | inl passes ↦ elim (Memᴰ.cases_cons (subst (λ l. Memᴰ a l) (rw passes refl) m)) [
      | inl e ↦ (Memᴰ.head e, ap test e ∙ passes)
      | inr rest ↦ let p = of_Memᴰ-select test xs a rest in (Memᴰ.tail p.0, p.1)
    ]
    | inr fails ↦ let p = of_Memᴰ-select test xs a (rw fails at m) in (Memᴰ.tail p.0, p.1)
  ]

  to_Memᴰ-select :
      (test : A → Bool) (xs : List A) (a : A) → Memᴰ a xs → test a ≡ true → Memᴰ a (select test xs)
  to_Memᴰ-select test [] a m t = absurd (Memᴰ.not-nil m)
  to_Memᴰ-select test (x ∷ xs) a (Memᴰ.head e) t = rw (sym (ap test e) ∙ t) (Memᴰ.head e)
  to_Memᴰ-select test (x ∷ xs) a (Memᴰ.tail m) t = elim (Bool-cases (test x)) [
    | inl passes ↦ rw passes (Memᴰ.tail (to_Memᴰ-select test xs a m t))
    | inr fails ↦ rw fails (to_Memᴰ-select test xs a m t)
  ]

  pub Memᴰ-select :
      (test : A → Bool) (xs : List A) (a : A)
      → Memᴰ a (select test xs) ↔ (Memᴰ a xs × (test a ≡ true))
  Memᴰ-select test xs a = (of_Memᴰ-select test xs a, λ p. to_Memᴰ-select test xs a p.0 p.1)

module _ {ℓ κ} {A : Type ℓ} {B : Type κ} (f : A → B) where
  of_Memᴰ-map : (xs : List A) (b : B) → Memᴰ b (map f xs) → (a : A) × Memᴰ a xs × (b ≡ f a)
  of_Memᴰ-map [] b m = absurd (Memᴰ.not-nil m)
  of_Memᴰ-map (x ∷ xs) b m = elim (Memᴰ.cases_cons m) [
    | inl e ↦ (x, Memᴰ.head refl, e)
    | inr rest ↦ let p = of_Memᴰ-map xs b rest in (p.0, Memᴰ.tail p.1, p.2)
  ]

  pub Memᴰ-map_self : (xs : List A) (a : A) → Memᴰ a xs → Memᴰ (f a) (map f xs)
  Memᴰ-map_self [] a m = absurd (Memᴰ.not-nil m)
  Memᴰ-map_self (x ∷ xs) a (Memᴰ.head e) = Memᴰ.head (ap f e)
  Memᴰ-map_self (x ∷ xs) a (Memᴰ.tail m) = Memᴰ.tail (Memᴰ-map_self xs a m)

  pub Memᴰ-map : (xs : List A) (b : B) → Memᴰ b (map f xs) ↔ ((a : A) × Memᴰ a xs × (b ≡ f a))
  Memᴰ-map xs b = (of_Memᴰ-map xs b, λ p. Memᴰ.cast p.2 (Memᴰ-map_self xs p.0 p.1))

-- Membership of a string, as a test.
pub any-str_eq : (x : String) (xs : List String) → (any (str_eq x) xs ≡ true) ↔ Memᴰ x xs
any-str_eq x xs = (out xs, into xs)
  where
    out : (xs : List String) → any (str_eq x) xs ≡ true → Memᴰ x xs
    out [] h = cc
    out (y ∷ ys) h = elim (Bool-cases (str_eq x y)) [
      | inl same ↦ Memᴰ.head ((eq_iff x y).0 same)
      | inr other ↦ Memᴰ.tail (out ys (rw other at h))
    ]

    into : (xs : List String) → Memᴰ x xs → any (str_eq x) xs ≡ true
    into [] m = absurd (Memᴰ.not-nil m)
    into (y ∷ ys) (Memᴰ.head e) = rw ((eq_iff x y).1 e) refl
    into (y ∷ ys) (Memᴰ.tail m) = elim (Bool-cases (str_eq x y)) [
      | inl same ↦ rw same refl
      | inr other ↦ rw other (into ys m)
    ]

-- Two tests that pass together are equal.
pub Bool_ext : (a b : Bool) → (a ≡ true) ↔ (b ≡ true) → a ≡ b
Bool_ext true b h = sym (h.0 refl)
Bool_ext false true h = h.1 refl
Bool_ext false false h = refl

pub &&_iff : (a b : Bool) → ((a && b) ≡ true) ↔ ((a ≡ true) × (b ≡ true))
&&_iff true b = (λ h. (refl, h), λ h. h.1)
&&_iff false b = (λ h. cc, λ h. h.0)

pub ||_iff : (a b : Bool) → ((a || b) ≡ true) ↔ ((a ≡ true) ⊎ (b ≡ true))
||_iff true b = (λ h. inl refl, λ h. refl)
||_iff false b = (λ h. inr h, λ h. elim h [ inl e ↦ cc | inr e ↦ e ])

pub not_iff : (b : Bool) → (not b ≡ true) ↔ ¬ (b ≡ true)
not_iff true = (λ h. cc, λ h. absurd (h refl))
not_iff false = (λ h e. cc, λ h. refl)

module _ {ℓ} {A : Type ℓ} (p : A → Bool) where
  pub any_iff : (xs : List A) → (any p xs ≡ true) ↔ ((x : A) × Memᴰ x xs × (p x ≡ true))
  any_iff xs = (out xs, λ h. into xs h.0 h.1 h.2)
    where
      out : (xs : List A) → any p xs ≡ true → (x : A) × Memᴰ x xs × (p x ≡ true)
      out [] h = cc
      out (x ∷ xs) h = elim (Bool-cases (p x)) [
        | inl passes ↦ (x, Memᴰ.head refl, passes)
        | inr fails ↦ let q = out xs (rw fails at h) in (q.0, Memᴰ.tail q.1, q.2)
      ]

      into : (xs : List A) (x : A) → Memᴰ x xs → p x ≡ true → any p xs ≡ true
      into [] x m h = absurd (Memᴰ.not-nil m)
      into (y ∷ ys) x (Memᴰ.head e) h = rw (sym (ap p e) ∙ h) refl
      into (y ∷ ys) x (Memᴰ.tail m) h = elim (Bool-cases (p y)) [
        | inl passes ↦ rw passes refl
        | inr fails ↦ rw fails (into ys x m h)
      ]
