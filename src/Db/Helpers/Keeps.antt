-- ===== src/Db/Helpers/Keeps.antt =====
-- internal/db/helpers.go: what `processByKey` and `processByIndex` keep, and where the new records come
-- from.
use data_telemetry.Prelude.{
  ℕ, suc, ◌⊎◌, ◌≡◌, refl, sym, ap, ◌∙◌, List, [], ◌∷◌, Memᴰ, Bool-cases, inl, inr, false,
}
use mathlib.Core.List.Memᴰ
use mathlib.Core.Path.{subst}
use data_telemetry.Errors.{Result, ok, fail, ok-injective}
use data_telemetry.Action.{Action, labelled, pure}
use data_telemetry.Action.Ensures.{Post, Post-bind, Post-lift, Keeps, Keeps-bind, Keeps-labelled}
use data_telemetry.Db.Helpers.{
  Key, lookup_or, store, remove, index, keep, convert_all, delete_all, process_by_key, enumerate,
}

module _ {K V : Type 0} where
  converted_first :
      (key : Key K) (r : Result V) (rest : Result (List V × List (K × V))) (news : List V)
      (left : List (K × V))
      → elim r [ ok x ↦ keep key x rest | fail e ↦ fail e ] ≡ Result.ok (news, left)
      → (x : V) × (r ≡ ok x) × (others : List V) × (rest ≡ ok (others, left)) × (news ≡ x ∷ others)
  converted_first key (ok x) (ok (others, left')) news left h =
      let e = ok-injective (x ∷ others, left') (news, left) h in
      (
        x,
        refl,
        others,
        ap (λ (p : List V × List (K × V)). ok (others, p.1)) e,
        sym (ap (λ (p : List V × List (K × V)). p.0) e),
      )
  converted_first key (ok x) (fail e) news left h = cc
  converted_first key (fail e) rest news left h = cc

  -- The new records are conversions of the items.
  convert_all-sources :
      {Item : Type 0} (key : Key K) (nothing : V) (convert : V → K → Item → Result V)
      (items : List (K × Item)) (ids : List (K × V)) (news : List V) (rest : List (K × V))
      → convert_all key nothing convert items ids ≡ ok (news, rest)
      → (x : V) → Memᴰ x news
      → (old : V) × (k : K) × (item : Item) × Memᴰ (k, item) items × (convert old k item ≡ ok x)
  unfolding convert_all
  convert_all-sources key nothing convert [] ids news rest h x m = absurd (
      Memᴰ.not-nil (
        subst (λ l. Memᴰ x l)
          (sym (ap (λ (p : List V × List (K × V)). p.0) (ok-injective ([], ids) (news, rest) h)))
          m))
  convert_all-sources key nothing convert ((k, item) ∷ items) ids news rest h x m =
      let (y, made, others, more, split) =
        converted_first key (convert (lookup_or key nothing k ids) k item)
          (convert_all key nothing convert items (remove key k ids)) news rest h in
      elim (Memᴰ.cases_cons (subst (λ l. Memᴰ x l) split m)) [
        | inl e ↦ (lookup_or key nothing k ids, k, item, Memᴰ.head refl, made ∙ ap ok (sym e))
        | inr later ↦
            let (old, j, i, n, c) =
              convert_all-sources key nothing convert items (remove key k ids) others rest more x
                later in
            (old, j, i, Memᴰ.tail n, c)
      ]

module _ {S K DbItem Item : Type 0} (P : S → Type 0) (key : Key K) (location : DbItem → K)
    (nothing : DbItem) (find : Action S (List DbItem)) (delete : DbItem → Action S (Unit {0}))
    (convert : DbItem → K → Item → Result DbItem) (found : Keeps P find)
    (deleted : (x : DbItem) → Keeps P (delete x)) where
  delete_all-Keeps : (ids : List (K × DbItem)) → Keeps P (delete_all delete ids)
  unfolding delete_all
  delete_all-Keeps [] w h = h
  delete_all-Keeps ((k, x) ∷ ids) w h =
      Keeps-bind P (delete x) (λ u. delete_all delete ids) (deleted x) (λ u. delete_all-Keeps ids) w
        h

  abbrev Converted : List (K × Item) → List DbItem → Type 0
  Converted items news =
      (x : DbItem)
      → Memᴰ x news
      → (old : DbItem) × (k : K) × (item : Item) × Memᴰ (k, item) items
        × (convert old k item ≡ ok x)

  pub process_by_key-Keeps :
      (items : List (K × Item)) (w : S)
      → P w
      → Post
          (λ news w'. P w' × Converted items news)
          P
          (process_by_key key location nothing find delete convert items w)
  unfolding process_by_key
  process_by_key-Keeps items w h =
      Post-bind (labelled "retrieving items from database" find) _ w (λ a w'. P w')
        (λ news w'. P w' × Converted items news) P
        (Keeps-labelled P "retrieving items from database" find found w h)
        (λ old w' h'.
          Post-lift (convert_all key nothing convert items (index key location old [])) _ w'
            (λ news w'. P w' × Converted items news) P h'
            (λ (news, rest) e.
              Post-bind (delete_all delete rest) (λ u. pure news) w' (λ u w''. P w'')
                (λ news w'. P w' × Converted items news) P (delete_all-Keeps rest w' h')
                (λ u w'' h''. (h'', convert_all-sources key nothing convert items _ news rest e))))

-- Items with their indices are the items.
pub Memᴰ-enumerate :
    {Item : Type 0} (i k : ℕ) (item : Item) (items : List Item)
    → Memᴰ (k, item) (enumerate i items)
    → Memᴰ item items
Memᴰ-enumerate i k item [] m = absurd (Memᴰ.not-nil m)
Memᴰ-enumerate {Item = Item} i k item (x ∷ xs) m = elim (Memᴰ.cases_cons m) [
  | inl e ↦ Memᴰ.head (ap (λ (p : ℕ × Item). p.1) e)
  | inr rest ↦ Memᴰ.tail (Memᴰ-enumerate (suc i) k item xs rest)
]

module _ {K V : Type 0} (key : Key K) (z : V) where
  -- A lookup after a store finds what is stored, or what was there.
  pub lookup_or-store :
      (d k : K) (v : V) (m : List (K × V))
      → (lookup_or key z d (store key k v m) ≡ v)
        ⊎ (lookup_or key z d (store key k v m) ≡ lookup_or key z d m)
  unfolding lookup_or store
  lookup_or-store d k v [] = elim (Bool-cases (key.beq d k)) [
    | inl same ↦ inl (rw same refl)
    | inr other ↦ inr (rw other refl)
  ]
  lookup_or-store d k v ((j, w) ∷ m) = elim (Bool-cases (key.beq k j)) [
    | inl here ↦ elim (Bool-cases (key.beq d k)) [
      | inl same ↦ inl (rw (here, same) refl)
      | inr other ↦
          let apart : key.beq d j ≡ false =
            subst (λ x. key.beq d x ≡ false) ((key.beq_iff k j).0 here) other in
          inr (rw (here, other, apart) refl)
    ]
    | inr there ↦ elim (Bool-cases (key.beq d j)) [
      | inl same ↦ inr (rw (there, same) refl)
      | inr other ↦ elim (lookup_or-store d k v m) [
        | inl e ↦ inl (rw (there, other) e)
        | inr e ↦ inr (rw (there, other) e)
      ]
    ]
  ]

  pub lookup_or-store_self :
      (k : K) (v : V) (m : List (K × V)) → lookup_or key z k (store key k v m) ≡ v
  unfolding lookup_or store
  lookup_or-store_self k v [] = rw ((key.beq_iff k k).1 refl) refl
  lookup_or-store_self k v ((j, w) ∷ m) = elim (Bool-cases (key.beq k j)) [
    | inl here ↦ rw (here, (key.beq_iff k k).1 refl) refl
    | inr there ↦ rw (there, there) (lookup_or-store_self k v m)
  ]
