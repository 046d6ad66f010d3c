-- ===== src/Db/Helpers.antt =====
-- internal/db/helpers.go: `processByIndex` and `processByKey`, which convert the items of an object
-- to records. Old records are matched by location; those that are not matched are deleted.
pub mod Match
pub mod Keeps
use data_telemetry.Prelude.{
  ℕ, zero, suc, ◌≡◌, ◌↔◌, Bool, true, false, Option, none, some, List, [], ◌∷◌, if◌then◌else◌,
  String, ◌==◌, ==_iff, str_eq, eq_iff,
}
use data_telemetry.Errors.{Result, ok, fail}
use data_telemetry.Action.{Action, pure, lift, labelled, ◌>>=◌, ◌>>◌}

-- `==` on the type of a map's keys.
pub record Key (K : Type 0) : Type 0 where
  pub beq : K → K → Bool
  pub beq_iff : (a b : K) → (beq a b ≡ true) ↔ (a ≡ b)

abbrev pub number_key : Key ℕ
number_key = record { beq = ◌==◌; beq_iff = ==_iff }

abbrev pub text_key : Key String
text_key = record { beq = str_eq; beq_iff = eq_iff }

-- A Go map from locations to records. Iteration is in the order of this list; Go's is arbitrary.
module _ {K V : Type 0} (key : Key K) where
  unfoldable pub lookup_or : V → K → List (K × V) → V
  lookup_or d k [] = d
  lookup_or d k ((j, v) ∷ m) = if key.beq k j then v else lookup_or d k m

  unfoldable pub store : K → V → List (K × V) → List (K × V)
  store k v [] = (k, v) ∷ []
  store k v ((j, w) ∷ m) = if key.beq k j then (k, v) ∷ m else (j, w) ∷ store k v m

  unfoldable pub remove : K → List (K × V) → List (K × V)
  remove k [] = []
  remove k ((j, w) ∷ m) = let rest = remove k m in if key.beq k j then rest else (j, w) ∷ rest

  -- `ids[dbItem.GetLocation()] = dbItem`, for each record found
  unfoldable pub index : (V → K) → List V → List (K × V) → List (K × V)
  index location [] ids = ids
  index location (x ∷ xs) ids = index location xs (store (location x) x ids)

  abbrev pub keep : V → Result (List V × List (K × V)) → Result (List V × List (K × V))
  keep x (ok (xs, ids)) = ok (x ∷ xs, ids)
  keep x (fail e) = fail e

  -- The new records, and the old ones that are left over. `nothing` is the zero record.
  unfoldable pub convert_all :
      {Item : Type 0}
      → V
      → (V → K → Item → Result V)
      → List (K × Item)
      → List (K × V)
      → Result (List V × List (K × V))
  convert_all nothing convert [] ids = ok ([], ids)
  convert_all nothing convert ((k, item) ∷ items) ids =
      let rest = convert_all nothing convert items (remove k ids) in
      elim (convert (lookup_or nothing k ids) k item) [ ok x ↦ keep x rest | fail e ↦ fail e ]

unfoldable pub delete_all :
    {S K V : Type 0} → (V → Action S (Unit {0})) → List (K × V) → Action S (Unit {0})
delete_all delete [] = pure tt
delete_all delete ((k, x) ∷ ids) = do delete x; delete_all delete ids

module _ {S K DbItem Item : Type 0} (key : Key K) (location : DbItem → K) (nothing : DbItem)
    (find : Action S (List DbItem)) (delete : DbItem → Action S (Unit {0}))
    (convert : DbItem → K → Item → Result DbItem) where
  unfoldable pub process_by_key : List (K × Item) → Action S (List DbItem)
  unfolding index convert_all delete_all lookup_or store remove
  process_by_key items = do
    db_items ← labelled "retrieving items from database" find
    (news, ids) ← lift (convert_all key nothing convert items (index key location db_items []))
    delete_all delete ids
    pure news

-- The items of an array with their indices.
abbrev pub enumerate : {Item : Type 0} → ℕ → List Item → List (ℕ × Item)
enumerate i [] = []
enumerate i (x ∷ xs) = (i, x) ∷ enumerate (suc i) xs

module _ {S DbItem Item : Type 0} (key : Key ℕ) (location : DbItem → ℕ) (nothing : DbItem)
    (find : Action S (List DbItem)) (delete : DbItem → Action S (Unit {0}))
    (convert : DbItem → ℕ → Item → Result DbItem) where
  unfoldable pub process_by_index : List Item → Action S (List DbItem)
  unfolding process_by_key
  process_by_index items =
      process_by_key key location nothing find delete convert (enumerate 0 items)
