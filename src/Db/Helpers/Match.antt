-- ===== src/Db/Helpers/Match.antt =====
-- `processByKey` and `processByIndex` against a direct description: each item is converted with the
-- old record of its own location, and exactly the old records of other locations are deleted.
use mathlib.Core.List.{append-nil, append_assoc}
use data_telemetry.Prelude.{
  ◌≡◌, refl, sym, ◌∙◌, ap, Bool, true, false, not, List, [], ◌∷◌, ◌++◌, arith, select,
  if◌then◌else◌,
}
use data_telemetry.Errors.{GoError, Result, ok, fail}
use data_telemetry.Action.{Action, pure, ◌>>◌}
use data_telemetry.Action.Returns.{
  Returns, Returns-bind, Returns-lift, Returns-then, Returns-labelled, Returns-weaken,
}
use data_telemetry.Db.Helpers.{
  Key, lookup_or, store, remove, index, keep, convert_all, delete_all, process_by_key,
}

module _ {K Item : Type 0} (key : Key K) where
  -- Some item has the key.
  abbrev pub used : K → List (K × Item) → Bool
  used l [] = false
  used l ((k, i) ∷ items) = if key.beq k l then true else used l items

  abbrev pub NodupKeys : List (K × Item) → Type 0
  NodupKeys [] = Unit
  NodupKeys ((k, i) ∷ items) = (used k items ≡ false) × NodupKeys items

module _ {K DbItem Item : Type 0} (key : Key K) (location : DbItem → K) (nothing : DbItem)
    (convert : DbItem → K → Item → Result DbItem) where
  abbrev entries : List DbItem → List (K × DbItem)
  entries [] = []
  entries (x ∷ xs) = (location x, x) ∷ entries xs

  abbrev has : K → List (K × DbItem) → Bool
  has k [] = false
  has k ((j, x) ∷ m) = if key.beq k j then true else has k m

  -- The location of each record differs from those of the records before it and of `ids`.
  abbrev pub DistinctAfter : List (K × DbItem) → List DbItem → Type 0
  DistinctAfter ids [] = Unit
  DistinctAfter ids (x ∷ xs) =
      (has (location x) ids ≡ false) × DistinctAfter (ids ++ ((location x, x) ∷ [])) xs

  -- The old record at a location, or the zero record.
  abbrev pub at : K → List DbItem → DbItem
  at k [] = nothing
  at k (x ∷ xs) = if key.beq k (location x) then x else at k xs

  abbrev prepend : DbItem → Result (List DbItem) → Result (List DbItem)
  prepend x (ok xs) = ok (x ∷ xs)
  prepend x (fail e) = fail e

  -- Each item converted with the old record of its own location.
  unfoldable pub converted : List DbItem → List (K × Item) → Result (List DbItem)
  converted old [] = ok []
  converted old ((k, item) ∷ items) =
      let rest = converted old items in
      elim (convert (at k old) k item) [ ok x ↦ prepend x rest | fail e ↦ fail e ]

  -- The old records whose location no item has.
  abbrev pub left_over : List (K × Item) → List DbItem → List DbItem
  left_over items = select (λ x. not (used key (location x) items))

  store_fresh :
      (k : K) (x : DbItem) (ids : List (K × DbItem))
      → has k ids ≡ false
      → store key k x ids ≡ ids ++ ((k, x) ∷ [])
  unfolding store
  store_fresh k x [] h = refl
  store_fresh k x ((j, y) ∷ ids) h = ground (arith, store_fresh k x ids)

  index-entries :
      (ids : List (K × DbItem)) (xs : List DbItem)
      → DistinctAfter ids xs
      → index key location xs ids ≡ ids ++ entries xs
  unfolding index
  index-entries ids [] h = sym (append-nil ids)
  index-entries ids (x ∷ xs) h = rw (store_fresh (location x) x ids h.0) (
      index-entries (ids ++ ((location x, x) ∷ [])) xs h.1
      ∙ append_assoc ids ((location x, x) ∷ []) (entries xs))

  lookup_or-entries : (k : K) (xs : List DbItem) → lookup_or key nothing k (entries xs) ≡ at k xs
  unfolding lookup_or
  lookup_or-entries k [] = refl
  lookup_or-entries k (x ∷ xs) = ground (arith, lookup_or-entries k xs)

  -- The records at other locations than `k`.
  abbrev without : K → List DbItem → List DbItem
  without k = select (λ x. not (key.beq k (location x)))

  remove-entries : (k : K) (xs : List DbItem) → remove key k (entries xs) ≡ entries (without k xs)
  unfolding remove
  remove-entries k [] = refl
  remove-entries k (x ∷ xs) = ground (arith, remove-entries k xs)

  at-without : (k j : K) (xs : List DbItem) → key.beq j k ≡ false → at j (without k xs) ≡ at j xs
  at-without k j [] h = refl
  at-without k j (x ∷ xs) h = ground (
    arith,
    at-without k j xs h,
    key.beq_iff k (location x),
    key.beq_iff j (location x),
    key.beq_iff j k,
  )

  converted-without :
      (k : K) (xs : List DbItem) (items : List (K × Item))
      → used key k items ≡ false
      → converted (without k xs) items ≡ converted xs items
  unfolding converted
  converted-without k xs [] h = refl
  converted-without k xs ((j, item) ∷ items) h =
      ground (arith, at-without k j xs, converted-without k xs items)

  left_over-without :
      (k : K) (item : Item) (items : List (K × Item)) (xs : List DbItem)
      → left_over items (without k xs) ≡ left_over ((k, item) ∷ items) xs
  left_over-without k item items [] = refl
  left_over-without k item items (x ∷ xs) = ground (arith, left_over-without k item items xs)

  -- The pair that the loop returns, from the new records.
  abbrev paired :
      Result (List DbItem) → List (K × DbItem) → Result (List DbItem × List (K × DbItem))
  paired (ok news) ids = ok (news, ids)
  paired (fail e) ids = fail e

  abbrev step :
      Result DbItem
      → Result (List DbItem × List (K × DbItem))
      → Result (List DbItem × List (K × DbItem))
  step (ok x) r = keep key x r
  step (fail e) r = fail e

  convert_all-cons :
      (k : K) (item : Item) (items : List (K × Item)) (ids : List (K × DbItem))
      → convert_all key nothing convert ((k, item) ∷ items) ids
        ≡ step
            (convert (lookup_or key nothing k ids) k item)
            (convert_all key nothing convert items (remove key k ids))
  unfolding convert_all
  convert_all-cons k item items ids = ground arith

  converted-cons :
      (k : K) (item : Item) (items : List (K × Item)) (xs : List DbItem) (ids : List (K × DbItem))
      → step (convert (at k xs) k item) (paired (converted xs items) ids)
        ≡ paired (converted xs ((k, item) ∷ items)) ids
  unfolding converted
  converted-cons k item items xs ids = ground arith

  left_over-nil : (xs : List DbItem) → left_over [] xs ≡ xs
  left_over-nil [] = refl
  left_over-nil (x ∷ xs) = ap (λ ys. x ∷ ys) (left_over-nil xs)

  convert_all-eq :
      (items : List (K × Item)) (xs : List DbItem)
      → NodupKeys key items
      → convert_all key nothing convert items (entries xs)
        ≡ paired (converted xs items) (entries (left_over items xs))
  unfolding convert_all converted
  convert_all-eq [] xs h = rw left_over-nil
  convert_all-eq ((k, item) ∷ items) xs h =
      convert_all-cons k item items (entries xs)
      ∙ rw
          (
            remove-entries k xs,
            lookup_or-entries k xs,
            convert_all-eq items (without k xs) h.1,
            converted-without k xs items h.0,
          )
          (ap (λ ys. step (convert (at k xs) k item) (paired (converted xs items) (entries ys)))
              (left_over-without k item items xs)
            ∙ converted-cons k item items xs (entries (left_over ((k, item) ∷ items) xs)))

module _ {S K DbItem Item : Type 0} (key : Key K) (location : DbItem → K) (nothing : DbItem)
    (find : Action S (List DbItem)) (delete : DbItem → Action S (Unit {0}))
    (convert : DbItem → K → Item → Result DbItem) (old : List DbItem) (removed : S → List DbItem)
    (found : (w : S) → Returns find w old (λ w'. removed w' ≡ removed w))
    (deletes : (x : DbItem) (w : S)
      → Returns (delete x) w tt (λ w'. removed w' ≡ removed w ++ (x ∷ []))) where
  delete_all-removed :
      (xs : List DbItem) (rs : List DbItem) (w : S)
      → removed w ≡ rs
      → Returns
          (delete_all delete (entries key location nothing convert xs))
          w
          tt
          (λ w'. removed w' ≡ rs ++ xs)
  unfolding delete_all
  delete_all-removed [] rs w now = record { value = refl; after = now ∙ sym (append-nil rs) }
  delete_all-removed (x ∷ xs) rs w now =
      Returns-then (delete x) (delete_all delete (entries key location nothing convert xs)) w tt tt
        (deletes x w)
        λ w' gone.
          Returns-weaken _ w' tt
            (delete_all-removed xs (rs ++ (x ∷ [])) w' (gone ∙ ap (λ l. l ++ (x ∷ [])) now))
            λ w'' done. done ∙ append_assoc rs (x ∷ []) xs

  convert_all-index :
      (items : List (K × Item)) {r : Result (List DbItem)}
      → DistinctAfter key location nothing convert [] old
      → NodupKeys key items
      → converted key location nothing convert old items ≡ r
      → convert_all key nothing convert items (index key location old [])
        ≡ paired key location nothing convert r (
            entries key location nothing convert (left_over key location nothing convert items old))
  convert_all-index items distinct nodup e =
      rw (index-entries key location nothing convert [] old distinct) (
        convert_all-eq key location nothing convert items old nodup
        ∙ ap
            (λ r. paired key location nothing convert r (
              entries key location nothing convert
                (left_over key location nothing convert items old)))
            e)

  -- If finding and deleting records succeeds, the old records have distinct locations, no two items
  -- have one location, and each item converts, then the new records are the items
  -- in their order, each converted with the old record of its own location, or with the zero record
  -- if there is none; the old records that are deleted are those whose location no item has.
  pub process_by_key-matches :
      (items : List (K × Item)) (news : List DbItem) (w : S)
      → DistinctAfter key location nothing convert [] old
      → NodupKeys key items
      → converted key location nothing convert old items ≡ ok news
      → Returns
          (process_by_key key location nothing find delete convert items)
          w
          news
          (λ w'. removed w' ≡ removed w ++ left_over key location nothing convert items old)
  unfolding process_by_key
  process_by_key-matches items news w distinct nodup e =
      Returns-bind _ _ w old news (Returns-labelled _ _ w old (found w)) λ w' kept.
        Returns-lift (convert_all key nothing convert items (index key location old []))
          (λ x. delete_all delete x.1 >> pure x.0) w' (news, rest) news
          (convert_all-index items distinct nodup e)
          (Returns-then (delete_all delete rest) (pure news) w' tt news
            (delete_all-removed (left_over key location nothing convert items old) (removed w) w'
              kept)
            λ w'' done. record { value = refl; after = done })
    where
      rest : List (K × DbItem)
      rest = entries key location nothing convert (left_over key location nothing convert items old)

  -- If finding records succeeds, the old records have distinct locations, no two items have one
  -- location, and an item does not convert, then the error of the first such item is returned and nothing
  -- is deleted.
  pub process_by_key-fails :
      (items : List (K × Item)) (err : GoError) (w : S)
      → DistinctAfter key location nothing convert [] old
      → NodupKeys key items
      → converted key location nothing convert old items ≡ fail err
      → ((process_by_key key location nothing find delete convert items w).0 ≡ fail err)
        × (removed (process_by_key key location nothing find delete convert items w).1 ≡ removed w)
  unfolding process_by_key
  process_by_key-fails items err w distinct nodup e =
      rw ((found w).value, convert_all-index items distinct nodup e) (refl, (found w).after)
