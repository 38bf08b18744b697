-- ===== src/Map.antt =====
-- `std::collections::BTreeMap` over a key type with an `Ord`: the entries in key order. What the
-- source calls of it is here; the laws that its clients use are in the children.
pub mod Laws
pub mod Sorted
pub mod Ends
pub mod Ext
pub mod Neighbours
use aresadb.Prelude.{
  ◌≡◌, Ordering, Bool, true, false, not, Option, none, some, List, [], ◌∷◌, All, map, if◌then◌else◌,
}
use aresadb.Ord.{Ord, lt?, eq?}

abbrev pub BTreeMap {ℓ κ} : Type ℓ → Type κ → Type (ℓ ⊔ κ)
BTreeMap K V = List (K × V)

module _ {ℓ κ} {K : Type ℓ} {V : Type κ} where
  -- `iter().next()` and `iter().next_back()`
  unfoldable pub first : BTreeMap K V → Option (K × V)
  first [] = none
  first (e ∷ m) = some e

  unfoldable pub last : BTreeMap K V → Option (K × V)
  last [] = none
  last (e ∷ []) = some e
  last (e ∷ f ∷ m) = last (f ∷ m)

  unfoldable pub values : BTreeMap K V → List V
  values [] = []
  values ((k, v) ∷ m) = v ∷ values m

  -- The entries whose key passes a test, in order: what a range of keys yields.
  unfoldable pub filter_keys : (K → Bool) → BTreeMap K V → BTreeMap K V
  filter_keys p [] = []
  filter_keys p ((k, v) ∷ m) = let rest = filter_keys p m in if p k then (k, v) ∷ rest else rest

module _ {ℓ κ} {K : Type ℓ} {V : Type κ} ⦃o : Ord K⦄ where
  unfoldable pub get : K → BTreeMap K V → Option V
  get k [] = none
  get k ((j, v) ∷ m) = if eq? j k then some v else get k m

  unfoldable pub contains_key : K → BTreeMap K V → Bool
  contains_key k m = elim (get k m) [ none ↦ false | some v ↦ true ]

  abbrev pub insert_at : Ordering → K → V → K × V → BTreeMap K V → BTreeMap K V → BTreeMap K V
  insert_at Ordering.lt k v e m r = (k, v) ∷ e ∷ m
  insert_at Ordering.eq k v e m r = (k, v) ∷ m
  insert_at Ordering.gt k v e m r = e ∷ r

  unfoldable pub insert : K → V → BTreeMap K V → BTreeMap K V
  insert k v [] = (k, v) ∷ []
  insert k v ((j, w) ∷ m) = insert_at (o.cmp k j) k v (j, w) m (insert k v m)

  unfoldable pub remove : K → BTreeMap K V → BTreeMap K V
  unfolding filter_keys
  remove k m = filter_keys (λ j. not (eq? k j)) m

  -- The keys ascend, so no key stands twice.
  abbrev pub IsSorted : BTreeMap K V → Type 0
  IsSorted [] = Unit
  IsSorted ((k, v) ∷ m) = All (λ e. lt? k e.0 ≡ true) m × IsSorted m
