-- ===== src/Map/Laws.antt =====
-- Lookup after each operation, for any key and any map.
use aresadb.Prelude.{◌≡◌, refl, Bool, not, none, some, [], ◌∷◌, arith, if◌then◌else◌}
use aresadb.Ord.{Ord, eq?, eq?_iff}
use aresadb.Map.{BTreeMap, get, insert, remove, filter_keys}

module _ {ℓ κ} {K : Type ℓ} {V : Type κ} ⦃o : Ord K⦄ where
  pub get-insert :
      (k j : K) (v : V) (m : BTreeMap K V)
      → get j (insert k v m) ≡ (if eq? k j then some v else get j m)
  unfolding get insert
  get-insert k j v [] = refl
  get-insert k j v ((i, w) ∷ m) = ground (
    arith,
    get-insert k j v m,
    eq?_iff i k,
    o.eq_of_cmp k i,
    eq?_iff i j,
    eq?_iff k j,
    o.cmp_refl i,
  )

  pub get-filter_keys :
      (p : K → Bool) (j : K) (m : BTreeMap K V)
      → get j (filter_keys p m) ≡ (if p j then get j m else none)
  unfolding get filter_keys
  get-filter_keys p j [] = ground arith
  get-filter_keys p j ((i, w) ∷ m) = ground (arith, get-filter_keys p j m, eq?_iff i j)

  pub get-remove :
      (k j : K) (m : BTreeMap K V) → get j (remove k m) ≡ (if eq? k j then none else get j m)
  unfolding remove
  get-remove k j m = ground (arith, get-filter_keys (λ i. not (eq? k i)) j m)
