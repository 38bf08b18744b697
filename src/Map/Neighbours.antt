-- ===== src/Map/Neighbours.antt =====
-- The nearest keys of a map at or below a key, and above it: `range(..=key).next_back()` and
-- `range((Excluded(key), Unbounded)).next()`.
use aresadb.Prelude.{◌≡◌, ◌≢◌, true, Option, none, some, arith}
use aresadb.Ord.{Ord, lt?, le?}
use aresadb.Map.{BTreeMap, get, filter_keys, first, last, IsSorted}
use aresadb.Map.Laws.{get-filter_keys}
use aresadb.Map.Sorted.{filter_keys-IsSorted}
use aresadb.Map.Ends.{
  get-first, first-least, get-first-none, get-last, last-greatest, get-last-none,
}

module _ {ℓ κ} {K : Type ℓ} {V : Type κ} ⦃o : Ord K⦄ where
  unfoldable pub floor : K → BTreeMap K V → Option (K × V)
  floor key m = last (filter_keys (λ s. le? s key) m)

  unfoldable pub above : K → BTreeMap K V → Option (K × V)
  above key m = first (filter_keys (λ s. lt? key s) m)

  pub floor_sound :
      (key t : K) (v : V) (m : BTreeMap K V)
      → IsSorted m
      → floor key m ≡ some (t, v)
      → (get t m ≡ some v) × (le? t key ≡ true)
  unfolding floor
  floor_sound key t v m s h = ground (
    arith,
    get-last t v (filter_keys (λ i. le? i key) m) (filter_keys-IsSorted (λ i. le? i key) m s) h,
    get-filter_keys (λ i. le? i key) t m,
  )

  pub floor-greatest :
      (key t i : K) (v w : V) (m : BTreeMap K V)
      → IsSorted m
      → floor key m ≡ some (t, v)
      → get i m ≡ some w
      → le? i key ≡ true
      → le? i t ≡ true
  unfolding floor
  floor-greatest key t i v w m s h g l = ground (
    arith,
    last-greatest t i v w (filter_keys (λ j. le? j key) m)
        (filter_keys-IsSorted (λ j. le? j key) m s) h,
    get-filter_keys (λ j. le? j key) i m,
  )

  pub floor_exists :
      (key i : K) (w : V) (m : BTreeMap K V)
      → get i m ≡ some w
      → le? i key ≡ true
      → floor key m ≢ none
  unfolding floor
  floor_exists key i w m g l h = ground (
    arith,
    get-last-none i (filter_keys (λ j. le? j key) m) h,
    get-filter_keys (λ j. le? j key) i m,
  )

  pub above_sound :
      (key t : K) (v : V) (m : BTreeMap K V)
      → above key m ≡ some (t, v)
      → (get t m ≡ some v) × (lt? key t ≡ true)
  unfolding above
  above_sound key t v m h = ground (
    arith,
    get-first t v (filter_keys (λ i. lt? key i) m) h,
    get-filter_keys (λ i. lt? key i) t m,
  )

  pub above-least :
      (key t i : K) (v w : V) (m : BTreeMap K V)
      → IsSorted m
      → above key m ≡ some (t, v)
      → get i m ≡ some w
      → lt? key i ≡ true
      → le? t i ≡ true
  unfolding above
  above-least key t i v w m s h g l = ground (
    arith,
    first-least t i v w (filter_keys (λ j. lt? key j) m) (filter_keys-IsSorted (λ j. lt? key j) m s)
        h,
    get-filter_keys (λ j. lt? key j) i m,
  )

  pub above_exists :
      (key i : K) (w : V) (m : BTreeMap K V)
      → get i m ≡ some w
      → lt? key i ≡ true
      → above key m ≢ none
  unfolding above
  above_exists key i w m g l h = ground (
    arith,
    get-first-none i (filter_keys (λ j. lt? key j) m) h,
    get-filter_keys (λ j. lt? key j) i m,
  )
