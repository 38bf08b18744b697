-- ===== src/Map/Sorted.antt =====
-- The operations keep the entries in key order, so a map holds each key once.
use aresadb.Prelude.{◌≡◌, refl, Bool, true, not, none, some, [], ◌∷◌, arith, All, All-mono}
use aresadb.Ord.{eq?_refl, lt?_irrefl, Ord, eq?, lt?, eq?_iff, lt?_trans}
use aresadb.Map.{BTreeMap, get, insert, remove, filter_keys, IsSorted}

module _ {ℓ κ} {K : Type ℓ} {V : Type κ} ⦃o : Ord K⦄ where
  -- Every key of the map is greater than `k`.
  abbrev pub Above : K → BTreeMap K V → Type 0
  Above k m = All (λ e. lt? k e.0 ≡ true) m

  pub Above-lower : (j k : K) (m : BTreeMap K V) → lt? j k ≡ true → Above k m → Above j m
  Above-lower j k m h =
      All-mono (λ e. lt? k e.0 ≡ true) (λ e. lt? j e.0 ≡ true) (λ e p. lt?_trans j k e.0 h p) m

  pub Above-insert :
      (j k : K) (v : V) (m : BTreeMap K V) → lt? j k ≡ true → Above j m → Above j (insert k v m)
  unfolding insert
  Above-insert j k v [] h a = (h, tt)
  Above-insert j k v ((i, w) ∷ m) h a = ground (arith, Above-insert j k v m h a.1)

  pub insert-IsSorted : (k : K) (v : V) (m : BTreeMap K V) → IsSorted m → IsSorted (insert k v m)
  unfolding insert
  insert-IsSorted k v [] s = (tt, tt)
  insert-IsSorted k v ((i, w) ∷ m) s = ground (
    arith,
    insert-IsSorted k v m s.1,
    Above-lower k i m,
    o.eq_of_cmp k i,
    o.lt_of_gt k i,
    Above-insert i k v m,
  )

  pub Above-filter_keys :
      (p : K → Bool) (j : K) (m : BTreeMap K V) → Above j m → Above j (filter_keys p m)
  unfolding filter_keys
  Above-filter_keys p j [] a = tt
  Above-filter_keys p j ((i, w) ∷ m) a = ground (arith, Above-filter_keys p j m a.1)

  pub filter_keys-IsSorted :
      (p : K → Bool) (m : BTreeMap K V) → IsSorted m → IsSorted (filter_keys p m)
  unfolding filter_keys
  filter_keys-IsSorted p [] s = tt
  filter_keys-IsSorted p ((i, w) ∷ m) s =
      ground (arith, filter_keys-IsSorted p m s.1, Above-filter_keys p i m s.0)

  pub remove-IsSorted : (k : K) (m : BTreeMap K V) → IsSorted m → IsSorted (remove k m)
  unfolding remove
  remove-IsSorted k m = filter_keys-IsSorted (λ j. not (eq? k j)) m

  -- A key below all the others is not in the map.
  pub get-Above : (k : K) (m : BTreeMap K V) → Above k m → get k m ≡ none
  unfolding get
  get-Above k [] a = refl
  get-Above k ((i, w) ∷ m) a = ground (arith, get-Above k m a.1, eq?_iff i k, o.cmp_refl i)

  -- What is in a map above `k` is greater than `k`.
  pub lt?_of_get-Above :
      (k j : K) (v : V) (m : BTreeMap K V) → Above k m → get j m ≡ some v → lt? k j ≡ true
  unfolding get
  lt?_of_get-Above k j v [] a h = ground arith
  lt?_of_get-Above k j v ((i, w) ∷ m) a h =
      ground (arith, lt?_of_get-Above k j v m a.1, eq?_iff i j)

  get-tail :
      (k : K) (v : V) (m n : BTreeMap K V)
      → Above k n
      → All (λ e. get e.0 m ≡ some e.1) n
      → All (λ e. get e.0 ((k, v) ∷ m) ≡ some e.1) n
  unfolding get
  get-tail k v m [] a g = tt
  get-tail k v m ((j, w) ∷ n) a g =
      (ground (arith, a.0, g.0, eq?_iff k j, lt?_irrefl k), get-tail k v m n a.1 g.1)

  -- Every entry of a sorted map is what a lookup of its key finds.
  pub All-get : (m : BTreeMap K V) → IsSorted m → All (λ e. get e.0 m ≡ some e.1) m
  All-get [] s = tt
  All-get ((k, v) ∷ m) s =
      (unfold get in rw (eq?_refl k) refl, get-tail k v m m s.0 (All-get m s.1))
