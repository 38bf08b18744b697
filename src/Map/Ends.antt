-- ===== src/Map/Ends.antt =====
-- The ends of a map: the least and the greatest entry.
use aresadb.Prelude.{◌≡◌, refl, true, none, some, [], ◌∷◌, arith}
use aresadb.Ord.{Ord, le?, eq?_iff}
use aresadb.Map.{BTreeMap, get, first, last, IsSorted}
use aresadb.Map.Sorted.{lt?_of_get-Above}

module _ {ℓ κ} {K : Type ℓ} {V : Type κ} ⦃o : Ord K⦄ where
  pub get-first : (j : K) (v : V) (m : BTreeMap K V) → first m ≡ some (j, v) → get j m ≡ some v
  unfolding first get
  get-first j v [] h = ground arith
  get-first j v ((i, w) ∷ m) h = ground (arith, eq?_iff i j)

  pub first-least :
      (j i : K) (v w : V) (m : BTreeMap K V)
      → IsSorted m
      → first m ≡ some (j, v)
      → get i m ≡ some w
      → le? j i ≡ true
  unfolding first get
  first-least j i v w [] s h g = ground arith
  first-least j i v w ((k, u) ∷ m) s h g =
      ground (arith, lt?_of_get-Above k i w m s.0, eq?_iff k i, o.cmp_refl i)

  pub get-first-none : (i : K) (m : BTreeMap K V) → first m ≡ none → get i m ≡ none
  unfolding first get
  get-first-none i [] h = refl
  get-first-none i (e ∷ m) h = ground arith

  pub get-last :
      (j : K) (v : V) (m : BTreeMap K V) → IsSorted m → last m ≡ some (j, v) → get j m ≡ some v
  unfolding last get
  get-last j v [] s h = ground arith
  get-last j v ((i, w) ∷ []) s h = ground (arith, eq?_iff i j)
  get-last j v ((i, w) ∷ f ∷ m) s h =
      let rest : get j (f ∷ m) ≡ some v = get-last j v (f ∷ m) s.1 h in
      ground (arith, rest, lt?_of_get-Above i j v (f ∷ m) s.0 rest, eq?_iff i j, o.cmp_refl j)

  pub last-greatest :
      (j i : K) (v w : V) (m : BTreeMap K V)
      → IsSorted m
      → last m ≡ some (j, v)
      → get i m ≡ some w
      → le? i j ≡ true
  unfolding last get
  last-greatest j i v w [] s h g = ground arith
  last-greatest j i v w ((k, u) ∷ []) s h g = ground (arith, eq?_iff k i, o.cmp_refl i)
  last-greatest j i v w ((k, u) ∷ f ∷ m) s h g = ground (
    arith,
    eq?_iff k i,
    o.cmp_refl i,
    last-greatest j i v w (f ∷ m) s.1 h,
    lt?_of_get-Above k j v (f ∷ m) s.0 (get-last j v (f ∷ m) s.1 h),
  )

  pub get-last-none : (i : K) (m : BTreeMap K V) → last m ≡ none → get i m ≡ none
  unfolding last get
  get-last-none i [] h = refl
  get-last-none i (e ∷ []) h = ground arith
  get-last-none i (e ∷ f ∷ m) h = absurd (never f m h)
    where
      never : (f : K × V) (m : BTreeMap K V) → last (f ∷ m) ≡ none → ⊥
      never f [] h = ground arith
      never f (g ∷ m) h = never g m h
