-- ===== src/Map/Ext.antt =====
-- Two maps that answer every lookup alike are the same list of entries.
use aresadb.Prelude.{◌≡◌, refl, some, [], ◌∷◌, arith}
use aresadb.Ord.{Ord, eq?_iff, eq?_refl}
use aresadb.Map.{BTreeMap, get, IsSorted}
use aresadb.Map.Sorted.{lt?_of_get-Above, get-Above}

module _ {ℓ κ} {K : Type ℓ} {V : Type κ} ⦃o : Ord K⦄ where
  abbrev pub SameGet : BTreeMap K V → BTreeMap K V → Type (ℓ ⊔ κ)
  SameGet m n = (k : K) → get k m ≡ get k n

  get_head : (i : K) (w : V) (m : BTreeMap K V) → get i ((i, w) ∷ m) ≡ some w
  unfolding get
  get_head i w m = ground (arith, eq?_refl i)

  head-eq :
      (i j : K) (w v : V) (m n : BTreeMap K V)
      → IsSorted ((i, w) ∷ m)
      → IsSorted ((j, v) ∷ n)
      → SameGet ((i, w) ∷ m) ((j, v) ∷ n)
      → i ≡ j
  unfolding get
  head-eq i j w v m n s t h = ground (
    arith,
    h i,
    h j,
    eq?_refl i,
    eq?_refl j,
    eq?_iff i j,
    eq?_iff j i,
    lt?_of_get-Above j i w n t.0,
    lt?_of_get-Above i j v m s.0,
    o.gt_of_lt i j,
  )

  tail-same :
      (i j : K) (w v : V) (m n : BTreeMap K V)
      → i ≡ j
      → IsSorted ((i, w) ∷ m)
      → IsSorted ((j, v) ∷ n)
      → SameGet ((i, w) ∷ m) ((j, v) ∷ n)
      → SameGet m n
  unfolding get
  tail-same i j w v m n e s t h k =
      ground (arith, h k, eq?_iff i k, eq?_iff j k, get-Above i m s.0, get-Above j n t.0)

  value-eq :
      (i j : K) (w v : V) (m n : BTreeMap K V) → i ≡ j → SameGet ((i, w) ∷ m) ((j, v) ∷ n) → w ≡ v
  unfolding get
  value-eq i j w v m n e h = ground (arith, h i, eq?_refl i, eq?_iff j i)

  pub ext : (m n : BTreeMap K V) → IsSorted m → IsSorted n → SameGet m n → m ≡ n
  ext [] [] s t h = refl
  ext [] ((j, v) ∷ n) s t h = unfold get in ground (arith, h j, eq?_refl j)
  ext ((i, w) ∷ m) [] s t h = unfold get in ground (arith, h i, eq?_refl i)
  ext ((i, w) ∷ m) ((j, v) ∷ n) s t h =
      let e = head-eq i j w v m n s t h in
      cc (e, value-eq i j w v m n e h, ext m n s.1 t.1 (tail-same i j w v m n e s t h))
