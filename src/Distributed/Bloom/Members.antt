-- ===== src/Distributed/Bloom/Members.antt =====
-- What was inserted is found.
use aresadb.Prelude.{
  ℕ, ◌+◌, ◌%◌, ◌<◌, ◌≡◌, refl, sym, subst, ap, ◌∙◌, true, some, List, [], ◌∷◌, ◌++◌, length, All,
  All-append, All-mono, arith,
}
use aresadb.Ord.Bytes.{Bytes}
use aresadb.BigEndian.{u64_mod}
use aresadb.Distributed.Bloom.{
  BloomFilter, num_words, with_params, contain_rounds, or_words, clear, merge, insert, may_contain,
}
use aresadb.Distributed.Bloom.Words.{is_set-or_words, length-or_words, length-zeros}
use aresadb.Distributed.Bloom.Rounds.{
  IsValid, Grows, contain_rounds-Grows, contain_rounds-same, insert_rounds_lem,
}

module _ (hash_pair : Bytes → ℕ × ℕ) where
  -- The filters that calls make, with the items that they must find: those inserted since the filter
  -- was made or cleared, and those of the filters merged into it.
  pub data Holding : BloomFilter → List Bytes → Type 0 where
    made : (num_bits num_hashes : ℕ) → 0 < num_bits → Holding (with_params num_bits num_hashes) []
    inserted :
        (f f' : BloomFilter) (item : Bytes) (items : List Bytes)
        → Holding f items
        → insert hash_pair f item ≡ some f'
        → Holding f' (item ∷ items)
    cleared : (f : BloomFilter) (items : List Bytes) → Holding f items → Holding (clear f) []
    merged :
        (f g f' : BloomFilter) (items others : List Bytes)
        → Holding f items
        → Holding g others
        → merge f g ≡ some f'
        → Holding f' (items ++ others)

  insert_lem :
      (f : BloomFilter) (item : Bytes)
      → IsValid f
      → (bits : List ℕ) × (insert hash_pair f item
          ≡ some (record f { bits = bits; count = (f.count + 1) % u64_mod }))
        × (length bits ≡ num_words f.num_bits)
        × Grows f.bits bits
        × (contain_rounds f.num_hashes 0 f (hash_pair item) bits ≡ some true)
  unfolding insert
  insert_lem f item v =
      let (bits, e, l, g, c) =
        insert_rounds_lem f.num_hashes 0 f (hash_pair item) f.bits v.some_bits v.words in
      (bits, rw e refl, l, g, c)

  -- A filter of sound dimensions that finds its items.
  pub record Finds (f : BloomFilter) (items : List Bytes) : Type 0 where
    pub valid : IsValid f
    pub found : All (λ item. may_contain hash_pair f item ≡ some true) items

  -- A filter with at least the bits of another finds what the other finds.
  may_contain-Grows :
      (f g : BloomFilter) (items : List Bytes)
      → IsValid f
      → IsValid g
      → f.num_bits ≡ g.num_bits
      → f.num_hashes ≡ g.num_hashes
      → Grows f.bits g.bits
      → All (λ item. may_contain hash_pair f item ≡ some true) items
      → All (λ item. may_contain hash_pair g item ≡ some true) items
  unfolding may_contain
  may_contain-Grows f g items v w b n grows found =
      All-mono (λ item. may_contain hash_pair f item ≡ some true)
        (λ item. may_contain hash_pair g item ≡ some true)
        (λ item c.
          subst (λ n. contain_rounds n 0 g (hash_pair item) g.bits ≡ some true) n
            (contain_rounds-Grows f.num_hashes 0 g (hash_pair item) f.bits g.bits w.some_bits
              (v.words ∙ ap num_words b) w.words grows
              (contain_rounds-same f.num_hashes 0 g f (hash_pair item) f.bits (sym b) ∙ c)))
        items found

  made-Finds : (num_bits num_hashes : ℕ) → 0 < num_bits → Finds (with_params num_bits num_hashes) []
  unfolding with_params
  made-Finds num_bits num_hashes p = record {
    valid = record { some_bits = p; words = length-zeros (num_words num_bits) };
    found = tt;
  }

  inserted-Finds :
      (f f' : BloomFilter) (item : Bytes) (items : List Bytes)
      → Finds f items
      → insert hash_pair f item ≡ some f'
      → Finds f' (item ∷ items)
  inserted-Finds f f' item items h e =
      let (bits, done, l, g, c) = insert_lem f item h.valid in
      let f2 : BloomFilter = record f { bits = bits; count = (f.count + 1) % u64_mod } in
      let same : f2 ≡ f' = cc (done, e) in
      let valid : IsValid f2 = record { some_bits = h.valid.some_bits; words = l } in
      subst (λ x. Finds x (item ∷ items)) same
        (record {
          valid = valid;
          found = (
            unfold may_contain in
                contain_rounds-same f.num_hashes 0 f2 f (hash_pair item) bits refl ∙ c,
            may_contain-Grows f f2 items h.valid valid refl refl g h.found,
          );
        })

  cleared-Finds : (f : BloomFilter) (items : List Bytes) → Finds f items → Finds (clear f) []
  unfolding clear
  cleared-Finds f items h = record {
    valid = record {
      some_bits = h.valid.some_bits;
      words = length-zeros (length f.bits) ∙ h.valid.words;
    };
    found = tt;
  }

  merge_lem :
      (f g f' : BloomFilter)
      → merge f g ≡ some f'
      → (f.num_bits ≡ g.num_bits)
        × (f.num_hashes ≡ g.num_hashes)
        × (record f { bits = or_words f.bits g.bits; count = (f.count + g.count) % u64_mod } ≡ f')
  unfolding merge
  merge_lem f g f' e = ground arith

  merged-Finds :
      (f g f' : BloomFilter) (items others : List Bytes)
      → Finds f items
      → Finds g others
      → merge f g ≡ some f'
      → Finds f' (items ++ others)
  merged-Finds f g f' items others h k e =
      let (b, n, same) = merge_lem f g f' e in
      let m : BloomFilter = record f {
        bits = or_words f.bits g.bits;
        count = (f.count + g.count) % u64_mod;
      } in
      let long : length f.bits ≡ length g.bits =
        h.valid.words ∙ ap num_words b ∙ sym k.valid.words in
      let valid : IsValid m = record {
        some_bits = h.valid.some_bits;
        words = length-or_words f.bits g.bits ∙ h.valid.words;
      } in
      subst (λ x. Finds x (items ++ others)) same
        (record {
          valid = valid;
          found =
              All-append (λ item. may_contain hash_pair m item ≡ some true) items others
                (may_contain-Grows f m items h.valid valid refl refl
                  (λ w i s. ground (arith, is_set-or_words w i f.bits g.bits long)) h.found)
                (may_contain-Grows g m others k.valid valid (sym b) (sym n)
                  (λ w i s. ground (arith, is_set-or_words w i f.bits g.bits long)) k.found);
        })

  Holding-Finds : (f : BloomFilter) (items : List Bytes) → Holding f items → Finds f items
  Holding-Finds f items (made num_bits num_hashes p) = made-Finds num_bits num_hashes p
  Holding-Finds x xs (inserted f f' item items h e) =
      inserted-Finds f f' item items (Holding-Finds f items h) e
  Holding-Finds x xs (cleared f items h) = cleared-Finds f items (Holding-Finds f items h)
  Holding-Finds x xs (merged f g f' items others h k e) =
      merged-Finds f g f' items others (Holding-Finds f items h) (Holding-Finds g others k) e

  -- Every filter that calls make finds every item inserted since it was made or cleared, those of
  -- filters merged into it included, and takes a further item without a panic. It was made with at
  -- least one bit.
  pub may_contain-Holding :
      (f : BloomFilter) (items : List Bytes)
      → Holding f items
      → All (λ item. may_contain hash_pair f item ≡ some true) items
        × ((item : Bytes)
            → (f' : BloomFilter) × (insert hash_pair f item ≡ some f') × Holding f' (item ∷ items))
  may_contain-Holding f items h =
      let finds = Holding-Finds f items h in
      (
        finds.found,
        λ item.
            let (bits, done, l, g, c) = insert_lem f item finds.valid in
            let f' : BloomFilter = record f { bits = bits; count = (f.count + 1) % u64_mod } in
            (f', done, inserted f f' item items h done),
      )
