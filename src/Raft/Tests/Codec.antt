-- ===== src/Raft/Tests/Codec.antt =====
-- A codec of numbers for the runs: what a bincode of the real types is taken to be.
use Prim.Native.Nat.{suc, zero}
use aresadb.Prelude.{ℕ, ◌≡◌, refl, ap, ◌∙◌, Option, none, some, List, [], ◌∷◌}
use aresadb.Ord.Bytes.{Bytes}
use aresadb.Raft.LogStore.{LogTypes}
use aresadb.Raft.LogStore.Spec.{IsLawful}
use aresadb.Raft.StateMachine.{Meta, SnapshotPayload, SmTypes}
use aresadb.Raft.StateMachine.Spec.{HasCodec}

abbrev optional_bytes : Option ℕ → Bytes
optional_bytes none = []
optional_bytes (some n) = n ∷ []

abbrev read_number : Bytes → Option ℕ
read_number [] = none
read_number (n ∷ x) = some n

-- Ids, votes and entries are numbers.
abbrev pub numbers : LogTypes ℕ ℕ ℕ
numbers = record {
  index = λ l. l;
  get_log_id = λ e. e;
  serialize_vote = λ v. some (v ∷ []);
  deserialize_vote = read_number;
  serialize_log_id = λ l. some (optional_bytes l);
  deserialize_log_id = λ x. some (read_number x);
  serialize_entry = λ e. some (e ∷ []);
  deserialize_entry = read_number;
}

read_optional : (l : Option ℕ) → read_number (optional_bytes l) ≡ l
read_optional none = refl
read_optional (some n) = refl

pub numbers-IsLawful : IsLawful numbers
numbers-IsLawful = record {
  vote_bytes = λ v. (v ∷ [], refl, refl);
  log_id_bytes = λ l. (optional_bytes l, refl, ap some (read_optional l));
  entry_bytes = λ e. (e ∷ [], refl, refl);
}

-- A byte string is written with every number one larger, then a zero.
abbrev framed : Bytes → Bytes → Bytes
framed [] rest = 0 ∷ rest
framed (n ∷ x) rest = suc n ∷ framed x rest

abbrev push_front : ℕ → List Bytes → List Bytes
push_front n [] = (n ∷ []) ∷ []
push_front n (x ∷ xs) = (n ∷ x) ∷ xs

abbrev unframed : Bytes → List Bytes
unframed [] = []
unframed (zero ∷ x) = [] ∷ unframed x
unframed (suc n ∷ x) = push_front n (unframed x)

unframed-framed : (x rest : Bytes) → unframed (framed x rest) ≡ x ∷ unframed rest
unframed-framed [] rest = refl
unframed-framed (n ∷ x) rest = ap (push_front n) (unframed-framed x rest)

abbrev pairs_bytes : List (Bytes × Bytes) → Bytes
pairs_bytes [] = []
pairs_bytes ((k, v) ∷ pairs) = framed k (framed v (pairs_bytes pairs))

abbrev pair_up : List Bytes → List (Bytes × Bytes)
pair_up [] = []
pair_up (k ∷ []) = []
pair_up (k ∷ v ∷ xs) = (k, v) ∷ pair_up xs

read_pairs : (pairs : List (Bytes × Bytes)) → pair_up (unframed (pairs_bytes pairs)) ≡ pairs
read_pairs [] = refl
read_pairs ((k, v) ∷ pairs) =
    ap pair_up (
      unframed-framed k (framed v (pairs_bytes pairs))
      ∙ ap (λ xs. k ∷ xs) (unframed-framed v (pairs_bytes pairs)))
    ∙ ap (λ xs. (k, v) ∷ xs) (read_pairs pairs)

abbrev meta_bytes : Meta ℕ ℕ → Bytes
meta_bytes m = m.last_membership ∷ optional_bytes m.last_applied

abbrev read_meta : Bytes → Option (Meta ℕ ℕ)
read_meta [] = none
read_meta (n ∷ x) = some (record { last_applied = read_number x; last_membership = n })

abbrev payload_bytes : SnapshotPayload ℕ ℕ → Bytes
payload_bytes p = p.last_membership ∷ framed (optional_bytes p.last_applied) (pairs_bytes p.pairs)

abbrev payload_of_frames : ℕ → List Bytes → Option (SnapshotPayload ℕ ℕ)
payload_of_frames n [] = none
payload_of_frames n (l ∷ xs) =
    some (record { last_applied = read_number l; last_membership = n; pairs = pair_up xs })

abbrev read_payload : Bytes → Option (SnapshotPayload ℕ ℕ)
read_payload [] = none
read_payload (n ∷ x) = payload_of_frames n (unframed x)

read-payload_bytes : (p : SnapshotPayload ℕ ℕ) → read_payload (payload_bytes p) ≡ some p
read-payload_bytes p =
    ap (payload_of_frames p.last_membership)
      (unframed-framed (optional_bytes p.last_applied) (pairs_bytes p.pairs))
    ∙ ap
        (λ l.
          some (record p { last_applied = l; pairs = pair_up (unframed (pairs_bytes p.pairs)) }))
        (read_optional p.last_applied)
    ∙ ap (λ xs. some (record p { pairs = xs })) (read_pairs p.pairs)

-- Memberships are numbers too.
abbrev pub counts : SmTypes ℕ ℕ ℕ
counts = record {
  default_membership = 0;
  new_membership = λ l mem. mem;
  snapshot_id = λ l idx. "snapshot";
  serialize_meta = λ m. some (meta_bytes m);
  deserialize_meta = read_meta;
  serialize_payload = λ p. some (payload_bytes p);
  deserialize_payload = read_payload;
}

pub counts-HasCodec : HasCodec counts
counts-HasCodec = record {
  meta_bytes = λ m. (
    meta_bytes m,
    refl,
    ap (λ l. some (record m { last_applied = l })) (read_optional m.last_applied),
  );
  payload_bytes = λ p. (payload_bytes p, refl, read-payload_bytes p);
}
