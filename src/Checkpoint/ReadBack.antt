-- ===== src/Checkpoint/ReadBack.antt =====
-- What `load` of src/postgres/checkpoint-store.ts reads of the rows that a save has just written.
use umbra_db.Prelude.{
  ℕ, ◌+◌, ◌≡◌, ◌≤◌, ◌<◌, refl, ap, true, false, ◌&&◌, List, [], ◌∷◌, Option, none, some, map,
  Option-cases, All, filter, filter-append, length, ◌==◌, leb, ltb, text_beq, text_beq_iff, text_eq,
  Bool-cases, inl, inr, arith, Text,
}
use umbra_db.Table.{Table, lookup}
use umbra_db.Slices.{concat}
use umbra_db.Errors.{ok}
use umbra_db.Checkpoint.Tables.{
  Bytes, WalletKey, wallet_key_beq, wallet_key_beq_iff, wallet_key_eq, ChunkRow, Manifest, Junction,
  CkptTables,
}
use umbra_db.Checkpoint.Save.{
  upsert_chunk_rows, references_exist, junction_rows, hashed, dedupe, max_safe_integer,
  manifest_hash_of, to_summary, coerce_to_safe_number, Summary,
}
use umbra_db.Checkpoint.Load.{
  JoinRow, CheckpointRecord, verify_rows, assemble, latest, newer, matches, select_chunks, joined,
  order_by_position, insert_by_position,
}
use umbra_db.Checkpoint.Writes.{next_seq, saved}
use umbra_db.Checkpoint.Invariant.{Sound}

old_rows :
    (id : ℕ) (js : List Junction)
    → All (λ (j : Junction). j.manifest_id < id) js
    → filter (λ (j : Junction). j.manifest_id == id) js ≡ []
old_rows id [] h = refl
old_rows id (j ∷ js) h = ground (arith, old_rows id js h.1, h.0)

new_rows :
    (id i : ℕ) (hs : List Bytes)
    → filter (λ (j : Junction). j.manifest_id == id) (junction_rows id i hs) ≡ junction_rows id i hs
unfolding junction_rows
new_rows id i [] = refl
new_rows id i (h ∷ hs) = ground (arith, new_rows id (i + 1) hs)

goes_first :
    (chunks : Table Bytes ChunkRow) (r : JoinRow) (id i : ℕ) (hs : List Bytes)
    → r.position ≤ i
    → insert_by_position r (map (joined chunks) (junction_rows id i hs))
      ≡ r ∷ map (joined chunks) (junction_rows id i hs)
unfolding junction_rows insert_by_position
goes_first chunks r id i [] h = refl
goes_first chunks r id i (k ∷ hs) h =
    let first : leb r.position i ≡ true = ground arith in rw (insert_by_position, first) refl

-- the rows come out of the join in the order in which they were numbered
in_order :
    (chunks : Table Bytes ChunkRow) (id i : ℕ) (hs : List Bytes)
    → order_by_position (map (joined chunks) (junction_rows id i hs))
      ≡ map (joined chunks) (junction_rows id i hs)
unfolding junction_rows order_by_position
in_order chunks id i [] = refl
in_order chunks id i (h ∷ hs) =
    rw (in_order chunks id (i + 1) hs) (goes_first chunks _ id (i + 1) hs (omega arith))

module _ (sha256 : Bytes → Bytes) where
  verified :
      (chunks : Table Bytes ChunkRow) (mh : Bytes) (id i : ℕ) (hs : List Bytes)
      → references_exist chunks (junction_rows id i hs) ≡ true
      → ((h : Bytes) (c : ChunkRow) → lookup h chunks ≡ some c → sha256 c.bytes ≡ h)
      → (parts : List Bytes) × (verify_rows sha256 mh i
            (map (joined chunks) (junction_rows id i hs))
          ≡ ok parts)
  unfolding junction_rows references_exist verify_rows
  verified chunks mh id i [] there addressed = ([], refl)
  verified chunks mh id i (h ∷ hs) there addressed = elim (Option-cases (lookup h chunks)) [
    | inl absent ↦ absurd (ground (arith, absent))
    | inr (c, e) ↦
        let ih = verified chunks mh id (i + 1) hs (ground arith) addressed in
        let digest = (text_beq_iff (sha256 c.bytes) h).1 (addressed h c e) in
        let here : (i == i) ≡ true = ground arith in
        (c.bytes ∷ ih.0, rw (here, e, digest, ih.1) refl)
  ]

  names_of_rows :
      (chunks : Table Bytes ChunkRow) (id i : ℕ) (hs : List Bytes)
      → map (λ (r : JoinRow). r.chunk_hash) (map (joined chunks) (junction_rows id i hs)) ≡ hs
  unfolding junction_rows
  names_of_rows chunks id i [] = refl
  names_of_rows chunks id i (h ∷ hs) = ap (λ xs. h ∷ xs) (names_of_rows chunks id (i + 1) hs)

  summary_of :
      (m : Manifest) (n k : ℕ)
      → m.seq ≤ max_safe_integer
      → (s : Summary) × (to_summary m n k ≡ ok s)
  unfolding to_summary coerce_to_safe_number
  summary_of m n k room =
      let safe : ltb max_safe_integer m.seq ≡ false = ground arith in
      (
        record {
          sequence = m.seq;
          manifest_hash = m.manifest_hash;
          byte_length = n;
          chunk_count = k;
          label = m.label;
          created_at = m.created_at;
        },
        rw (to_summary, coerce_to_safe_number, safe) refl,
      )

  pub assembles :
      (chunks : Table Bytes ChunkRow) (m : Manifest) (id : ℕ) (hs : List Bytes)
      → m.seq ≤ max_safe_integer
      → manifest_hash_of sha256 hs ≡ m.manifest_hash
      → references_exist chunks (junction_rows id 0 hs) ≡ true
      → ((h : Bytes) (c : ChunkRow) → lookup h chunks ≡ some c → sha256 c.bytes ≡ h)
      → (r : CheckpointRecord) × (assemble sha256 m (map (joined chunks) (junction_rows id 0 hs))
          ≡ ok r)
  unfolding assemble
  assembles chunks m id hs room named there addressed =
      let rows = map (joined chunks) (junction_rows id 0 hs) in
      let v = verified chunks m.manifest_hash id 0 hs there addressed in
      let s = summary_of m (length (concat v.0)) (length rows) room in
      let digest : text_beq (manifest_hash_of sha256 (map (λ (r : JoinRow). r.chunk_hash) rows))
            m.manifest_hash
          ≡ true =
        rw (names_of_rows chunks id 0 hs)
          ((text_beq_iff (manifest_hash_of sha256 hs) m.manifest_hash).1 named) in
      (record { summary = s.0; payload = concat v.0 }, rw (assemble, v.1, digest, s.1) refl)

  -- the rows of the new manifest are what its load reads
  pub selected :
      (now : ℕ) (key : WalletKey) (chunks : List Bytes) (label : Option Text) (t : CkptTables)
      → Sound sha256 t
      → select_chunks t.next_id (saved sha256 now key chunks label t)
        ≡ map
            (joined (upsert_chunk_rows now (dedupe [] (hashed sha256 chunks)) t.chunks))
            (junction_rows t.next_id 0 (map sha256 chunks))
  unfolding select_chunks
  selected now key chunks label t s =
      let js = junction_rows t.next_id 0 (map sha256 chunks) in
      let mine = filter-append (λ (j : Junction). j.manifest_id == t.next_id) t.junctions js in
      rw
        (
          select_chunks,
          mine,
          old_rows t.next_id t.junctions s.rows,
          new_rows t.next_id 0 (map sha256 chunks),
          in_order,
        )
        refl

latest_bound :
    (bound : ℕ) (xs : List Manifest)
    → All (λ (n : Manifest). n.seq < bound) xs
    → (n : Manifest) → latest xs ≡ some n
    → n.seq < bound
unfolding latest newer
latest_bound bound [] h n e = cc
latest_bound bound (m ∷ ms) h n e = elim (Option-cases (latest ms)) [
  | inl absent ↦ ground (arith, absent, h.0)
  | inr (k, there) ↦ ground (arith, there, h.0, latest_bound bound ms h.1 k there)
]

matching_bound :
    (key : WalletKey) (counters : Table WalletKey ℕ) (ms : List Manifest)
    → All (λ (n : Manifest). n.seq < next_seq n.owner counters) ms
    → All (λ (n : Manifest). n.seq < next_seq key counters) (filter (matches key none) ms)
unfolding matches
matching_bound key counters [] h = tt
matching_bound key counters (m ∷ ms) h =
    elim (Bool-cases (wallet_key_beq m.owner key && m.complete)) [
      | inl mine ↦
          let same = (wallet_key_beq_iff m.owner key).0 (ground arith) in
          rw (matches, mine) (rw same at h.0, matching_bound key counters ms h.1)
      | inr other ↦ rw (matches, other) (matching_bound key counters ms h.1)
    ]

-- the newest manifest of the wallet is the one that the save added
pub newest :
    (key : WalletKey) (counters : Table WalletKey ℕ) (m : Manifest) (ms : List Manifest)
    → m.seq ≡ next_seq key counters
    → All (λ (n : Manifest). n.seq < next_seq n.owner counters) ms
    → newer m (latest (filter (matches key none) ms)) ≡ m
unfolding newer
newest key counters m ms at h = elim (Option-cases (latest (filter (matches key none) ms))) [
  | inl absent ↦ rw (newer, absent) refl
  | inr (k, there) ↦
      let below =
        latest_bound (next_seq key counters) (filter (matches key none) ms)
          (matching_bound key counters ms h) k there in
      let first : leb k.seq m.seq ≡ true = ground arith in rw (newer, there, first) refl
]
