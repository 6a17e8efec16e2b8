-- ===== src/Checkpoint/Integrity.antt =====
-- `load` of src/postgres/checkpoint-store.ts over tables that anything may have happened to.
use umbra_db.Prelude.{
  ℕ, ◌+◌, ◌≡◌, refl, sym, ap, ◌∙◌, List, [], ◌∷◌, ◌++◌, Option, some, map, Option-cases, length,
  length-append, text_beq, text_beq_iff, Bool-cases, inl, inr, ◌⊎◌, arith, filter,
}
use umbra_db.Slices.{concat}
use umbra_db.Errors.{Result-cases, ok}
use umbra_db.Checkpoint.Tables.{Bytes, WalletKey, Manifest, CkptTables}
use umbra_db.Checkpoint.Save.{Summary, manifest_hash_of, to_summary, coerce_to_safe_number}
use umbra_db.Checkpoint.Load.{
  JoinRow, CheckpointRecord, verify_rows, assemble, load_impl, latest, matches, select_chunks,
}

-- two inputs of one digest
abbrev pub Collision : (Bytes → Bytes) → Type 0
Collision f = (a : Bytes) × (b : Bytes) × (f a ≡ f b) × ¬ (a ≡ b)

append-inj : (a c b d : Bytes) → length a ≡ length c → a ++ b ≡ c ++ d → (a ≡ c) × (b ≡ d)
append-inj [] [] b d n h = (refl, h)
append-inj [] (y ∷ c) b d n h = absurd (omega arith)
append-inj (x ∷ a) [] b d n h = absurd (omega arith)
append-inj (x ∷ a) (y ∷ c) b d n h =
    let tail : (a ≡ c) × (b ≡ d) = append-inj a c b d (omega arith) cc in (cc, tail.1)

module _ (sha256 : Bytes → Bytes) where
  verify_rows-hashes :
      (mh : Bytes) (i : ℕ) (rows : List JoinRow) (parts : List Bytes)
      → verify_rows sha256 mh i rows ≡ ok parts
      → map (λ (r : JoinRow). r.chunk_hash) rows ≡ map sha256 parts
  unfolding verify_rows
  verify_rows-hashes mh i [] [] h = refl
  verify_rows-hashes mh i [] (p ∷ parts) h = cc
  verify_rows-hashes mh i (r ∷ rows) parts h = elim (Option-cases r.chunk) [
    | inl none_there ↦ absurd (ground (arith, none_there))
    | inr (c, there) ↦ elim (Result-cases (verify_rows sha256 mh (i + 1) rows)) [
      | inl (rest, e) ↦
          let ih = verify_rows-hashes mh (i + 1) rows rest e in
          ground (arith, there, e, ih, text_beq_iff (sha256 c.bytes) r.chunk_hash)
      | inr (x, e) ↦ absurd (ground (arith, there, e))
    ]
  ]

  -- digests put together are taken apart at their length
  concat-digests :
      ((b : Bytes) → length (sha256 b) ≡ 32)
      → (xs ys : List Bytes) → concat (map sha256 xs) ≡ concat (map sha256 ys)
      → map sha256 xs ≡ map sha256 ys
  concat-digests n [] [] h = refl
  concat-digests n [] (y ∷ ys) h =
      absurd (omega (arith, n y, ap length h, length-append (sha256 y) (concat (map sha256 ys))))
  concat-digests n (x ∷ xs) [] h =
      absurd (omega (arith, n x, ap length h, length-append (sha256 x) (concat (map sha256 xs))))
  concat-digests n (x ∷ xs) (y ∷ ys) h =
      let both =
        append-inj (sha256 x) (sha256 y) (concat (map sha256 xs)) (concat (map sha256 ys))
          (n x ∙ sym (n y)) h in
      let tails = concat-digests n xs ys both.1 in cc

  equal_unless : (a b : Bytes) → sha256 a ≡ sha256 b → (a ≡ b) ⊎ Collision sha256
  equal_unless a b h = elim (Bool-cases (text_beq a b)) [
    | inl same ↦ inl ((text_beq_iff a b).0 same)
    | inr other ↦ inr (a, b, h, λ e. ground (arith, (text_beq_iff a b).1 e))
  ]

  same_parts : (xs ys : List Bytes) → map sha256 xs ≡ map sha256 ys → (xs ≡ ys) ⊎ Collision sha256
  same_parts [] [] h = inl refl
  same_parts [] (y ∷ ys) h = cc
  same_parts (x ∷ xs) [] h = cc
  same_parts (x ∷ xs) (y ∷ ys) h = elim (equal_unless x y cc) [
    | inl head ↦ elim (same_parts xs ys cc) [ inl tail ↦ inl cc | inr c ↦ inr c ]
    | inr c ↦ inr c
  ]

  -- Two payloads with one manifest hash are the same, or a collision is at hand.
  hashed_alike :
      ((b : Bytes) → length (sha256 b) ≡ 32)
      → (xs ys : List Bytes)
      → manifest_hash_of sha256 (map sha256 xs) ≡ manifest_hash_of sha256 (map sha256 ys)
      → (xs ≡ ys) ⊎ Collision sha256
  unfolding manifest_hash_of
  hashed_alike n xs ys h = elim (equal_unless (concat (map sha256 xs)) (concat (map sha256 ys)) h) [
    | inl same ↦ same_parts xs ys (concat-digests n xs ys same)
    | inr c ↦ inr c
  ]

  to_summary_lem :
      (m : Manifest) (n k : ℕ) (s : Summary)
      → to_summary m n k ≡ ok s
      → (s.byte_length ≡ n) × (s.chunk_count ≡ k) × (s.sequence ≡ m.seq)
  unfolding to_summary coerce_to_safe_number
  to_summary_lem m n k s h = ground arith

  assemble_lem :
      (m : Manifest) (rows : List JoinRow) (r : CheckpointRecord)
      → assemble sha256 m rows ≡ ok r
      → (parts : List Bytes) × (r.payload ≡ concat parts)
        × (manifest_hash_of sha256 (map sha256 parts) ≡ m.manifest_hash)
        × (r.summary.sequence ≡ m.seq)
        × (r.summary.byte_length ≡ length r.payload)
  unfolding assemble
  assemble_lem m rows r h = elim (Result-cases (verify_rows sha256 m.manifest_hash 0 rows)) [
    | inr (x, e) ↦ absurd (ground (arith, e))
    | inl (parts, e) ↦ elim (Result-cases (to_summary m (length (concat parts)) (length rows))) [
      | inr (x, f) ↦ absurd (ground (arith, e, f))
      | inl (s, f) ↦
          let sum = to_summary_lem m (length (concat parts)) (length rows) s f in
          let hashes = verify_rows-hashes m.manifest_hash 0 rows parts e in
          let digest =
            text_beq_iff (manifest_hash_of sha256 (map (λ (q : JoinRow). q.chunk_hash) rows))
              m.manifest_hash in
          (
            parts,
            ground (arith, e, f, sum, hashes, digest),
            ground (arith, e, f, sum, hashes, digest),
            ground (arith, e, f, sum, hashes, digest),
            ground (arith, e, f, sum, hashes, digest),
          )
    ]
  ]

  -- The digest has 32 bytes. Then, whatever the tables hold: where the hash of the manifest that
  -- is found is the hash of the chunks `chunks` of some data, a load that returns gives exactly
  -- that data, with its length and the sequence of the manifest; or it found two different inputs
  -- with one digest.
  pub load_integrity :
      ((b : Bytes) → length (sha256 b) ≡ 32)
      → (key : WalletKey) (sequence : Option ℕ) (t : CkptTables) (m : Manifest)
        (chunks : List Bytes)
      → (r : CheckpointRecord) → latest (filter (matches key sequence) t.manifests) ≡ some m
      → m.manifest_hash ≡ manifest_hash_of sha256 (map sha256 chunks)
      → load_impl sha256 key sequence t ≡ ok r
      → ((r.payload ≡ concat chunks)
          × (r.summary.byte_length ≡ length (concat chunks))
          × (r.summary.sequence ≡ m.seq))
        ⊎ Collision sha256
  unfolding load_impl
  load_integrity n key sequence t m chunks r found mh h =
      let a = assemble_lem m (select_chunks m.id t) r (ground (arith, found)) in
      elim (hashed_alike n a.0 chunks (a.2 ∙ mh)) [
        | inl same ↦ inl (ground (arith, a, same))
        | inr c ↦ inr c
      ]
