-- ===== src/Checkpoint/Writes.antt =====
-- The tables and the summary that `save` leaves.
use umbra_db.Prelude.{
  ℕ, ◌+◌, ◌≡◌, ◌≤◌, refl, ap, ◌∙◌, true, false, ◌&&◌, ◌||◌, List, [], ◌∷◌, ◌++◌, Option, none, some,
  map, Option-cases, any, length, ltb, text_beq, text_beq_iff, text_eq, inl, inr, arith, Text,
}
use mathlib.Core.List.{append-nil, append_assoc}
use umbra_db.Table.{Table, lookup, put as put_row}
use umbra_db.Slices.{slices, concat}
use umbra_db.Slices.Laws.{slices_cover}
use umbra_db.Errors.{ok}
use umbra_db.Exec.{pure, lift}
use umbra_db.Exec.Steps.{>>=_ok, statement->>=_ok, lift->>=_ok}
use umbra_db.Checkpoint.Tables.{
  Bytes, WalletKey, wallet_key_eq, ChunkRow, Manifest, Junction, CkptTables,
}
use umbra_db.Checkpoint.Save.{
  dedupe, repeats, upsert_chunk_rows, upsert_chunks, insert_chunk_batches, insert_junctions,
  claim_seq, insert_manifest, insert_junction_batches, references_exist, junction_rows, hashed,
  manifest_hash_of, split_chunks, chunk_insert_max_rows, junction_insert_max_rows, or_diverged,
  run_on_tx, save_impl, chunk_size_or_default, Summary, to_summary, coerce_to_safe_number,
  max_safe_integer,
}
use umbra_db.Checkpoint.Dedupe.{
  names, dedupe-repeats, dedupe-names, repeats-append, upsert_chunk_rows-present,
  upsert_chunk_rows-append,
}

abbrev pub or_one : Option ℕ → ℕ
or_one none = 1
or_one (some n) = n

-- the sequence that the next save of a wallet claims
abbrev pub next_seq : WalletKey → Table WalletKey ℕ → ℕ
next_seq key counters = or_one (lookup key counters)

upsert_chunks_ok :
    (now : ℕ) (b : List (Bytes × Bytes)) (t : CkptTables)
    → repeats b ≡ false
    → upsert_chunks now b t ≡ ok (record t { chunks = upsert_chunk_rows now b t.chunks }, tt)
unfolding upsert_chunks
upsert_chunks_ok now b t h = rw h refl

insert_chunk_batches_lem :
    (now : ℕ) (batches : List (List (Bytes × Bytes))) (t : CkptTables)
    → repeats (concat batches) ≡ false
    → insert_chunk_batches now batches t
      ≡ (record t { chunks = upsert_chunk_rows now (concat batches) t.chunks }, ok tt)
unfolding insert_chunk_batches
insert_chunk_batches_lem now [] t h = unfold pure in unfold upsert_chunk_rows in refl
insert_chunk_batches_lem now (b ∷ bs) t h =
    let each = repeats-append b (concat bs) h in
    rw
      (
        statement->>=_ok (upsert_chunks now b) _ t (upsert_chunks_ok now b t each.0),
        insert_chunk_batches_lem now bs _ each.1,
        upsert_chunk_rows-append now b (concat bs) t.chunks,
      )
      refl

pub references_exist-append :
    (chunks : Table Bytes ChunkRow) (a b : List Junction)
    → references_exist chunks (a ++ b) ≡ (references_exist chunks a && references_exist chunks b)
unfolding references_exist
references_exist-append chunks [] b = refl
references_exist-append chunks (j ∷ a) b = ground (arith, references_exist-append chunks a b)

insert_junctions_ok :
    (b : List Junction) (t : CkptTables)
    → references_exist t.chunks b ≡ true
    → insert_junctions b t ≡ ok (record t { junctions = t.junctions ++ b }, tt)
unfolding insert_junctions
insert_junctions_ok b t h = rw h refl

insert_junction_batches_lem :
    (batches : List (List Junction)) (t : CkptTables)
    → references_exist t.chunks (concat batches) ≡ true
    → insert_junction_batches batches t
      ≡ (record t { junctions = t.junctions ++ concat batches }, ok tt)
unfolding insert_junction_batches
insert_junction_batches_lem [] t h = unfold pure in rw (append-nil t.junctions) refl
insert_junction_batches_lem (b ∷ bs) t h =
    let each = references_exist-append t.chunks b (concat bs) in
    let first : references_exist t.chunks b ≡ true = ground arith in
    let rest : references_exist t.chunks (concat bs) ≡ true = ground arith in
    rw
      (
        statement->>=_ok (insert_junctions b) _ t (insert_junctions_ok b t first),
        insert_junction_batches_lem bs (record t { junctions = t.junctions ++ b }) rest,
        append_assoc t.junctions b (concat bs),
      )
      refl

claim_seq_lem :
    (key : WalletKey) (t : CkptTables)
    → next_seq key t.counters ≤ max_safe_integer
    → claim_seq key t
      ≡ ok (
        record t { counters = put_row key (next_seq key t.counters + 1) t.counters },
        next_seq key t.counters,
      )
unfolding claim_seq
claim_seq_lem key t h = elim (Option-cases (lookup key t.counters)) [
  | inl absent ↦
      let e : next_seq key t.counters ≡ 1 = ap or_one absent in rw (claim_seq, e, absent) refl
  | inr (n, there) ↦
      let e : next_seq key t.counters ≡ n = ap or_one there in
      rw (claim_seq, e, there) (ground (arith, e))
]

module _ (sha256 : Bytes → Bytes) where
  -- the row of ckpt_manifests that a save adds
  abbrev pub new_manifest : ℕ → WalletKey → List Bytes → Option Text → CkptTables → Manifest
  new_manifest now key chunks label t = record {
    id = t.next_id;
    owner = key;
    seq = next_seq key t.counters;
    complete = true;
    manifest_hash = manifest_hash_of sha256 (map sha256 chunks);
    label = label;
    created_at = now;
  }

  -- the tables after a save of the chunks
  abbrev pub saved : ℕ → WalletKey → List Bytes → Option Text → CkptTables → CkptTables
  saved now key chunks label t = record {
    chunks = upsert_chunk_rows now (dedupe [] (hashed sha256 chunks)) t.chunks;
    manifests = new_manifest now key chunks label t ∷ t.manifests;
    junctions = t.junctions ++ junction_rows t.next_id 0 (map sha256 chunks);
    counters = put_row key (next_seq key t.counters + 1) t.counters;
    next_id = t.next_id + 1;
  }

  abbrev pub new_summary : ℕ → WalletKey → Bytes → List Bytes → Option Text → CkptTables → Summary
  new_summary now key bytes chunks label t = record {
    sequence = next_seq key t.counters;
    manifest_hash = manifest_hash_of sha256 (map sha256 chunks);
    byte_length = length bytes;
    chunk_count = length chunks;
    label = label;
    created_at = now;
  }

  -- every hash that the junction rows name was among the chunks that the save wrote
  references_written :
      (now id i : ℕ) (hs : List Bytes) (rows : List (Bytes × Bytes)) (chunks : Table Bytes ChunkRow)
      → ((h : Bytes) → any (text_beq h) hs ≡ true → names h rows ≡ true)
      → references_exist (upsert_chunk_rows now rows chunks) (junction_rows id i hs) ≡ true
  unfolding references_exist junction_rows
  references_written now id i [] rows chunks all_there = refl
  references_written now id i (h ∷ hs) rows chunks all_there =
      let ih =
        references_written now id (i + 1) hs rows chunks (λ k m. all_there k (ground arith)) in
      let this = all_there h (ground (arith, (text_beq_iff h h).1 refl)) in
      rw (ih, upsert_chunk_rows-present now h rows chunks, this) refl

  names-hashed :
      (h : Bytes) (chunks : List Bytes)
      → names h (hashed sha256 chunks) ≡ any (text_beq h) (map sha256 chunks)
  unfolding hashed
  names-hashed h [] = refl
  names-hashed h (c ∷ chunks) =
      unfold hashed in (ap (λ b. text_beq h (sha256 c) || b) (names-hashed h chunks))

  -- after its chunks are written, the references of the new manifest hold
  pub references_saved :
      (now : ℕ) (chunks : List Bytes) (t : CkptTables)
      → references_exist
          (upsert_chunk_rows now (dedupe [] (hashed sha256 chunks)) t.chunks)
          (junction_rows t.next_id 0 (map sha256 chunks))
        ≡ true
  references_saved now chunks t =
      references_written now t.next_id 0 (map sha256 chunks) (dedupe [] (hashed sha256 chunks))
        t.chunks λ h m. dedupe-names h [] (hashed sha256 chunks) (names-hashed h chunks ∙ m)

  module _ (now : ℕ) (key : WalletKey) (bytes : Bytes) (chunks : List Bytes) (label : Option Text)
      (t : CkptTables) (room : next_seq key t.counters ≤ max_safe_integer) where
    rows : List (Bytes × Bytes)
    rows = dedupe [] (hashed sha256 chunks)

    summary_ok :
        to_summary (new_manifest now key chunks label t) (length bytes) (length chunks)
        ≡ ok (new_summary now key bytes chunks label t)
    unfolding to_summary coerce_to_safe_number
    summary_ok =
        let safe : ltb max_safe_integer (next_seq key t.counters) ≡ false = ground arith in
        rw (to_summary, coerce_to_safe_number, safe) refl

    -- the tables with their chunks, then with the counter, then with the manifest
    with_chunks : CkptTables
    with_chunks = record t {
      chunks = upsert_chunk_rows now (dedupe [] (hashed sha256 chunks)) t.chunks;
    }

    with_counter : CkptTables
    unfolding with_chunks
    with_counter = record with_chunks {
      counters = put_row key (next_seq key t.counters + 1) t.counters;
    }

    with_manifest : CkptTables
    unfolding with_counter with_chunks
    with_manifest = record with_counter {
      manifests = new_manifest now key chunks label t ∷ t.manifests;
      next_id = t.next_id + 1;
    }

    manifest_in :
        insert_manifest now key
          (next_seq key t.counters)
          (manifest_hash_of sha256 (map sha256 chunks))
          label
          with_counter
        ≡ ok (with_manifest, new_manifest now key chunks label t)
    unfolding insert_manifest with_manifest with_counter with_chunks
    manifest_in = refl

    pub run_on_tx_lem :
        run_on_tx sha256 now key bytes chunks label t
        ≡ (saved now key chunks label t, ok (new_summary now key bytes chunks label t))
    unfolding run_on_tx with_manifest with_counter with_chunks rows lift
    run_on_tx_lem =
        let chunk_batches = slices_cover chunk_insert_max_rows rows (omega arith) in
        let junction_batches =
          slices_cover junction_insert_max_rows (junction_rows t.next_id 0 (map sha256 chunks))
            (omega arith) in
        let chunks_in : insert_chunk_batches now chunk_batches.0 t ≡ (with_chunks, ok tt) =
          insert_chunk_batches_lem now chunk_batches.0 t
            (rw chunk_batches.2.0 (dedupe-repeats [] (hashed sha256 chunks)))
          ∙ ap (λ bs. (record t { chunks = upsert_chunk_rows now bs t.chunks }, ok tt))
              chunk_batches.2.0 in
        let junctions_in : insert_junction_batches junction_batches.0 with_manifest
            ≡ (saved now key chunks label t, ok tt) =
          insert_junction_batches_lem junction_batches.0 with_manifest
            (rw junction_batches.2.0 (references_saved now chunks t))
          ∙ ap (λ js. (record with_manifest { junctions = t.junctions ++ js }, ok tt))
              junction_batches.2.0 in
        lift->>=_ok _ _ t (ap or_diverged chunk_batches.1)
        ∙ >>=_ok _ _ t chunks_in
        ∙ statement->>=_ok _ _ _ (claim_seq_lem key with_chunks room)
        ∙ statement->>=_ok _ _ _ manifest_in
        ∙ lift->>=_ok _ _ _ (ap or_diverged junction_batches.1)
        ∙ >>=_ok _ _ _ junctions_in
        ∙ ap (λ r. (saved now key chunks label t, r)) summary_ok

  pub save_impl_lem :
      (now : ℕ) (key : WalletKey) (bytes : Bytes) (chunk_size : Option ℕ) (label : Option Text)
      (t : CkptTables)
      → next_seq key t.counters ≤ max_safe_integer
      → (chunks : List Bytes) → slices (chunk_size_or_default chunk_size) bytes ≡ some chunks
      → save_impl sha256 now key bytes chunk_size label t
        ≡ (saved now key chunks label t, ok (new_summary now key bytes chunks label t))
  unfolding save_impl split_chunks
  save_impl_lem now key bytes chunk_size label t room chunks cut =
      lift->>=_ok _ _ t (ap or_diverged cut) ∙ run_on_tx_lem now key bytes chunks label t room
