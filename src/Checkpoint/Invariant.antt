-- ===== src/Checkpoint/Invariant.antt =====
-- The well-formedness of the tables of src/postgres/checkpoint-store.ts, and `save`.
use umbra_db.Prelude.{
  ℕ, ◌+◌, ◌≡◌, ◌<◌, refl, ap, ◌∙◌, true, List, [], ◌∷◌, Option, map, Option-cases, any, All,
  All-map, All-append, text_beq, text_eq, Bool-cases, inl, inr, arith, Text, ◌=?◌,
}
use umbra_db.Table.{Table, lookup, lookup-put, lookup-put_self, All-put, All-lookup, put as put_row}
use umbra_db.Checkpoint.Tables.{
  Bytes, WalletKey, wallet_key_eq, wallet_key_beq_iff, ChunkRow, Manifest, Junction, CkptTables,
}
use umbra_db.Checkpoint.Save.{
  upsert_chunk, upsert_chunk_rows, references_exist, junction_rows, hashed, dedupe,
}
use umbra_db.Checkpoint.Dedupe.{upsert_chunk_rows-present}
use umbra_db.Checkpoint.Writes.{next_seq, or_one, saved, references_exist-append, references_saved}

-- the ids fall along the list, in which the newest row is first
abbrev pub Falling : List Manifest → Type 0
Falling [] = Unit
Falling (m ∷ ms) = All (λ (n : Manifest). n.id < m.id) ms × Falling ms

pub record Sound (sha256 : Bytes → Bytes) (t : CkptTables) : Type 0 where
  -- a chunk stands under its digest
  pub addressed : All (λ (r : Bytes × ChunkRow). sha256 r.1.bytes ≡ r.0) t.chunks
  -- the bigserial is past every id
  pub ids : All (λ (m : Manifest). m.id < t.next_id) t.manifests
  pub falling : Falling t.manifests
  pub rows : All (λ (j : Junction). j.manifest_id < t.next_id) t.junctions
  -- the counter of a wallet is past every sequence of the wallet
  pub seqs : All (λ (m : Manifest). m.seq < next_seq m.owner t.counters) t.manifests
  -- REFERENCES ckpt_chunks(hash)
  pub references : references_exist t.chunks t.junctions ≡ true

module _ (sha256 : Bytes → Bytes) where
  -- what the rows of ckpt_chunks have in common
  abbrev pub Addressed : Bytes × ChunkRow → Type 0
  Addressed r = sha256 r.1.bytes ≡ r.0

  upsert_chunk-Addressed :
      (now : ℕ) (k d : Bytes) (chunks : Table Bytes ChunkRow)
      → sha256 d ≡ k
      → All Addressed chunks
      → All Addressed (upsert_chunk now k d chunks)
  unfolding upsert_chunk
  upsert_chunk-Addressed now k d chunks named a = elim (Option-cases (lookup k chunks)) [
    | inl absent ↦ rw (upsert_chunk, absent) (All-put Addressed k _ chunks named a)
    | inr (old, there) ↦
        rw (upsert_chunk, there)
          (All-put Addressed k _ chunks (All-lookup Addressed k chunks old a there) a)
  ]

  All-hashed :
      (chunks : List Bytes) → All (λ (r : Bytes × Bytes). sha256 r.1 ≡ r.0) (hashed sha256 chunks)
  unfolding hashed
  All-hashed [] = tt
  All-hashed (c ∷ chunks) = (refl, All-hashed chunks)

  All-dedupe :
      (P : Bytes × Bytes → Type 0) (seen : List Bytes) (rs : List (Bytes × Bytes))
      → All P rs
      → All P (dedupe seen rs)
  unfolding dedupe
  All-dedupe P seen [] h = tt
  All-dedupe P seen ((k, d) ∷ rs) h = elim (Bool-cases (any (text_beq k) seen)) [
    | inl met ↦ rw (dedupe, met) (All-dedupe P seen rs h.1)
    | inr new ↦ rw (dedupe, new) (h.0, All-dedupe P (k ∷ seen) rs h.1)
  ]

  upsert_chunk_rows-Addressed :
      (now : ℕ) (rs : List (Bytes × Bytes)) (chunks : Table Bytes ChunkRow)
      → All (λ (r : Bytes × Bytes). sha256 r.1 ≡ r.0) rs
      → All Addressed chunks
      → All Addressed (upsert_chunk_rows now rs chunks)
  unfolding upsert_chunk_rows
  upsert_chunk_rows-Addressed now [] chunks named a = a
  upsert_chunk_rows-Addressed now ((k, d) ∷ rs) chunks named a =
      upsert_chunk_rows-Addressed now rs (upsert_chunk now k d chunks) named.1
        (upsert_chunk-Addressed now k d chunks named.0 a)

  junction_rows-id :
      (id i : ℕ) (hs : List Bytes)
      → All (λ (j : Junction). j.manifest_id < id + 1) (junction_rows id i hs)
  unfolding junction_rows
  junction_rows-id id i [] = tt
  junction_rows-id id i (h ∷ hs) = (omega arith, junction_rows-id id (i + 1) hs)

  references_kept :
      (now : ℕ) (rs : List (Bytes × Bytes)) (chunks : Table Bytes ChunkRow) (js : List Junction)
      → references_exist chunks js ≡ true
      → references_exist (upsert_chunk_rows now rs chunks) js ≡ true
  unfolding references_exist
  references_kept now rs chunks [] h = refl
  references_kept now rs chunks (j ∷ js) h =
      let ih = references_kept now rs chunks js (ground arith) in
      rw (ih, upsert_chunk_rows-present) (ground arith)

  -- the counter of each wallet only grows
  next_seq-grows :
      (key owner : WalletKey) (counters : Table WalletKey ℕ) (n : ℕ)
      → n < next_seq owner counters
      → n < next_seq owner (put_row key (next_seq key counters + 1) counters)
  next_seq-grows key owner counters n h = elim (Bool-cases (key =? owner)) [
    | inl same ↦
        rw (lookup-put key owner, same)
          (omega (arith, ap (λ k. next_seq k counters) ((wallet_key_beq_iff key owner).0 same)))
    | inr other ↦ rw (lookup-put key owner, other) h
  ]

  pub next_seq-claimed :
      (key : WalletKey) (counters : Table WalletKey ℕ)
      → next_seq key (put_row key (next_seq key counters + 1) counters) ≡ next_seq key counters + 1
  next_seq-claimed key counters =
      ap or_one (lookup-put_self key (next_seq key counters + 1) counters)

  pub saved-Sound :
      (now : ℕ) (key : WalletKey) (chunks : List Bytes) (label : Option Text) (t : CkptTables)
      → Sound sha256 t
      → Sound sha256 (saved sha256 now key chunks label t)
  saved-Sound now key chunks label t s =
      let rows = dedupe [] (hashed sha256 chunks) in
      let js = junction_rows t.next_id 0 (map sha256 chunks) in
      record {
        addressed =
            upsert_chunk_rows-Addressed now rows t.chunks
              (All-dedupe _ [] (hashed sha256 chunks) (All-hashed chunks)) s.addressed;
        ids = (omega arith, All-map (λ m h. omega arith) t.manifests s.ids);
        falling = (s.ids, s.falling);
        rows =
            All-append _ t.junctions js (All-map (λ j h. omega arith) t.junctions s.rows)
              (junction_rows-id t.next_id 0 (map sha256 chunks));
        seqs = (
          omega (arith, next_seq-claimed key t.counters),
          All-map (λ m h. next_seq-grows key m.owner t.counters m.seq h) t.manifests s.seqs,
        );
        references =
            references_exist-append (upsert_chunk_rows now rows t.chunks) t.junctions js
            ∙ (rw
                (
                  references_kept now rows t.chunks t.junctions s.references,
                  references_saved sha256 now chunks t,
                )
                refl);
      }
