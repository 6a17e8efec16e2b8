-- ===== src/Checkpoint/Load.antt =====
-- `load` of src/postgres/checkpoint-store.ts, on the snapshot that its transaction reads.
use umbra_db.Prelude.{
  ℕ, ◌+◌, Bool, not, ◌&&◌, List, [], ◌∷◌, Option, none, some, map, filter, length, leb, ◌==◌,
  if◌then◌else◌, text_beq, text_eq,
}
use umbra_db.Table.{Table, lookup}
use umbra_db.Slices.{concat}
use umbra_db.Errors.{
  Result, ok, fail, storage, checkpoint_not_found, chunk_missing, chunk_integrity, manifest_corrupt,
}
use umbra_db.Checkpoint.Tables.{
  Bytes, WalletKey, wallet_key_beq, wallet_key_eq, ChunkRow, Manifest, Junction, CkptTables,
}
use umbra_db.Checkpoint.Save.{Summary, to_summary, manifest_hash_of}

pub record CheckpointRecord : Type 0 where
  pub summary : Summary
  pub payload : Bytes

-- A row of load's LEFT JOIN.
pub record JoinRow : Type 0 where
  pub position : ℕ
  pub chunk_hash : Bytes
  pub chunk : Option ChunkRow

-- WHERE w = ... AND net = ... AND complete AND (sequence IS NULL OR seq = sequence)
unfoldable pub matches : WalletKey → Option ℕ → Manifest → Bool
matches key none m = wallet_key_beq m.owner key && m.complete
matches key (some n) m = wallet_key_beq m.owner key && (m.complete && m.seq == n)

-- the first of two rows under ORDER BY seq DESC
unfoldable pub newer : Manifest → Option Manifest → Manifest
newer m none = m
newer m (some n) = if leb n.seq m.seq then m else n

-- ORDER BY seq DESC LIMIT 1
unfoldable pub latest : List Manifest → Option Manifest
latest [] = none
latest (m ∷ ms) = some (newer m (latest ms))

-- SELECT ... ckpt_manifest_chunks mc LEFT JOIN ckpt_chunks c ON c.hash = mc.chunk_hash
abbrev pub joined : Table Bytes ChunkRow → Junction → JoinRow
joined chunks j = record {
  position = j.position;
  chunk_hash = j.chunk_hash;
  chunk = lookup j.chunk_hash chunks;
}

-- ORDER BY mc.position
unfoldable pub insert_by_position : JoinRow → List JoinRow → List JoinRow
insert_by_position r [] = r ∷ []
insert_by_position r (q ∷ qs) =
    if leb r.position q.position then r ∷ q ∷ qs else q ∷ insert_by_position r qs

unfoldable pub order_by_position : List JoinRow → List JoinRow
order_by_position [] = []
order_by_position (r ∷ rs) = insert_by_position r (order_by_position rs)

unfoldable pub select_chunks : ℕ → CkptTables → List JoinRow
select_chunks id t =
    order_by_position (map (joined t.chunks) (filter (λ j. j.manifest_id == id) t.junctions))

-- `crypto` is not of this repository: the digest is a parameter.
module _ (sha256 : Bytes → Bytes) where
  -- The loop over `chunkRows` in loadImpl, from position `i`: the chunks' data in order.
  unfoldable pub verify_rows : Bytes → ℕ → List JoinRow → Result (List Bytes)
  verify_rows manifest_hash i [] = ok []
  verify_rows manifest_hash i (r ∷ rs) =
      if not (r.position == i)
      then fail (storage (manifest_corrupt manifest_hash))
      else elim r.chunk [
        | none ↦ fail (storage (chunk_missing r.chunk_hash))
        | some c ↦
            if not (text_beq (sha256 c.bytes) r.chunk_hash)
            then fail (storage (chunk_integrity (sha256 c.bytes) r.chunk_hash))
            else elim (verify_rows manifest_hash (i + 1) rs) [
              | ok parts ↦ ok (c.bytes ∷ parts)
              | fail e ↦ fail e
            ]
      ]

  -- The rest of loadImpl, on the manifest that was found: the digest of the chunk hashes is
  -- computed again and compared.
  unfoldable pub assemble : Manifest → List JoinRow → Result CheckpointRecord
  assemble m rows = elim (verify_rows m.manifest_hash 0 rows) [
    | ok parts ↦
        if not (
          text_beq (manifest_hash_of sha256 (map (λ (r : JoinRow). r.chunk_hash) rows))
            m.manifest_hash)
        then fail (storage (manifest_corrupt m.manifest_hash))
        else elim (to_summary m (length (concat parts)) (length rows)) [
          | ok s ↦ ok (record { summary = s; payload = concat parts })
          | fail e ↦ fail e
        ]
    | fail e ↦ fail e
  ]

  -- loadImpl, on the one snapshot that its REPEATABLE READ transaction reads
  unfoldable pub load_impl : WalletKey → Option ℕ → CkptTables → Result CheckpointRecord
  load_impl key sequence t = elim (latest (filter (matches key sequence) t.manifests)) [
    | none ↦ fail (storage (checkpoint_not_found key.w key.net sequence))
    | some m ↦ assemble m (select_chunks m.id t)
  ]
