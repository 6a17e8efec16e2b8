-- ===== src/Checkpoint/Save.antt =====
-- `save` of src/postgres/checkpoint-store.ts, inside its transaction.
use umbra_db.Prelude.{
  ℕ, ◌+◌, ◌*◌, ◌-◌, ◌^◌, Bool, true, false, ◌&&◌, ◌||◌, List, [], ◌∷◌, ◌++◌, Option, none, some,
  map, Text, any, length, ltb, leb, if◌then◌else◌, text_beq, text_eq,
}
use umbra_db.Table.{Table, lookup, put as put_row}
use umbra_db.Slices.{slices, concat}
use umbra_db.Errors.{Result, ok, fail, app}
use umbra_db.Exec.{Exec, pure, lift, ◌>>=◌, ◌>>◌, statement}
use umbra_db.KvTables.{raised, bigint_max}
use umbra_db.Checkpoint.Tables.{
  Bytes, WalletKey, wallet_key_eq, ChunkRow, Manifest, Junction, CkptTables,
}

-- DEFAULT_CHUNK_SIZE, CHUNK_INSERT_MAX_ROWS, JUNCTION_INSERT_MAX_ROWS
abbrev pub default_chunk_size : ℕ
default_chunk_size = 4 * 1024 * 1024

abbrev pub chunk_insert_max_rows : ℕ
chunk_insert_max_rows = 30000

abbrev pub junction_insert_max_rows : ℕ
junction_insert_max_rows = 20000

-- Number.MAX_SAFE_INTEGER
abbrev pub max_safe_integer : ℕ
max_safe_integer = 2 ^ 53 - 1

-- coerceToSafeNumber: the columns read are never negative
unfoldable pub coerce_to_safe_number : ℕ → Result ℕ
coerce_to_safe_number n = if ltb max_safe_integer n then fail (app 0) else ok n

abbrev pub chunk_size_or_default : Option ℕ → ℕ
chunk_size_or_default none = default_chunk_size
chunk_size_or_default (some n) = n

-- A loop that ran out of fuel (Slices).
abbrev pub or_diverged {ℓ} : {A : Type ℓ} → Option A → Result A
or_diverged none = fail (app 1)
or_diverged (some a) = ok a

unfoldable pub split_chunks : Bytes → ℕ → Result (List Bytes)
split_chunks bytes chunk_size = or_diverged (slices chunk_size bytes)

-- The loop over `seenChunkHashes`: the first chunk of each hash, in order.
unfoldable pub dedupe : List Bytes → List (Bytes × Bytes) → List (Bytes × Bytes)
dedupe seen [] = []
dedupe seen ((h, d) ∷ rows) = elim (any (text_beq h) seen) [
  | true ↦ dedupe seen rows
  | false ↦ (h, d) ∷ dedupe (h ∷ seen) rows
]

-- one row of INSERT ... ON CONFLICT (hash) DO UPDATE SET created_at = now()
unfoldable pub upsert_chunk : ℕ → Bytes → Bytes → Table Bytes ChunkRow → Table Bytes ChunkRow
upsert_chunk now h d chunks = elim (lookup h chunks) [
  | none ↦ put_row h (record { bytes = d; created_at = now }) chunks
  | some old ↦ put_row h (record old { created_at = now }) chunks
]

unfoldable pub upsert_chunk_rows :
    ℕ → List (Bytes × Bytes) → Table Bytes ChunkRow → Table Bytes ChunkRow
upsert_chunk_rows now [] chunks = chunks
upsert_chunk_rows now ((h, d) ∷ rows) chunks =
    upsert_chunk_rows now rows (upsert_chunk now h d chunks)

-- a row of the statement meets the conflict target of an earlier one (21000)
unfoldable pub repeats : List (Bytes × Bytes) → Bool
repeats [] = false
repeats ((h, d) ∷ rows) = any (λ r. text_beq h r.0) rows || repeats rows

unfoldable pub upsert_chunks :
    ℕ → List (Bytes × Bytes) → CkptTables → Result (CkptTables × Unit {0})
upsert_chunks now batch t =
    if repeats batch
    then fail (raised "21000" none)
    else ok (record t { chunks = upsert_chunk_rows now batch t.chunks }, tt)

unfoldable pub insert_chunk_batches : ℕ → List (List (Bytes × Bytes)) → Exec CkptTables (Unit {0})
insert_chunk_batches now [] = pure tt
insert_chunk_batches now (batch ∷ batches) =
    statement (upsert_chunks now batch) >> insert_chunk_batches now batches

-- INSERT ... (w, net) ON CONFLICT DO UPDATE SET next_seq = next_seq + 1 RETURNING next_seq - 1;
-- next_seq has DEFAULT 2
unfoldable pub claim_seq : WalletKey → CkptTables → Result (CkptTables × ℕ)
claim_seq key t = elim (lookup key t.counters) [
  | none ↦ ok (record t { counters = put_row key 2 t.counters }, 1)
  | some n ↦
      if leb bigint_max n
      then fail (raised "22003" none)
      else ok (record t { counters = put_row key (n + 1) t.counters }, n)
]

-- INSERT INTO ckpt_manifests ... RETURNING
unfoldable pub insert_manifest :
    ℕ → WalletKey → ℕ → Bytes → Option Text → CkptTables → Result (CkptTables × Manifest)
insert_manifest now key seq manifest_hash label t =
    let m : Manifest = record {
      id = t.next_id;
      owner = key;
      seq = seq;
      complete = true;
      manifest_hash = manifest_hash;
      label = label;
      created_at = now;
    } in
    ok (record t { manifests = m ∷ t.manifests; next_id = t.next_id + 1 }, m)

-- chunkHashes.map((chunk_hash, i) => ({ manifest_id, position: i, chunk_hash }))
unfoldable pub junction_rows : ℕ → ℕ → List Bytes → List Junction
junction_rows manifest_id i [] = []
junction_rows manifest_id i (h ∷ hs) =
    record { manifest_id = manifest_id; position = i; chunk_hash = h }
    ∷ junction_rows manifest_id (i + 1) hs

abbrev pub is_present : Option ChunkRow → Bool
is_present none = false
is_present (some c) = true

-- REFERENCES ckpt_chunks(hash)
unfoldable pub references_exist : Table Bytes ChunkRow → List Junction → Bool
references_exist chunks [] = true
references_exist chunks (j ∷ js) =
    is_present (lookup j.chunk_hash chunks) && references_exist chunks js

unfoldable pub insert_junctions : List Junction → CkptTables → Result (CkptTables × Unit {0})
insert_junctions batch t =
    if references_exist t.chunks batch
    then ok (record t { junctions = t.junctions ++ batch }, tt)
    else fail (raised "23503" none)

unfoldable pub insert_junction_batches : List (List Junction) → Exec CkptTables (Unit {0})
insert_junction_batches [] = pure tt
insert_junction_batches (batch ∷ batches) =
    statement (insert_junctions batch) >> insert_junction_batches batches

pub record Summary : Type 0 where
  pub sequence : ℕ
  pub manifest_hash : Bytes
  pub byte_length : ℕ
  pub chunk_count : ℕ
  pub label : Option Text
  pub created_at : ℕ

unfoldable pub to_summary : Manifest → ℕ → ℕ → Result Summary
to_summary m byte_length chunk_count = elim (coerce_to_safe_number m.seq) [
  | ok n ↦ ok (record {
    sequence = n;
    manifest_hash = m.manifest_hash;
    byte_length = byte_length;
    chunk_count = chunk_count;
    label = m.label;
    created_at = m.created_at;
  })
  | fail e ↦ fail e
]

-- `crypto` is not of this repository: the digest is a parameter.
module _ (sha256 : Bytes → Bytes) where
  -- The first half of saveImpl: the chunks with their hashes, and the hash of the hashes.
  unfoldable pub hashed : List Bytes → List (Bytes × Bytes)
  hashed chunks = map (λ c. (sha256 c, c)) chunks

  unfoldable pub manifest_hash_of : List Bytes → Bytes
  manifest_hash_of hashes = sha256 (concat hashes)

  -- runOnTx of saveImpl: `now` is now(), the start of the transaction.
  unfoldable pub run_on_tx :
      ℕ → WalletKey → Bytes → List Bytes → Option Text → Exec CkptTables Summary
  run_on_tx now key bytes chunks label = do
    chunk_batches ← lift (or_diverged (slices chunk_insert_max_rows (dedupe [] (hashed chunks))))
    insert_chunk_batches now chunk_batches
    seq ← statement (claim_seq key)
    m ← statement (insert_manifest now key seq (manifest_hash_of (map sha256 chunks)) label)
    junction_batches ←
        lift
          (or_diverged (slices junction_insert_max_rows (junction_rows m.id 0 (map sha256 chunks))))
    insert_junction_batches junction_batches
    lift (to_summary m (length bytes) (length chunks))

  -- saveImpl, on the caller's transaction or inside its own
  unfoldable pub save_impl :
      ℕ → WalletKey → Bytes → Option ℕ → Option Text → Exec CkptTables Summary
  save_impl now key bytes chunk_size label = do
    chunks ← lift (split_chunks bytes (chunk_size_or_default chunk_size))
    run_on_tx now key bytes chunks label
