-- ===== src/Checkpoint/Prune.antt =====
-- `prune` of src/postgres/checkpoint-store.ts, inside its transaction.
use umbra_db.Prelude.{
  ℕ, ◌+◌, ◌*◌, ◌-◌, Bool, false, not, ◌&&◌, List, [], ◌∷◌, Option, none, some, map, any, filter,
  length, drop, ltb, leb, ◌==◌, if◌then◌else◌, text_beq, text_eq,
}
use umbra_db.Table.{Table, delete_where}
use umbra_db.Errors.{Result, ok, fail}
use umbra_db.Exec.{Exec, pure, lift, ◌>>=◌, ◌>>◌, statement, query}
use umbra_db.Checkpoint.Tables.{
  Bytes, WalletKey, wallet_key_eq, ChunkRow, Manifest, Junction, CkptTables,
}
use umbra_db.Checkpoint.Save.{coerce_to_safe_number}
use umbra_db.Checkpoint.Load.{matches}

-- ORDER BY seq DESC
unfoldable pub insert_by_seq : Manifest → List Manifest → List Manifest
insert_by_seq m [] = m ∷ []
insert_by_seq m (n ∷ ns) = if leb n.seq m.seq then m ∷ n ∷ ns else n ∷ insert_by_seq m ns

unfoldable pub order_by_seq : List Manifest → List Manifest
order_by_seq [] = []
order_by_seq (m ∷ ms) = insert_by_seq m (order_by_seq ms)

-- SELECT seq ... ORDER BY seq DESC OFFSET retainCount - 1 LIMIT 1
abbrev pub head_seq : List Manifest → Option ℕ
head_seq [] = none
head_seq (m ∷ ms) = some m.seq

unfoldable pub cutoff : WalletKey → ℕ → List Manifest → Option ℕ
cutoff key retain ms = head_seq (drop (retain - 1) (order_by_seq (filter (matches key none) ms)))

-- m.seq < (the subquery), which is NULL and so not true if the subquery has no row
abbrev pub is_below : Option ℕ → ℕ → Bool
is_below none n = false
is_below (some c) n = ltb n c

-- the WHERE of the manifest DELETE
unfoldable pub is_pruned : WalletKey → Option ℕ → Manifest → Bool
is_pruned key c m = matches key none m && is_below c m.seq

-- Step 1 of pruneImpl: DELETE FROM ckpt_manifests, with ON DELETE CASCADE
unfoldable pub delete_manifests : WalletKey → ℕ → CkptTables → CkptTables
delete_manifests key retain t =
    let c = cutoff key retain t.manifests in
    let gone = filter (is_pruned key c) t.manifests in
    record t {
      manifests = filter (λ m. not (is_pruned key c m)) t.manifests;
      junctions =
          filter (λ j. not (any (λ (m : Manifest). m.id == j.manifest_id) gone)) t.junctions;
    }

-- the grace window of 15 minutes, in milliseconds
abbrev pub grace_ms : ℕ
grace_ms = 15 * 60 * 1000

-- c.created_at < now() - interval '15 minutes' AND NOT EXISTS (a junction row of the chunk)
unfoldable pub is_reclaimable : ℕ → List Junction → Bytes → ChunkRow → Bool
is_reclaimable now js h c =
    ltb (c.created_at + grace_ms) now && not (any (λ (j : Junction). text_beq j.chunk_hash h) js)

-- Step 2 of pruneImpl: DELETE FROM ckpt_chunks
unfoldable pub reclaim_chunks : ℕ → CkptTables → CkptTables
reclaim_chunks now t = record t { chunks = delete_where (is_reclaimable now t.junctions) t.chunks }

pub record PruneResult : Type 0 where
  pub pruned_sequences : List ℕ
  pub reclaimed_chunks : ℕ
  pub reclaimed_bytes : ℕ

-- rows.map(coerceToSafeNumber)
unfoldable pub coerce_all : List ℕ → Result (List ℕ)
coerce_all [] = ok []
coerce_all (n ∷ ns) = elim (coerce_to_safe_number n) [
  | ok a ↦ elim (coerce_all ns) [ ok rest ↦ ok (a ∷ rest) | fail e ↦ fail e ]
  | fail e ↦ fail e
]

-- reduce((sum, r) => sum + r.reclaimed_bytes, 0)
unfoldable pub total_bytes : Table Bytes ChunkRow → ℕ
total_bytes [] = 0
total_bytes ((h, c) ∷ rows) = length c.bytes + total_bytes rows

unfoldable pub prune_impl : ℕ → WalletKey → ℕ → Exec CkptTables PruneResult
prune_impl now key retain = do
  gone ← query (λ t. filter (is_pruned key (cutoff key retain t.manifests)) t.manifests)
  statement (λ t. ok (delete_manifests key retain t, tt))
  reclaimed ← query (λ t. filter (λ r. is_reclaimable now t.junctions r.0 r.1) t.chunks)
  statement (λ t. ok (reclaim_chunks now t, tt))
  pruned ← lift (coerce_all (map (λ (m : Manifest). m.seq) gone))
  pure (record {
    pruned_sequences = pruned;
    reclaimed_chunks = length reclaimed;
    reclaimed_bytes = total_bytes reclaimed;
  })
