-- ===== src/Checkpoint/Roundtrip.antt =====
-- `save` and then `load` of src/postgres/checkpoint-store.ts.
use umbra_db.Prelude.{
  ℕ, ◌≡◌, ◌≤◌, ◌<◌, refl, ◌∙◌, List, Option, none, some, map, filter, length, text_eq, inl, inr,
  ◌⊎◌, Text,
}
use umbra_db.Table.{All-lookup}
use umbra_db.Slices.{concat}
use umbra_db.Slices.Laws.{slices_cover}
use umbra_db.Errors.{ok}
use umbra_db.Checkpoint.Tables.{Bytes, WalletKey, wallet_key_beq_iff, wallet_key_eq, CkptTables}
use umbra_db.Checkpoint.Save.{save_impl, chunk_size_or_default, max_safe_integer, Summary}
use umbra_db.Checkpoint.Load.{CheckpointRecord, load_impl, latest, matches}
use umbra_db.Checkpoint.Writes.{
  next_seq, new_manifest, saved, new_summary, references_saved, save_impl_lem,
}
use umbra_db.Checkpoint.Invariant.{Addressed, Sound, saved-Sound}
use umbra_db.Checkpoint.Integrity.{Collision, load_integrity}
use umbra_db.Checkpoint.ReadBack.{assembles, selected, newest}

-- the manifest that a load without a sequence finds after the save
pub found :
    (sha256 : Bytes → Bytes) (now : ℕ) (key : WalletKey) (chunks : List Bytes) (label : Option Text)
    (t : CkptTables)
    → Sound sha256 t
    → latest (filter (matches key none) (saved sha256 now key chunks label t).manifests)
      ≡ some (new_manifest sha256 now key chunks label t)
unfolding latest matches
found sha256 now key chunks label t s =
    let me = (wallet_key_beq_iff key key).1 refl in
    let m = new_manifest sha256 now key chunks label t in
    rw (matches, me, newest key t.counters m t.manifests refl s.seqs) refl

pub loads_saved :
    (sha256 : Bytes → Bytes) (now : ℕ) (key : WalletKey) (chunks : List Bytes) (label : Option Text)
    (t : CkptTables)
    → Sound sha256 t
    → next_seq key t.counters ≤ max_safe_integer
    → (r : CheckpointRecord) × (load_impl sha256 key none (saved sha256 now key chunks label t)
        ≡ ok r)
unfolding load_impl
loads_saved sha256 now key chunks label t s room =
    let m = new_manifest sha256 now key chunks label t in
    let after = saved-Sound sha256 now key chunks label t s in
    let a =
      assembles sha256 (saved sha256 now key chunks label t).chunks m t.next_id (map sha256 chunks)
        room refl (references_saved sha256 now chunks t)
        (λ h c e.
          All-lookup (Addressed sha256) h (saved sha256 now key chunks label t).chunks c
            after.addressed e) in
    (
      a.0,
      rw
          (
            load_impl,
            found sha256 now key chunks label t s,
            selected sha256 now key chunks label t s,
            a.1,
          )
          refl,
    )

-- From well-formed tables, with a positive chunk size and a counter of the wallet that is at most
-- Number.MAX_SAFE_INTEGER, and a digest of 32 bytes: the save returns a summary with the length of
-- the payload and the next sequence of the wallet, and a load of the wallet's newest checkpoint
-- from the tables that it leaves returns. What the load returns has exactly the payload that was
-- saved and its sequence, or two different inputs of one digest are at hand.
pub save_load :
    (sha256 : Bytes → Bytes)
    → ((b : Bytes) → length (sha256 b) ≡ 32)
    → (now : ℕ) (key : WalletKey) (bytes : Bytes) (chunk_size : Option ℕ) (label : Option Text)
    → (t : CkptTables) → Sound sha256 t
    → 0 < chunk_size_or_default chunk_size
    → next_seq key t.counters ≤ max_safe_integer
    → (t' : CkptTables) × (s : Summary) × (r : CheckpointRecord) × (save_impl sha256 now key bytes
          chunk_size label t
        ≡ (t', ok s))
      × (s.byte_length ≡ length bytes)
      × (s.sequence ≡ next_seq key t.counters)
      × (load_impl sha256 key none t' ≡ ok r)
      × (((r.payload ≡ bytes) × (r.summary.sequence ≡ s.sequence)) ⊎ Collision sha256)
save_load sha256 n now key bytes chunk_size label t s size room =
    let cut = slices_cover (chunk_size_or_default chunk_size) bytes size in
    let chunks = cut.0 in
    let whole : concat chunks ≡ bytes = cut.2.0 in
    let t' = saved sha256 now key chunks label t in
    let l = loads_saved sha256 now key chunks label t s room in
    (
      t',
      new_summary sha256 now key bytes chunks label t,
      l.0,
      save_impl_lem sha256 now key bytes chunk_size label t room chunks cut.1,
      refl,
      refl,
      l.1,
      elim (load_integrity sha256 n key none t' (new_manifest sha256 now key chunks label t) chunks
          l.0 (found sha256 now key chunks label t s) refl l.1) [
            | inl same ↦ inl (same.0 ∙ whole, same.2)
            | inr c ↦ inr c
          ],
    )
