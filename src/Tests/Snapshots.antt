-- ===== src/Tests/Snapshots.antt =====
-- The checkpoint theorems at two wallets with short payloads.
use umbra_db.Prelude.{
  ◌=?◌, ◌+◌, false, ℕ, zero, suc, ◌≡◌, ◌≤◌, ◌⊎◌, refl, ap, List, [], ◌∷◌, none, some, length, arith,
}
use umbra_db.Table.{lookup, put as put_row}
use umbra_db.Slices.{slices, concat}
use umbra_db.Slices.Laws.{Covers, slices_cover}
use umbra_db.Errors.{ok}
use umbra_db.Checkpoint.Tables.{wallet_key_beq, wallet_key_eq, Bytes, WalletKey, CkptTables}
use umbra_db.Checkpoint.Save.{Summary, max_safe_integer, save_impl, references_exist}
use umbra_db.Checkpoint.Load.{CheckpointRecord, load_impl}
use umbra_db.Checkpoint.Prune.{prune_impl}
use umbra_db.Checkpoint.Writes.{saved, next_seq, new_manifest}
use umbra_db.Checkpoint.Invariant.{Sound, saved-Sound}
use umbra_db.Checkpoint.Integrity.{Collision, load_integrity}
use umbra_db.Checkpoint.Roundtrip.{save_load, loads_saved, found}
use umbra_db.Checkpoint.Sequence.{from, save_all, save_all_gapless}
use umbra_db.Checkpoint.Survival.{prune-Sound, prune_keeps_newest}

-- a digest of the right length: the first bytes of the input, padded with zeros
abbrev pub pad : ℕ → Bytes → Bytes
pad zero b = []
pad (suc n) [] = 0 ∷ pad n []
pad (suc n) (x ∷ b) = x ∷ pad n b

pub length-pad : (n : ℕ) (b : Bytes) → length (pad n b) ≡ n
length-pad zero b = refl
length-pad (suc n) [] = ap suc (length-pad n [])
length-pad (suc n) (x ∷ b) = ap suc (length-pad n b)

abbrev pub digest : Bytes → Bytes
digest = pad 32

abbrev alice : WalletKey
alice = record { w = 97 ∷ []; net = 49 ∷ [] }

abbrev bob : WalletKey
bob = record { w = 98 ∷ []; net = 49 ∷ [] }

abbrev pub no_rows : CkptTables
no_rows = record { chunks = []; manifests = []; junctions = []; counters = []; next_id = 1 }

pub no_rows-Sound : Sound digest no_rows
unfolding references_exist
no_rows-Sound = record {
  addressed = tt;
  ids = tt;
  falling = tt;
  rows = tt;
  seqs = tt;
  references = refl;
}

-- a payload of three bytes in chunks of two bytes
abbrev payload : Bytes
payload = 7 ∷ 8 ∷ 9 ∷ []

abbrev parts : List Bytes
parts = (7 ∷ 8 ∷ []) ∷ (9 ∷ []) ∷ []

abbrev one_row : CkptTables
one_row = saved digest 100 alice parts none no_rows

one_row-Sound : Sound digest one_row
one_row-Sound = saved-Sound digest 100 alice parts none no_rows no_rows-Sound

abbrev three_rows : CkptTables
three_rows = saved digest 300 bob parts none (saved digest 200 alice ((1 ∷ []) ∷ []) none one_row)

three_rows-Sound : Sound digest three_rows
three_rows-Sound =
    saved-Sound digest 300 bob parts none _
      (saved-Sound digest 200 alice ((1 ∷ []) ∷ []) none one_row one_row-Sound)

slices_cover_example : (ys : List (List ℕ)) × (slices 2 payload ≡ some ys) × Covers 2 payload ys
slices_cover_example = slices_cover 2 payload (omega arith)

room : next_seq alice (no_rows).counters ≤ max_safe_integer
unfolding lookup
room = omega arith

save_load_example :
    (t' : CkptTables) × (s : Summary) × (r : CheckpointRecord) × (save_impl digest 100 alice payload
        (some 2)
        none
        no_rows
      ≡ (t', ok s))
    × (s.byte_length ≡ length payload)
    × (s.sequence ≡ next_seq alice (no_rows).counters)
    × (load_impl digest alice none t' ≡ ok r)
    × (((r.payload ≡ payload) × (r.summary.sequence ≡ s.sequence)) ⊎ Collision digest)
save_load_example =
    save_load digest (length-pad 32) 100 alice payload (some 2) none no_rows no_rows-Sound
      (omega arith) room

abbrev reloaded : CheckpointRecord
reloaded = (loads_saved digest 100 alice parts none no_rows no_rows-Sound room).0

load_integrity_example :
    ((reloaded.payload ≡ concat parts)
      × (reloaded.summary.byte_length ≡ length (concat parts))
      × (reloaded.summary.sequence ≡ (new_manifest digest 100 alice parts none no_rows).seq))
    ⊎ Collision digest
load_integrity_example =
    load_integrity digest (length-pad 32) alice none one_row
      (new_manifest digest 100 alice parts none no_rows) parts reloaded
      (found digest 100 alice parts none no_rows no_rows-Sound) refl
      (loads_saved digest 100 alice parts none no_rows no_rows-Sound room).1

prune-Sound_example : Sound digest (prune_impl 2000000 alice 1 three_rows).0
prune-Sound_example = prune-Sound digest 2000000 alice 1 three_rows three_rows-Sound

prune_keeps_newest_example :
    load_impl digest bob none (prune_impl 2000000 alice 1 three_rows).0
    ≡ load_impl digest bob none three_rows
prune_keeps_newest_example =
    prune_keeps_newest digest 2000000 alice bob 1 three_rows three_rows-Sound

bob-room : next_seq bob three_rows.counters + 2 ≤ max_safe_integer + 1
unfolding lookup put_row wallet_key_beq
bob-room = omega arith

bob-apart : (bob =? alice) ≡ false
unfolding wallet_key_beq
bob-apart = refl

save_all_gapless_example :
    (t' : CkptTables) × (save_all digest 400 bob (some 2) (payload ∷ (5 ∷ []) ∷ []) three_rows
      ≡ (t', ok (from (next_seq bob three_rows.counters) (payload ∷ (5 ∷ []) ∷ []))))
    × (next_seq alice t'.counters ≡ next_seq alice three_rows.counters)
    × Sound digest t'
save_all_gapless_example =
    save_all_gapless digest 400 bob (some 2) (payload ∷ (5 ∷ []) ∷ []) alice three_rows
      three_rows-Sound (omega arith) bob-room bob-apart
