-- ===== src/Tests/Listing.antt =====
-- A page of two checkpoints, of which one is older than the bound.
use umbra_db.Prelude.{◌⊎◌, ℕ, ◌≡◌, ◌≤◌, refl, true, All, List, [], ◌∷◌, none, some, length}
use umbra_db.Table.{lookup}
use umbra_db.Errors.{ok}
use umbra_db.Checkpoint.Tables.{WalletKey, wallet_key_beq, Manifest, CkptTables}
use umbra_db.Checkpoint.Save.{Summary, to_summary, coerce_to_safe_number}
use umbra_db.Checkpoint.Load.{matches}
use umbra_db.Checkpoint.Prune.{insert_by_seq, order_by_seq}
use umbra_db.Checkpoint.History.{
  HistoryOptions, is_before, page, aggregate, summary_of_row, summaries, history_impl,
}
use umbra_db.Checkpoint.History.Page.{Descending, Has, IsListed, IsLeftOut, history_pages}
use umbra_db.Checkpoint.History.Rows.{Among}

abbrev alice : WalletKey
alice = record { w = 97 ∷ []; net = 49 ∷ [] }

abbrev saved_as : ℕ → Manifest
saved_as n = record {
  id = n;
  owner = alice;
  seq = n;
  complete = true;
  manifest_hash = n ∷ [];
  label = none;
  created_at = n;
}

abbrev two_saves : CkptTables
two_saves = record {
  chunks = (4 ∷ [], record { bytes = 7 ∷ 8 ∷ []; created_at = 1 }) ∷ [];
  manifests = saved_as 2 ∷ saved_as 1 ∷ [];
  junctions = record { manifest_id = 1; position = 0; chunk_hash = 4 ∷ [] } ∷ [];
  counters = (alice, 3) ∷ [];
  next_id = 3;
}

abbrev older : List Summary
older =
    record {
      sequence = 1;
      manifest_hash = 1 ∷ [];
      byte_length = 2;
      chunk_count = 1;
      label = none;
      created_at = 1;
    }
    ∷ []

listed : history_impl alice (record { limit = 5; before = some 2 }) two_saves ≡ ok older
unfolding history_impl page summaries summary_of_row aggregate is_before order_by_seq insert_by_seq
    matches wallet_key_beq lookup to_summary coerce_to_safe_number
listed = refl

abbrev options : HistoryOptions
options = record { limit = 5; before = some 2 }

history_pages_example :
    (length older ≤ 5)
    × Descending older
    × All
        (λ (s : Summary).
          (m : Manifest) × (Among m two_saves.manifests × IsListed alice (some 2) m)
          × (summary_of_row two_saves m ≡ ok s))
        older
    × All (λ (m : Manifest). Has m.seq older ⊎ IsLeftOut alice options older m) two_saves.manifests
history_pages_example = history_pages alice options two_saves older listed
