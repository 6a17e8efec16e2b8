-- ===== src/SaveAndAdvance.antt =====
-- src/postgres/save-and-advance.ts: a checkpoint and the sync cursor that describes it, in one
-- transaction.
pub mod Together
use umbra_db.Prelude.{ℕ, Bool, false, Option, none, some, Text}
use umbra_db.Json.{Json}
use umbra_db.Exec.{Exec, pure, ◌>>=◌, ◌>>◌}
use umbra_db.Transaction.{World, Link, with_transaction}
use umbra_db.Store.{Store}
use umbra_db.Watermarks.{set}
use umbra_db.Checkpoint.Tables.{Bytes, WalletKey}
use umbra_db.Checkpoint.Save.{Summary}
use umbra_db.Checkpoint.Calls.{SaveOptions, default_options, save}

pub record Cursor : Type 0 where
  pub kind : Text
  pub key : Text
  pub value : Json

module _ (sha256 : Bytes → Bytes) (z_json : Json → Bool) (jsonb : Json → Json) where
  -- the callback of saveAndAdvance
  unfoldable pub save_then_set :
      ℕ → Link → WalletKey → Bytes → Cursor → SaveOptions → ℕ → Exec (World Store) Summary
  save_then_set now link key bytes cursor opts tx = do
    summary ← save sha256 now link key bytes (record opts { tx = some tx })
    set z_json jsonb now (some tx) opts.is_aborted cursor.kind cursor.key cursor.value
    pure summary

  unfoldable pub save_and_advance :
      ℕ → Link → WalletKey → Bytes → Cursor → SaveOptions → Exec (World Store) Summary
  save_and_advance now link key bytes cursor opts =
      with_transaction link default_options false (save_then_set now link key bytes cursor opts)
