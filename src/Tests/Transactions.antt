-- ===== src/Tests/Transactions.antt =====
-- The theorems on transactions, cursors and saveAndAdvance, at one connection that works.
use umbra_db.Prelude.{
  ℕ, suc, ◌≡◌, refl, Bool, true, false, [], ◌∷◌, none, some, Text, if◌then◌else◌,
}
use umbra_db.Json.{
  Json, bool, is_json_value, exceeds_max_depth, depth_loop, push_children, nodes,
  json_value_has_unsafe_text,
}
use umbra_db.Errors.{
  ok, fail, rollback, storage, callback_requested, transaction_rolled_back,
  transaction_handle_invalid,
}
use umbra_db.Exec.{Exec, run}
use umbra_db.Transaction.{
  Link, committed, World, resolve_transaction, register_transaction, with_handle, with_transaction,
  run_transaction, is_valid_timeout, begin, tx_callback, finish, resurface, catching,
  translate_transaction_error,
}
use umbra_db.Transaction.Atomic.{
  Atomic, IsTyped, with_transaction-Atomic, with_transaction-IsTyped, handle_ends,
}
use umbra_db.Store.{Store}
use umbra_db.Watermarks.{set, get, is_null}
use umbra_db.Watermarks.Cursor.{is_same_cursor, set-get}
use umbra_db.Checkpoint.Tables.{Bytes, WalletKey}
use umbra_db.Checkpoint.Prune.{prune_impl}
use umbra_db.Checkpoint.Calls.AllOrNothing.{AllOrNothing, prune-AllOrNothing}
use umbra_db.Checkpoint.Calls.{prune, SaveOptions, default_options}
use umbra_db.SaveAndAdvance.{Cursor, save_and_advance}
use umbra_db.SaveAndAdvance.Together.{Together, save_and_advance-Together}

abbrev good_link : Link
good_link = record { begins = none; sets_timeout = none; commits = committed; swallowed = none }

abbrev counter : World ℕ
counter = record { store = 7; base = 7; live = []; next_handle = 3 }

-- a callback that writes, and asks for a rollback or not
abbrev bump : ℕ → Exec (World ℕ) ℕ
bump h w = (record w { store = suc w.store }, ok h)

abbrev bump_and_undo : ℕ → Exec (World ℕ) ℕ
bump_and_undo h w = (record w { store = suc w.store }, fail (rollback callback_requested))

with_transaction-Atomic_example :
    Atomic committed 7
      (bump 3 (register_transaction counter))
      (with_transaction good_link default_options false bump counter).0
      (with_transaction good_link default_options false bump counter).1
with_transaction-Atomic_example =
    with_transaction-Atomic good_link default_options false bump counter refl

undone :
    (with_transaction good_link default_options false bump_and_undo counter).1
    ≡ fail (storage (transaction_rolled_back callback_requested))
unfolding run with_transaction run_transaction is_valid_timeout begin tx_callback with_handle finish
    resurface catching translate_transaction_error
undone = refl

with_transaction-IsTyped_example : IsTyped (storage (transaction_rolled_back callback_requested))
with_transaction-IsTyped_example =
    with_transaction-IsTyped good_link default_options false bump_and_undo counter
      (storage (transaction_rolled_back callback_requested)) undone

handle_ends_example :
    resolve_transaction 3 (with_handle bump counter).0
    ≡ ((with_handle bump counter).0, fail (storage (transaction_handle_invalid 3)))
handle_ends_example = handle_ends bump counter

abbrev accepts : Json → Bool
accepts v = true

abbrev as_stored : Json → Json
as_stored v = v

abbrev no_rows : Store
no_rows = record {
  kv = record { current = []; history = [] };
  ckpt = record { chunks = []; manifests = []; junctions = []; counters = []; next_id = 1 };
  marks = [];
  history = [];
}

abbrev no_store : World Store
no_store = record { store = no_rows; base = no_rows; live = []; next_handle = 0 }

abbrev blocks : Text
blocks = 98 ∷ []

true-IsJson : is_json_value accepts (bool true) ≡ true
unfolding is_json_value exceeds_max_depth depth_loop push_children nodes json_value_has_unsafe_text
true-IsJson = refl

true-IsPresent : is_null (bool true) ≡ false
unfolding is_null
true-IsPresent = refl

set-get_example :
    (w' : World Store) × (set accepts as_stored 5 none false blocks [] (bool true) no_store
      ≡ (w', ok tt))
    × (get none false blocks [] w' ≡ (
      w',
      (if is_same_cursor (blocks, []) (blocks, [])
          then ok (some (bool true))
          else (get none false blocks [] no_store).1),
    ))
set-get_example =
    set-get accepts as_stored 5 blocks [] blocks [] (bool true) no_store true-IsPresent true-IsJson

-- a digest of its own input
abbrev digest : Bytes → Bytes
digest b = b

abbrev alice : WalletKey
alice = record { w = 97 ∷ []; net = 49 ∷ [] }

abbrev tip : Cursor
tip = record { kind = blocks; key = []; value = bool true }

abbrev in_pairs : SaveOptions
in_pairs = record { chunk_size = some 2; label = none; tx = none; is_aborted = false }

save_and_advance-Together_example :
    Together digest accepts as_stored committed 5 alice
      (1 ∷ 2 ∷ 3 ∷ [])
      tip
      in_pairs
      no_rows
      (save_and_advance digest accepts as_stored 5 good_link alice
        (1 ∷ 2 ∷ 3 ∷ [])
        tip
        in_pairs
        no_store).0
      (save_and_advance digest accepts as_stored 5 good_link alice
        (1 ∷ 2 ∷ 3 ∷ [])
        tip
        in_pairs
        no_store).1
save_and_advance-Together_example =
    save_and_advance-Together digest accepts as_stored 5 good_link alice (1 ∷ 2 ∷ 3 ∷ []) tip
      in_pairs no_store refl

prune-AllOrNothing_example :
    AllOrNothing committed
      (prune_impl 9 alice 1)
      no_rows
      (prune 9 good_link alice 1 false no_store).0
      (prune 9 good_link alice 1 false no_store).1
prune-AllOrNothing_example = prune-AllOrNothing 9 good_link alice 1 false no_store refl
