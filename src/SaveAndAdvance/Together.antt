-- ===== src/SaveAndAdvance/Together.antt =====
-- saveAndAdvance of src/postgres/save-and-advance.ts: the checkpoint against the cursor.
use umbra_db.Prelude.{
  ℕ, ◌≡◌, refl, ap, sym, subst, ◌∙◌, ◌⊎◌, inl, inr, Bool, false, none, some, Text, text_eq, pair_eq,
}
use umbra_db.Table.{lookup, lookup-put_self, put as put_row}
use umbra_db.Json.{Json}
use umbra_db.Errors.{Result, ok, fail}
use umbra_db.Exec.{run, lift, pure}
use umbra_db.Exec.Steps.{>>=_inv, require->>=_inv, lift_inv, lift->>=_ok, translating_inv}
use umbra_db.Transaction.{
  World, Link, CommitOutcome, resolve_transaction, register_transaction, with_transaction,
  on_connection,
}
use umbra_db.Transaction.Atomic.{
  AllOrNone, Atomic-AllOrNone, IsLost, IsClosed, IsSettled, with_transaction-Atomic,
}
use umbra_db.Exec.Keeps.{Keeps}
use umbra_db.Store.{Store, on_marks}
use umbra_db.Store.Lens.{resolved_same, on_ckpt_inv, HasBase, base_rules}
use umbra_db.Watermarks.{set, set_impl, upsert_mark, resolve}
use umbra_db.Checkpoint.Tables.{Bytes, WalletKey}
use umbra_db.Checkpoint.Save.{Summary, save_impl, run_on_tx, split_chunks, chunk_size_or_default}
use umbra_db.Checkpoint.Calls.{SaveOptions, default_options, save, in_transaction}
use umbra_db.SaveAndAdvance.{Cursor, save_then_set, save_and_advance}

module _ (sha256 : Bytes → Bytes) (z_json : Json → Bool) (jsonb : Json → Json) where
  -- the checkpoint is saved and the cursor set
  abbrev pub Advanced :
      ℕ → WalletKey → Bytes → Cursor → SaveOptions → Store → Store → Summary → Type 0
  Advanced now key bytes cursor opts before after s =
      (save_impl sha256 now key bytes opts.chunk_size opts.label before.ckpt ≡ (after.ckpt, ok s))
      × (lookup (cursor.kind, cursor.key) after.marks
          ≡ some (record { value = jsonb cursor.value; updated_at = now }))
      × (after.kv ≡ before.kv)

  mark_written :
      (now : ℕ) (kind key : Text) (v : Json) (w : World Store)
      → on_marks (set_impl z_json jsonb now kind key v) w ≡ (
        record w {
          store = record w.store {
            marks =
                put_row (kind, key) (record { value = jsonb v; updated_at = now }) w.store.marks;
          };
        },
        ok tt,
      )
  unfolding set_impl upsert_mark on_marks run
  mark_written now kind key v w = refl

  set_ok :
      (now : ℕ) (tx : ℕ) (is_aborted : Bool) (kind key : Text) (v : Json) (w w' : World Store)
      (u : Unit {0})
      → set z_json jsonb now (some tx) is_aborted kind key v w ≡ (w', ok u)
      → (w'.store.ckpt ≡ w.store.ckpt)
        × (lookup (kind, key) w'.store.marks ≡ some (record { value = jsonb v; updated_at = now }))
        × (w'.store.kv ≡ w.store.kv)
  unfolding set on_marks on_connection
  set_ok now tx is_aborted kind key v w w' u e =
      let resolved = >>=_inv (resolve (some tx)) _ w e in
      let same = resolved_same tx w resolved.0 resolved.1 resolved.2 in
      let checked = require->>=_inv _ _ _ resolved.0 resolved.3 in
      let valid = require->>=_inv _ _ _ resolved.0 checked.1 in
      let live = require->>=_inv _ _ _ resolved.0 valid.1 in
      let written = sym (mark_written now kind key v resolved.0) ∙ live.1 in
      (
        ap (λ p. p.0.store.ckpt) (sym written) ∙ ap (λ x. x.store.ckpt) same,
        ap (λ p. lookup (kind, key) p.0.store.marks) (sym written)
            ∙ lookup-put_self (kind, key) (record { value = jsonb v; updated_at = now })
                resolved.0.store.marks,
        ap (λ p. p.0.store.kv) (sym written) ∙ ap (λ x. x.store.kv) same,
      )

  save_ok :
      (now : ℕ) (link : Link) (key : WalletKey) (bytes : Bytes) (opts : SaveOptions) (tx : ℕ)
      (w w' : World Store) (s : Summary)
      → save sha256 now link key bytes (record opts { tx = some tx }) w ≡ (w', ok s)
      → (save_impl sha256 now key bytes opts.chunk_size opts.label w.store.ckpt
          ≡ (w'.store.ckpt, ok s))
        × (w'.store.kv ≡ w.store.kv)
  unfolding save in_transaction save_impl
  save_ok now link key bytes opts tx w w' s e =
      let ids = require->>=_inv _ _ _ w e in
      let valid = require->>=_inv _ _ _ w ids.1 in
      let live = require->>=_inv _ _ _ w valid.1 in
      let cut =
        >>=_inv (lift (split_chunks bytes (chunk_size_or_default opts.chunk_size))) _ w live.1 in
      let chunks = lift_inv _ w cut.2 in
      let resolved = >>=_inv (resolve_transaction tx) _ cut.0 cut.3 in
      let same = resolved_same tx cut.0 resolved.0 resolved.1 resolved.2 ∙ chunks.0 in
      let ran =
        on_ckpt_inv (run_on_tx sha256 now key bytes cut.1 opts.label) resolved.0 w' s
          (translating_inv none _ resolved.0 resolved.3) in
      (
        lift->>=_ok _ _ w.store.ckpt chunks.1
            ∙ ap (λ x. run_on_tx sha256 now key bytes cut.1 opts.label x.store.ckpt) (sym same)
            ∙ ran.0,
        ran.1 ∙ ap (λ x. x.store.kv) same,
      )

  save_then_set_ok :
      (now : ℕ) (link : Link) (key : WalletKey) (bytes : Bytes) (cursor : Cursor)
      (opts : SaveOptions) (tx : ℕ) (w w' : World Store) (s : Summary)
      → save_then_set sha256 z_json jsonb now link key bytes cursor opts tx w ≡ (w', ok s)
      → Advanced now key bytes cursor opts w.store w'.store s
  unfolding save_then_set
  save_then_set_ok now link key bytes cursor opts tx w w' s e =
      let saved = >>=_inv (save sha256 now link key bytes (record opts { tx = some tx })) _ w e in
      let moved =
        >>=_inv (set z_json jsonb now (some tx) opts.is_aborted cursor.kind cursor.key cursor.value)
          _ saved.0 saved.3 in
      let ended : ((moved.0 ≡ w') × (saved.1 ≡ s)) = unfold pure in (ap (λ p. p.0) moved.3, cc) in
      let first = save_ok now link key bytes opts tx w saved.0 saved.1 saved.2 in
      let second =
        set_ok now tx opts.is_aborted cursor.kind cursor.key cursor.value saved.0 moved.0 moved.1
          moved.2 in
      let ckpt : moved.0.store.ckpt ≡ w'.store.ckpt = ap (λ x. x.store.ckpt) ended.0 in
      (
        first.0 ∙ rw (← second.0, ckpt, ended.1) refl,
        rw ended.0 at second.1,
        ap (λ x. x.store.kv) (sym ended.0) ∙ second.2 ∙ first.1,
      )

  returned-Advanced :
      (now : ℕ) (link : Link) (key : WalletKey) (bytes : Bytes) (cursor : Cursor)
      (opts : SaveOptions) (tx : ℕ) (w1 : World Store) (before after : Store) (s : Summary)
      → w1.store ≡ before
      → (save_then_set sha256 z_json jsonb now link key bytes cursor opts tx w1).1 ≡ ok s
      → after ≡ (save_then_set sha256 z_json jsonb now link key bytes cursor opts tx w1).0.store
      → Advanced now key bytes cursor opts before after s
  returned-Advanced now link key bytes cursor opts tx w1 before after s same returned left =
      let inner = save_then_set sha256 z_json jsonb now link key bytes cursor opts tx w1 in
      let done =
        save_then_set_ok now link key bytes cursor opts tx w1 inner.0 s
          (ap (λ r. (inner.0, r)) returned) in
      subst (λ b. Advanced now key bytes cursor opts b after s) same
        (subst (λ x. Advanced now key bytes cursor opts w1.store x s) (sym left) done)

  save_then_set-Keeps :
      (b : Store) (now : ℕ) (link : Link) (key : WalletKey) (bytes : Bytes) (cursor : Cursor)
      (opts : SaveOptions) (tx : ℕ)
      → Keeps (HasBase b) (save_then_set sha256 z_json jsonb now link key bytes cursor opts tx)
  unfolding save_then_set save in_transaction set on_connection
  save_then_set-Keeps b now link key bytes cursor opts tx = search base_rules depth 16

  -- What a call of saveAndAdvance may have done to the database: `before` is the committed data
  -- before it.
  abbrev pub Together :
      CommitOutcome
      → ℕ
      → WalletKey
      → Bytes
      → Cursor
      → SaveOptions
      → Store
      → World Store
      → Result Summary
      → Type 0
  Together commit now key bytes cursor opts before w' (ok s) =
      (w'.store ≡ w'.base) × Advanced now key bytes cursor opts before w'.base s
  Together commit now key bytes cursor opts before w' (fail e) =
      IsSettled w' before
      ⊎ (IsLost commit
          × ((s : Summary) × (w'.store ≡ w'.base)
              × Advanced now key bytes cursor opts before w'.base s))

  outcome-Together :
      (now : ℕ) (link : Link) (key : WalletKey) (bytes : Bytes) (cursor : Cursor)
      (opts : SaveOptions) (tx : ℕ) (before : Store) (w1 : World Store)
      (out : World Store × Result Summary)
      → w1.store ≡ before
      → AllOrNone link.commits before
          (save_then_set sha256 z_json jsonb now link key bytes cursor opts tx w1)
          out.0
          out.1
      → Together link.commits now key bytes cursor opts before out.0 out.1
  outcome-Together now link key bytes cursor opts tx before w1 (w', ok s) same
        (returned, (seen, kept)) =
      (
        seen ∙ sym kept,
        returned-Advanced now link key bytes cursor opts tx w1 before w'.base s same returned kept,
      )
  outcome-Together now link key bytes cursor opts tx before w1 (w', fail e) same (inl unchanged) =
      inl unchanged
  outcome-Together now link key bytes cursor opts tx before w1 (w', fail e) same
        (inr (lost, (s, returned, (seen, kept)))) =
      inr (
        lost,
        (
          s,
          seen ∙ sym kept,
          returned-Advanced now link key bytes cursor opts tx w1 before w'.base s same returned
              kept,
        ),
      )

  -- Where no transaction is open, whatever the arguments, the connection and the database: if
  -- saveAndAdvance returns, the checkpoint is saved as `save` saves it, the cursor has its new
  -- value, and both are committed; if it throws, the committed data is what it was, so neither is
  -- there, unless the answer to the one COMMIT was lost, and then both are there. The key-value
  -- tables are untouched, and no transaction is open afterwards.
  pub save_and_advance-Together :
      (now : ℕ) (link : Link) (key : WalletKey) (bytes : Bytes) (cursor : Cursor)
      (opts : SaveOptions) (w : World Store)
      → IsClosed w
      → Together link.commits now key bytes cursor opts w.base
          (save_and_advance sha256 z_json jsonb now link key bytes cursor opts w).0
          (save_and_advance sha256 z_json jsonb now link key bytes cursor opts w).1
  unfolding save_and_advance register_transaction
  save_and_advance-Together now link key bytes cursor opts w closed =
      let fn = save_then_set sha256 z_json jsonb now link key bytes cursor opts in
      let w1 = register_transaction w in
      let out = with_transaction link default_options false fn w in
      outcome-Together now link key bytes cursor opts w.next_handle w.base w1 out closed (
        Atomic-AllOrNone link.commits w.base (fn w.next_handle w1) out.0 out.1
          ((save_then_set-Keeps w.base now link key bytes cursor opts w.next_handle).keeps w1 refl)
          (with_transaction-Atomic link default_options false fn w closed))
