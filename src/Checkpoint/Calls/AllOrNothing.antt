-- ===== src/Checkpoint/Calls/AllOrNothing.antt =====
-- The public calls of the checkpoint store against the statements inside their transactions.
use umbra_db.Prelude.{ℕ, ◌≡◌, refl, ap, sym, subst, ◌∙◌, ◌⊎◌, inl, inr, Bool, true, false, none}
use umbra_db.Errors.{Thrown, Result, ok, fail}
use umbra_db.Exec.{Exec, run, ◌>>=◌, ◌>>◌, translating, require}
use umbra_db.Exec.Steps.{>>=_inv}
use umbra_db.Transaction.{
  World, Link, CommitOutcome, TransactionOptions, resolve_transaction, register_transaction,
  with_transaction,
}
use umbra_db.Transaction.Atomic.{
  AllOrNone, Atomic-AllOrNone, IsLost, IsClosed, IsSettled, with_transaction-Atomic,
}
use umbra_db.Exec.Keeps.{Keeps}
use umbra_db.Store.{Store, on_ckpt}
use umbra_db.Store.Lens.{resolved_same, on_ckpt_inv, HasBase, base_rules}
use umbra_db.Checkpoint.Tables.{WalletKey, CkptTables}
use umbra_db.Checkpoint.Prune.{prune_impl}
use umbra_db.Checkpoint.Calls.{default_options, in_transaction, prune}

module _ {A : Type 0} where
  -- the body ran on the checkpoint tables, and touched nothing else
  abbrev pub Ran : Exec CkptTables A → Store → Store → A → Type 0
  Ran body before after a =
      (body before.ckpt ≡ (after.ckpt, ok a))
      × (after.kv ≡ before.kv)
      × (after.marks ≡ before.marks)
      × (after.history ≡ before.history)

  -- What a call with a transaction of its own may have done to the database.
  abbrev pub AllOrNothing :
      CommitOutcome → Exec CkptTables A → Store → World Store → Result A → Type 0
  AllOrNothing commit body before w' (ok a) = (w'.store ≡ w'.base) × Ran body before w'.base a
  AllOrNothing commit body before w' (fail e) =
      IsSettled w' before
      ⊎ (IsLost commit × ((a : A) × (w'.store ≡ w'.base) × Ran body before w'.base a))

  module _ (link : Link) (opts : TransactionOptions) (body : Exec CkptTables A) where
    abbrev callback : ℕ → Exec (World Store) A
    callback tx = resolve_transaction tx >>= λ _. on_ckpt body

    callback-Ran :
        (h : ℕ) (w : World Store) (before after : Store) (a : A)
        → w.store ≡ before
        → (callback h w).1 ≡ ok a
        → after ≡ (callback h w).0.store
        → Ran body before after a
    callback-Ran h w before after a same returned left =
        let out = (callback h w).0 in
        let i =
          >>=_inv (resolve_transaction h) (λ _. on_ckpt body) w (ap (λ r. (out, r)) returned) in
        let ran = on_ckpt_inv body i.0 out a i.3 in
        let store : i.0.store ≡ before = ap (λ x. x.store) (resolved_same h w i.0 i.1 i.2) ∙ same in
        subst (λ b. Ran body b after a) store (subst (λ x. Ran body i.0.store x a) (sym left) ran)

    callback-HasBase :
        (h : ℕ) (w : World Store) (before : Store)
        → w.base ≡ before
        → (callback h w).0.base ≡ before
    callback-HasBase h w before same = (callback-Keeps before h).keeps w same
      where
        callback-Keeps : (b : Store) (h : ℕ) → Keeps (HasBase b) (callback h)
        callback-Keeps b h = search base_rules

    settled-Ran :
        (h : ℕ) (w1 w' : World Store) (before : Store) (a : A)
        → w1.store ≡ before
        → (callback h w1).1 ≡ ok a
        → IsSettled w' (callback h w1).0.store
        → (w'.store ≡ w'.base) × Ran body before w'.base a
    settled-Ran h w1 w' before a same returned (seen, kept) =
        (seen ∙ sym kept, callback-Ran h w1 before w'.base a same returned kept)

    outcome-AllOrNothing :
        (h : ℕ) (w1 : World Store) (before : Store) (out : World Store × Result A)
        → w1.store ≡ before
        → AllOrNone link.commits before (callback h w1) out.0 out.1
        → AllOrNothing link.commits body before
            (translating none (λ (_ : World Store). out) out.0).0
            (translating none (λ (_ : World Store). out) out.0).1
    unfolding translating
    outcome-AllOrNothing h w1 before (w', ok a) same (returned, settled) =
        settled-Ran h w1 w' before a same returned settled
    outcome-AllOrNothing h w1 before (w', fail e) same (inl unchanged) = inl unchanged
    outcome-AllOrNothing h w1 before (w', fail e) same (inr (lost, (a, returned, settled))) =
        let done = settled-Ran h w1 w' before a same returned settled in
        inr (lost, (a, done.0, done.1))

    in_transaction-AllOrNothing :
        (w : World Store)
        → IsClosed w
        → AllOrNothing link.commits body w.base
            (in_transaction link none opts body w).0
            (in_transaction link none opts body w).1
    unfolding in_transaction translating register_transaction
    in_transaction-AllOrNothing w closed =
        let w1 = register_transaction w in
        let out = with_transaction link opts false callback w in
        outcome-AllOrNothing w.next_handle w1 w.base out closed (
          Atomic-AllOrNone link.commits w.base (callback w.next_handle w1) out.0 out.1
            (callback-HasBase w.next_handle w1 w.base refl)
            (with_transaction-Atomic link opts false callback w closed))

    require-AllOrNothing :
        (b : Bool) (x : Thrown) (m : Exec (World Store) A) (w : World Store)
        → IsClosed w
        → AllOrNothing link.commits body w.base (m w).0 (m w).1
        → AllOrNothing link.commits body w.base ((require b x >> m) w).0 ((require b x >> m) w).1
    unfolding run
    require-AllOrNothing true x m w closed h = h
    require-AllOrNothing false x m w closed h = inl (closed, refl)

-- Where no transaction is open, whatever the arguments, the connection and the database: a `prune`
-- that returns has done to the checkpoint tables what its two DELETE statements do, touched no
-- other table, and committed it; one that throws has left the database as it was, or, if the answer
-- to the COMMIT was lost, pruned it. No transaction is open afterwards.
pub prune-AllOrNothing :
    (now : ℕ) (link : Link) (key : WalletKey) (retain : ℕ) (is_aborted : Bool) (w : World Store)
    → IsClosed w
    → AllOrNothing link.commits
        (prune_impl now key retain)
        w.base
        (prune now link key retain is_aborted w).0
        (prune now link key retain is_aborted w).1
unfolding prune
prune-AllOrNothing now link key retain is_aborted w closed =
    let body = prune_impl now key retain in
    require-AllOrNothing link default_options body _ _ _ w closed (
      require-AllOrNothing link default_options body _ _ _ w closed (
        require-AllOrNothing link default_options body _ _ _ w closed
          (in_transaction-AllOrNothing link default_options body w closed)))
