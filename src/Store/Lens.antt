-- ===== src/Store/Lens.antt =====
-- What a call on one module's tables did to the database, if it returned.
use umbra_db.Prelude.{ℕ, ◌≡◌, sym, ap, any, ◌==◌, Bool-cases, inl, inr}
use umbra_db.Errors.{Result, ok}
use umbra_db.Exec.{Exec}
use umbra_db.Transaction.{World, resolve_transaction}
use umbra_db.Store.{Store, Marks, on_ckpt, on_marks, on_history}
use umbra_db.Exec.Keeps.{Keeps, keeps_rules}
use umbra_db.Checkpoint.Tables.{CkptTables}
use umbra_db.TxHistory.Rows.{TxRows}

pub resolved_same :
    (h : ℕ) (w w' : World Store) (u : Unit {0}) → resolve_transaction h w ≡ (w', ok u) → w' ≡ w
unfolding resolve_transaction
resolved_same h w w' u e = elim (Bool-cases (any (λ i. i == h) w.live)) [
  | inl there ↦ sym (ap (λ p. p.0) (rw there at e))
  | inr gone ↦ absurd (cc (rw gone at e))
]

pub on_ckpt_inv :
    {A : Type 0} (m : Exec CkptTables A) (w w' : World Store) (a : A)
    → on_ckpt m w ≡ (w', ok a)
    → (m w.store.ckpt ≡ (w'.store.ckpt, ok a))
      × (w'.store.kv ≡ w.store.kv)
      × (w'.store.marks ≡ w.store.marks)
      × (w'.store.history ≡ w.store.history)
unfolding on_ckpt
on_ckpt_inv m w w' a h = (
  ap (λ p. (p.0.store.ckpt, p.1)) h,
  ap (λ p. p.0.store.kv) (sym h),
  ap (λ p. p.0.store.marks) (sym h),
  ap (λ p. p.0.store.history) (sym h),
)

pub on_history_run :
    {A : Type 0} (m : Exec TxRows A) (w : World Store) {rows : TxRows} {r : Result A}
    → m w.store.history ≡ (rows, r)
    → on_history m w ≡ (record w { store = record w.store { history = rows } }, r)
unfolding on_history
on_history_run m w h = ap (λ p. (record w { store = record w.store { history = p.0 } }, p.1)) h

-- A call on the transaction's connection commits nothing.
abbrev pub HasBase : Store → World Store → Type 0
HasBase b w = w.base ≡ b

pub resolve_transaction-Keeps : (b : Store) (h : ℕ) → Keeps (HasBase b) (resolve_transaction h)
unfolding resolve_transaction
resolve_transaction-Keeps b h = record {
  keeps = λ w kept. elim (Bool-cases (any (λ i. i == h) w.live)) [
    | inl there ↦ rw there kept
    | inr gone ↦ rw gone kept
  ];
}

pub on_ckpt-Keeps : {A : Type 0} (b : Store) (m : Exec CkptTables A) → Keeps (HasBase b) (on_ckpt m)
unfolding on_ckpt
on_ckpt-Keeps b m = record { keeps = λ w kept. kept }

pub on_marks-Keeps : {A : Type 0} (b : Store) (m : Exec Marks A) → Keeps (HasBase b) (on_marks m)
unfolding on_marks
on_marks-Keeps b m = record { keeps = λ w kept. kept }

pub on_history-Keeps :
    {A : Type 0} (b : Store) (m : Exec TxRows A) → Keeps (HasBase b) (on_history m)
unfolding on_history
on_history-Keeps b m = record { keeps = λ w kept. kept }

pub ruleset base_rules =
    (keeps_rules, resolve_transaction-Keeps, on_ckpt-Keeps, on_marks-Keeps, on_history-Keeps)
