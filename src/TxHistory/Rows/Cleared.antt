-- ===== src/TxHistory/Rows/Cleared.antt =====
-- The table after the upsert and the pending-clear of writeRows
-- (src/postgres/transaction-history-storage.ts).
use umbra_db.Prelude.{
  ℕ, ◌≡◌, refl, ap, ◌∙◌, subst, inl, inr, Bool, true, false, not, ◌&&◌, List, [], ◌∷◌, Option, none,
  some, Text, text_beq, text_beq_iff, text_eq, pair_eq, pair_beq_iff, =?_refl, ◌=?◌, if◌then◌else◌,
  Bool-cases, all, any, leb, length, units, arith,
}
use umbra_db.Table.{lookup, put, delete_where, lookup-put}
use umbra_db.Table.Distinct.{
  Distinct, spared, lookup-delete_where, Distinct-put, Distinct-delete_where,
}
use umbra_db.Json.{Json}
use umbra_db.TxHistory.Entry.{
  EntryLifecycle, pending, finalized, rejected, TransactionHistoryEntry, TxHistoryRow, row_of,
  lifecycle_text,
}
use umbra_db.TxHistory.Rows.{TxRows, is_contained, is_superseded, is_settled, clears}

-- the table after the upsert and the pending-clear
abbrev pub stored_rows : ℕ → Text → TransactionHistoryEntry → Json → TxRows → TxRows
stored_rows now wallet e entry rows =
    let rows' = put (wallet, e.hash) (row_of now e entry) rows in
    if clears e then delete_where (is_superseded wallet e) rows' else rows'

abbrev is_pending : EntryLifecycle → Bool
is_pending pending = true
is_pending finalized = false
is_pending rejected = false

abbrev is_empty : List Text → Bool
is_empty [] = true
is_empty (i ∷ is) = false

-- A write of a settled result with identifiers takes away a pending row of the same wallet whose
-- identifiers are some of the result's, at least one.
abbrev pub is_cleared : Text → TransactionHistoryEntry → Text × Text → TxHistoryRow → Bool
is_cleared wallet e k row =
    (not (is_pending e.lifecycle) && not (is_empty e.identifiers))
    && (text_beq k.0 wallet
        && (text_beq row.lifecycle (units "pending")
            && (not (is_empty row.identifiers)
                && all (λ i. any (text_beq i) e.identifiers) row.identifiers)))

-- the row under a key after a write
abbrev pub row_after :
    ℕ → Text → TransactionHistoryEntry → Json → TxRows → Text × Text → Option TxHistoryRow
row_after now wallet e entry rows k =
    if ◌=?◌ {Key = Text × Text} (wallet, e.hash) k
    then some (record {
      entry = entry;
      identifiers = e.identifiers;
      lifecycle = lifecycle_text e.lifecycle;
      updated_at = now;
    })
    else spared (is_cleared wallet e) k (lookup k rows)

-- the written row is not superseded by itself
own_row_spared :
    (wallet : Text) (e : TransactionHistoryEntry) (row : TxHistoryRow)
    → is_superseded wallet e (wallet, e.hash) row ≡ false
unfolding is_superseded
own_row_spared wallet e row =
    rw ((text_beq_iff wallet wallet).1 refl, (text_beq_iff e.hash e.hash).1 refl) refl

pub stored_rows-Distinct :
    (now : ℕ) (wallet : Text) (e : TransactionHistoryEntry) (entry : Json) (rows : TxRows)
    → Distinct rows
    → Distinct (stored_rows now wallet e entry rows)
stored_rows-Distinct now wallet e entry rows d =
    let d' = Distinct-put (wallet, e.hash) (row_of now e entry) rows d in
    elim (Bool-cases (clears e)) [
      | inl clearing ↦ rw clearing (Distinct-delete_where (is_superseded wallet e) _ d')
      | inr keeping ↦ rw keeping d'
    ]

settled_pending : (l : EntryLifecycle) → is_settled l ≡ not (is_pending l)
unfolding is_settled
settled_pending pending = refl
settled_pending finalized = refl
settled_pending rejected = refl

nonempty : (is : List Text) → leb 1 (length is) ≡ not (is_empty is)
nonempty [] = refl
nonempty (i ∷ is) = ground arith

clears_iff :
    (e : TransactionHistoryEntry)
    → clears e ≡ (not (is_pending e.lifecycle) && not (is_empty e.identifiers))
unfolding clears
clears_iff e = rw (settled_pending e.lifecycle, nonempty e.identifiers) refl

-- the pending-clear takes the rows that the description says, under any other key
cleared_same :
    (wallet : Text) (e : TransactionHistoryEntry) (k : Text × Text) (row : TxHistoryRow)
    → (◌=?◌ {Key = Text × Text} (wallet, e.hash) k) ≡ false
    → (clears e && is_superseded wallet e k row) ≡ is_cleared wallet e k row
unfolding is_superseded is_contained
cleared_same wallet e k row other =
    rw (clears_iff e, nonempty row.identifiers)
      (ground (
        arith,
        other,
        text_beq_iff k.0 wallet,
        text_beq_iff wallet k.0,
        text_beq_iff k.1 e.hash,
        text_beq_iff e.hash k.1,
      ))

-- under the written key the row stays, and under any other the description holds
after_clearing :
    (wallet : Text) (e : TransactionHistoryEntry) (row : TxHistoryRow) (k : Text × Text)
    (o : Option TxHistoryRow)
    → clears e ≡ true
    → (same : Bool) → (◌=?◌ {Key = Text × Text} (wallet, e.hash) k) ≡ same
    → spared (is_superseded wallet e) k (if same then some row else o)
      ≡ (if same then some row else spared (is_cleared wallet e) k o)
after_clearing wallet e row k o clearing true same =
    let key = (pair_beq_iff (wallet, e.hash) k).0 same in
    rw (subst (λ j. is_superseded wallet e j row ≡ false) key (own_row_spared wallet e row)) refl
after_clearing wallet e row k none clearing false other = refl
after_clearing wallet e row k (some v) clearing false other =
    rw (← cleared_same wallet e k v other, clearing) refl

after_keeping :
    (wallet : Text) (e : TransactionHistoryEntry) (row : TxHistoryRow) (k : Text × Text)
    (o : Option TxHistoryRow)
    → clears e ≡ false
    → (same : Bool) → (◌=?◌ {Key = Text × Text} (wallet, e.hash) k) ≡ same
    → (if same then some row else o) ≡ (if same then some row else spared (is_cleared wallet e) k o)
after_keeping wallet e row k o keeping true same = refl
after_keeping wallet e row k none keeping false other = refl
after_keeping wallet e row k (some v) keeping false other =
    rw (← cleared_same wallet e k v other, keeping) refl

pub lookup-stored_rows :
    (now : ℕ) (wallet : Text) (e : TransactionHistoryEntry) (entry : Json) (rows : TxRows)
    (k : Text × Text)
    → Distinct rows
    → lookup k (stored_rows now wallet e entry rows) ≡ row_after now wallet e entry rows k
unfolding row_of
lookup-stored_rows now wallet e entry rows k d =
    let row = row_of now e entry in
    let d' = Distinct-put (wallet, e.hash) row rows d in
    let put_row = lookup-put (wallet, e.hash) k row rows in
    elim (Bool-cases (clears e)) [
      | inl clearing ↦ rw clearing (
          lookup-delete_where (is_superseded wallet e) k _ d'
          ∙ ap (spared (is_superseded wallet e) k) put_row
          ∙ after_clearing wallet e row k (lookup k rows) clearing _ refl)
      | inr keeping ↦
          rw keeping (put_row ∙ after_keeping wallet e row k (lookup k rows) keeping _ refl)
    ]

-- the written row
pub lookup-stored_rows_own :
    (now : ℕ) (wallet : Text) (e : TransactionHistoryEntry) (entry : Json) (rows : TxRows)
    → Distinct rows
    → lookup (wallet, e.hash) (stored_rows now wallet e entry rows) ≡ some (row_of now e entry)
unfolding row_of
lookup-stored_rows_own now wallet e entry rows d =
    let k : Text × Text = (wallet, e.hash) in
    lookup-stored_rows now wallet e entry rows k d
    ∙ ap
        (λ b.
          if b then some (row_of now e entry) else spared (is_cleared wallet e) k (lookup k rows))
        (=?_refl {A = Text × Text} k)
