-- ===== src/TxHistory/Storage/Order.antt =====
-- The rows that getAll selects, in their order
-- (src/postgres/transaction-history-storage.ts).
use umbra_db.Prelude.{
  ◌≡◌, refl, sym, ap, ◌∙◌, Bool, false, [], ◌∷◌, none, some, Text, text_beq, text_beq_iff, text_eq,
  pair_eq, All, Bool-cases, inl, inr, arith, if◌then◌else◌,
}
use umbra_db.Table.{lookup}
use umbra_db.Table.Distinct.{Distinct}
use umbra_db.TxHistory.Entry.{TxHistoryRow}
use umbra_db.TxHistory.Rows.{TxRows}
use umbra_db.TxHistory.Storage.{HistoryRows, rows_of, insert_by_hash, order_by_hash}

pub lookup-rows_of :
    (wallet hash : Text) (rows : TxRows)
    → lookup hash (rows_of wallet rows) ≡ lookup (wallet, hash) rows
unfolding lookup rows_of
lookup-rows_of wallet hash [] = refl
lookup-rows_of wallet hash ((k, row) ∷ rows) = ground (arith, lookup-rows_of wallet hash rows)

pub rows_of-Distinct :
    (wallet : Text) (rows : TxRows) → Distinct rows → Distinct (rows_of wallet rows)
unfolding rows_of
rows_of-Distinct wallet [] d = tt
rows_of-Distinct wallet ((k, row) ∷ rows) d = elim (Bool-cases (text_beq k.0 wallet)) [
  | inl mine ↦
      let same : (wallet, k.1) ≡ k = ap (λ t. (t, k.1)) (sym ((text_beq_iff k.0 wallet).0 mine)) in
      rw mine (
        lookup-rows_of wallet k.1 rows ∙ ap (λ j. lookup j rows) same ∙ d.0,
        rows_of-Distinct wallet rows d.1,
      )
  | inr other ↦ rw other (rows_of-Distinct wallet rows d.1)
]

pub rows_of-All :
    (P : Text × TxHistoryRow → Type 0) (wallet : Text) (rows : TxRows)
    → All (λ r. P (r.0.1, r.1)) rows
    → All P (rows_of wallet rows)
unfolding rows_of
rows_of-All P wallet [] h = tt
rows_of-All P wallet ((k, row) ∷ rows) h = elim (Bool-cases (text_beq k.0 wallet)) [
  | inl mine ↦ rw mine (h.0, rows_of-All P wallet rows h.1)
  | inr other ↦ rw other (rows_of-All P wallet rows h.1)
]

module _ (collates : Text → Text → Bool) where
  two_keys :
      (r s : Text × TxHistoryRow) (rs : HistoryRows)
      → Distinct (r ∷ s ∷ rs)
      → (text_beq s.0 r.0 ≡ false) × (lookup r.0 rs ≡ none) × (lookup s.0 (r ∷ rs) ≡ none)
  unfolding lookup
  two_keys r s rs d = elim (Bool-cases (text_beq s.0 r.0)) [
    | inl same ↦ absurd (ground (arith, same))
    | inr other ↦ (
      other,
      ground (arith, other),
      ground (arith, other, d.1.0, text_beq_iff r.0 s.0, text_beq_iff s.0 r.0),
    )
  ]

  lookup-insert_by_hash :
      (hash : Text) (r : Text × TxHistoryRow) (rs : HistoryRows)
      → Distinct (r ∷ rs)
      → lookup hash (insert_by_hash collates r rs) ≡ lookup hash (r ∷ rs)
  unfolding lookup insert_by_hash
  lookup-insert_by_hash hash r [] d = refl
  lookup-insert_by_hash hash r (s ∷ rs) d =
      let (apart, absent, absent') = two_keys r s rs d in
      ground (
        arith,
        lookup-insert_by_hash hash r rs (absent, d.1.1),
        text_beq_iff r.0 hash,
        text_beq_iff s.0 hash,
        text_beq_iff s.0 r.0,
        apart,
      )

  insert_by_hash-Distinct :
      (r : Text × TxHistoryRow) (rs : HistoryRows)
      → Distinct (r ∷ rs)
      → Distinct (insert_by_hash collates r rs)
  unfolding insert_by_hash
  insert_by_hash-Distinct r [] d = d
  insert_by_hash-Distinct r (s ∷ rs) d =
      let (apart, absent, absent') = two_keys r s rs d in
      elim (Bool-cases (collates r.0 s.0)) [
        | inl first ↦ rw first d
        | inr later ↦ rw later (
          lookup-insert_by_hash s.0 r rs (absent, d.1.1) ∙ absent',
          insert_by_hash-Distinct r rs (absent, d.1.1),
        )
      ]

  insert_by_hash-All :
      (P : Text × TxHistoryRow → Type 0) (r : Text × TxHistoryRow) (rs : HistoryRows)
      → P r
      → All P rs
      → All P (insert_by_hash collates r rs)
  unfolding insert_by_hash
  insert_by_hash-All P r [] p h = (p, tt)
  insert_by_hash-All P r (s ∷ rs) p h = elim (Bool-cases (collates r.0 s.0)) [
    | inl first ↦ rw first (p, h)
    | inr later ↦ rw later (h.0, insert_by_hash-All P r rs p h.1)
  ]

  pub order_by_hash-All :
      (P : Text × TxHistoryRow → Type 0) (rs : HistoryRows)
      → All P rs
      → All P (order_by_hash collates rs)
  unfolding order_by_hash
  order_by_hash-All P [] h = tt
  order_by_hash-All P (r ∷ rs) h =
      insert_by_hash-All P r (order_by_hash collates rs) h.0 (order_by_hash-All P rs h.1)

  -- ordering keeps the row of each hash
  pub lookup-order_by_hash :
      (rs : HistoryRows)
      → Distinct rs
      → Distinct (order_by_hash collates rs)
        × ((hash : Text) → lookup hash (order_by_hash collates rs) ≡ lookup hash rs)
  unfolding order_by_hash lookup
  lookup-order_by_hash [] d = (tt, λ hash. refl)
  lookup-order_by_hash (r ∷ rs) d =
      let (distinct, same) = lookup-order_by_hash rs d.1 in
      let d' : Distinct (r ∷ order_by_hash collates rs) = (same r.0 ∙ d.0, distinct) in
      (
        insert_by_hash-Distinct r (order_by_hash collates rs) d',
        λ hash.
            lookup-insert_by_hash hash r (order_by_hash collates rs) d'
            ∙ ap (λ o. if text_beq r.0 hash then some r.1 else o) (same hash),
      )
