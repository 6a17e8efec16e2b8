-- ===== src/TemporalKv/Reads.antt =====
-- The queries of src/postgres/temporal-kv.ts, and the log of a key.
use umbra_db.Prelude.{
  ℕ, ◌≤◌, ◌<◌, ◌≡◌, refl, Bool, List, [], ◌∷◌, Option, none, some, map, if◌then◌else◌, All, arith,
  Bool-cases, Option-cases, inl, inr, ◌&&◌, ◌==◌, leb, ltb,
}
use umbra_db.Table.{lookup}
use umbra_db.TemporalKv.{KvRow, of_history, find_history, find_current, select_version, select_at}
use umbra_db.KvTables.{KvKey, kv_key_eq, kv_key_beq, HistoryRow, KvTables}
use umbra_db.TemporalKv.Timeline.{WellFormed, Chain, Chain-ended, Chain-older, log_of, rows_of}

-- the first entry of a log that satisfies a test
abbrev pub first : (KvRow → Bool) → List KvRow → Option KvRow
first p [] = none
first p (r ∷ rs) = let rest = first p rs in if p r then some r else rest

find_history-first :
    (p : KvRow → Bool) (k : KvKey) (hs : List HistoryRow)
    → find_history (λ h. p (of_history h)) k hs ≡ first p (map of_history (rows_of k hs))
unfolding find_history
find_history-first p k [] = refl
find_history-first p k (h ∷ hs) = ground (arith, find_history-first p k hs)

-- no older row has the version of the current one
no_version :
    (n v : ℕ) (k : KvKey) (hs : List HistoryRow)
    → v ≤ n
    → All (λ h. h.version < v) (rows_of k hs)
    → find_history (λ h. h.version == n) k hs ≡ none
unfolding find_history
no_version n v k [] le w = refl
no_version n v k (h ∷ hs) le w = elim (Bool-cases (kv_key_beq h.hkey k)) [
  | inl same ↦
      let w' : (h.version < v) × All (λ g. g.version < v) (rows_of k hs) = rw same at w in
      ground (arith, no_version n v k hs le w'.1)
  | inr other ↦ ground (arith, no_version n v k hs le (rw other at w))
]

-- getAt by version finds exactly the log's entry of that version.
pub select_version-log :
    (t : KvTables) (k : KvKey) (n : ℕ)
    → WellFormed t
    → select_version k n t ≡ first (λ r. r.version == n) (log_of k t)
unfolding select_version log_of find_current
select_version-log t k n w = elim (Option-cases (lookup k t.current)) [
  | inl absent ↦
      ground (arith, find_history-first (λ r. r.version == n) k t.history, w.fresh k absent)
  | inr (r, found) ↦ elim (Bool-cases (r.version == n)) [
    | inl same ↦ ground (
      arith,
      no_version n r.version k t.history (ground arith)
          (Chain-older r.version r.updated_at (rows_of k t.history) (w.chained k r found)),
    )
    | inr other ↦ ground (arith, find_history-first (λ r. r.version == n) k t.history)
  ]
]

-- no row ends after the current one starts
no_interval :
    (ms from : ℕ) (k : KvKey) (hs : List HistoryRow)
    → from ≤ ms
    → All (λ h. h.valid_to ≤ from) (rows_of k hs)
    → find_history (λ h. leb h.valid_from ms && ltb ms h.valid_to) k hs ≡ none
unfolding find_history
no_interval ms from k [] le w = refl
no_interval ms from k (h ∷ hs) le w = elim (Bool-cases (kv_key_beq h.hkey k)) [
  | inl same ↦
      let w' : (h.valid_to ≤ from) × All (λ g. g.valid_to ≤ from) (rows_of k hs) = rw same at w in
      ground (arith, no_interval ms from k hs le w'.1)
  | inr other ↦ ground (arith, no_interval ms from k hs le (rw other at w))
]

-- before the current row, the interval that holds an instant starts last
interval-first :
    (ms v from : ℕ) (k : KvKey) (hs : List HistoryRow)
    → ms < from
    → Chain v from (rows_of k hs)
    → find_history (λ h. leb h.valid_from ms && ltb ms h.valid_to) k hs
      ≡ first (λ r. leb r.written_at ms) (map of_history (rows_of k hs))
unfolding find_history
interval-first ms v from k [] lt c = refl
interval-first ms v from k (h ∷ hs) lt c = elim (Bool-cases (kv_key_beq h.hkey k)) [
  | inl same ↦
      let c' : Chain v from (h ∷ rows_of k hs) = rw same at c in
      elim (Bool-cases (leb h.valid_from ms)) [
        | inl started ↦ ground (arith, c'.1)
        | inr later ↦
            ground (arith, c'.1, interval-first ms h.version h.valid_from k hs (ground arith) c'.3)
      ]
  | inr other ↦ ground (arith, interval-first ms v from k hs lt (rw other at c))
]

-- getAt by instant finds the log's latest entry that was written at that instant or before it.
pub select_at-log :
    (t : KvTables) (k : KvKey) (ms : ℕ)
    → WellFormed t
    → select_at k ms t ≡ first (λ r. leb r.written_at ms) (log_of k t)
unfolding select_at log_of find_current
select_at-log t k ms w = elim (Option-cases (lookup k t.current)) [
  | inl absent ↦
      ground (arith, no_interval ms 0 k t.history (omega arith) (rw (w.fresh k absent) tt))
  | inr (r, found) ↦ elim (Bool-cases (leb r.updated_at ms)) [
    | inl started ↦ ground (
      arith,
      no_interval ms r.updated_at k t.history (ground arith)
          (Chain-ended r.version r.updated_at (rows_of k t.history) (w.chained k r found)),
    )
    | inr later ↦ ground (
      arith,
      interval-first ms r.version r.updated_at k t.history (ground arith) (w.chained k r found),
    )
  ]
]
