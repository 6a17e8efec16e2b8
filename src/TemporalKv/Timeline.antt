-- ===== src/TemporalKv/Timeline.antt =====
-- The abstract view of a key: its log, the latest write first. In well-formed tables the history
-- rows of a key have the versions below the current one, and intervals that meet end to end.
use umbra_db.Prelude.{
  ℕ, ◌+◌, ◌≤◌, ◌<◌, ◌≡◌, refl, false, List, [], ◌∷◌, Option, none, some, map, filter, length, All,
  any, arith, Bool-cases, inl, inr,
}
use umbra_db.Table.{lookup}
use umbra_db.TemporalKv.{KvRow, of_current, of_history}
use umbra_db.KvTables.{
  KvKey, kv_key_eq, kv_key_beq, kv_key_beq_iff, CurrentRow, HistoryRow, KvTables, overlaps,
}

-- the history rows of a key
abbrev pub rows_of : KvKey → List HistoryRow → List HistoryRow
rows_of k = filter (λ h. kv_key_beq h.hkey k)

-- an entry for the current row, if there is one, before those of the history rows
unfoldable pub log_rows : Option CurrentRow → List HistoryRow → List KvRow
log_rows none hs = []
log_rows (some r) hs = of_current r ∷ map of_history hs

-- What the tables say was written under a key, the latest write first.
unfoldable pub log_of : KvKey → KvTables → List KvRow
unfolding log_rows
log_of k t = log_rows (lookup k t.current) (rows_of k t.history)

-- The rows lead, with no gap in the versions or in time, from version 1 up to a row of version
-- `v` that starts at `from`.
abbrev pub Chain : ℕ → ℕ → List HistoryRow → Type 0
Chain v from [] = v ≡ 1
Chain v from (h ∷ hs) =
    (v ≡ h.version + 1)
    × (h.valid_to ≡ from)
    × (h.valid_from < h.valid_to)
    × Chain h.version h.valid_from hs

pub record WellFormed (t : KvTables) : Type 0 where
  pub chained :
      (k : KvKey) (r : CurrentRow)
      → lookup k t.current ≡ some r
      → Chain r.version r.updated_at (rows_of k t.history)
  pub fresh : (k : KvKey) → lookup k t.current ≡ none → rows_of k t.history ≡ []

pub Chain-ended :
    (v from : ℕ) (hs : List HistoryRow) → Chain v from hs → All (λ h. h.valid_to ≤ from) hs
Chain-ended v from [] c = tt
Chain-ended v from (h ∷ hs) c = (omega arith, weaken hs (Chain-ended h.version h.valid_from hs c.3))
  where
    weaken :
        (rest : List HistoryRow)
        → All (λ g. g.valid_to ≤ h.valid_from) rest
        → All (λ g. g.valid_to ≤ from) rest
    weaken [] w = tt
    weaken (g ∷ gs) w = (omega arith, weaken gs w.1)

pub Chain-older :
    (v from : ℕ) (hs : List HistoryRow) → Chain v from hs → All (λ h. h.version < v) hs
Chain-older v from [] c = tt
Chain-older v from (h ∷ hs) c = (omega arith, weaken hs (Chain-older h.version h.valid_from hs c.3))
  where
    weaken :
        (rest : List HistoryRow)
        → All (λ g. g.version < h.version) rest
        → All (λ g. g.version < v) rest
    weaken [] w = tt
    weaken (g ∷ gs) w = (omega arith, weaken gs w.1)

-- a version is the length of the log that it ends
pub Chain-length : (v from : ℕ) (hs : List HistoryRow) → Chain v from hs → v ≡ length hs + 1
Chain-length v from [] c = omega arith
Chain-length v from (h ∷ hs) c = omega (arith, Chain-length h.version h.valid_from hs c.3)

-- Only rows of the same key are compared by the exclusion constraint.
pub no_overlap :
    (a : HistoryRow) (hs : List HistoryRow)
    → All (λ h. h.valid_to ≤ a.valid_from) (rows_of a.hkey hs)
    → any (overlaps a) hs ≡ false
unfolding overlaps
no_overlap a [] w = refl
no_overlap a (h ∷ hs) w = elim (Bool-cases (kv_key_beq h.hkey a.hkey)) [
  | inl same ↦
      let w' : (h.valid_to ≤ a.valid_from)
          × All (λ g. g.valid_to ≤ a.valid_from) (rows_of a.hkey hs) =
        rw same at w in
      ground (arith, no_overlap a hs w'.1)
  | inr other ↦ ground (
    arith,
    no_overlap a hs (rw other at w),
    kv_key_beq_iff a.hkey h.hkey,
    kv_key_beq_iff h.hkey a.hkey,
  )
]
