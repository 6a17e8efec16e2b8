-- ===== src/TemporalKv/Puts.antt =====
-- The statements of `put` in src/postgres/temporal-kv.ts, and the log of a key.
use umbra_db.Prelude.{
  ℕ, suc, ◌+◌, ◌<◌, ◌≡◌, refl, true, List, [], ◌∷◌, Option, none, some, map, length, if◌then◌else◌,
  arith, Bool-cases, Option-cases, inl, inr, ◌⊎◌, pos, ap,
}
use umbra_db.Table.{lookup, lookup-put}
use umbra_db.Json.{Json}
use umbra_db.Errors.{ok}
use umbra_db.TemporalKv.{KvRow, of_current, of_history, is_stored_version}
use umbra_db.KvTables.{
  KvKey, kv_key_eq, kv_key_beq, kv_key_beq_iff, CurrentRow, HistoryRow, KvTables, Session,
  bigint_max, archived, stamped, update_row, insert_row, upsert, insert_if_absent,
  update_if_version,
}
use umbra_db.TemporalKv.Timeline.{WellFormed, Chain-length, log_of, log_rows, rows_of}
use umbra_db.TemporalKv.Invariant.{extended, update_row-ok, update_if_version-ok}

-- the log of `j` after a write under `k`
abbrev pub log_after : KvKey → KvRow → KvTables → KvKey → List KvRow
log_after k r t j = if kv_key_beq k j then r ∷ log_of j t else log_of j t

-- What a statement that wrote the row `r` of `k` did to the log of any key `j`.
pub record Appended (k : KvKey) (b : Option Json) (t t' : KvTables) (r : CurrentRow) (j : KvKey)
    : Type 0 where
  pub log : log_of j t' ≡ log_after k (of_current r) t j
  pub value : some r.value ≡ b
  pub counts : r.version ≡ length (log_of k t) + 1
  pub fits : is_stored_version (pos r.version) ≡ true

length-map_history : (hs : List HistoryRow) → length (map of_history hs) ≡ length hs
length-map_history [] = refl
length-map_history (h ∷ hs) = ap suc (length-map_history hs)

pub log-length :
    (t : KvTables) (k : KvKey) (r : CurrentRow)
    → WellFormed t
    → lookup k t.current ≡ some r
    → r.version ≡ length (log_of k t)
unfolding log_of
log-length t k r w found =
    rw (found, log_rows)
      (omega (
        arith,
        length-map_history (rows_of k t.history),
        Chain-length r.version r.updated_at (rows_of k t.history) (w.chained k r found),
      ))

pub log-empty : (t : KvTables) (k : KvKey) → lookup k t.current ≡ none → log_of k t ≡ []
unfolding log_of
log-empty t k absent = rw (absent, log_rows)

insert_row-Appended :
    (s : Session) (k : KvKey) (v : Json) (t : KvTables) (j : KvKey)
    → WellFormed t
    → lookup k t.current ≡ none
    → Appended k (some v) t (insert_row s k v t) (stamped s v 1) j
unfolding insert_row stamped is_stored_version
insert_row-Appended s k v t j w absent = record {
  log = elim (Bool-cases (kv_key_beq k j)) [
    | inl same ↦
        rw (same, ← (kv_key_beq_iff k j).0 same, log-empty t k absent)
          (unfold log_of in
            rw (lookup-put, (kv_key_beq_iff k k).1 refl, w.fresh k absent, log_rows))
    | inr other ↦ rw other (unfold log_of in rw (lookup-put, other, log_rows))
  ];
  value = refl;
  counts = rw (log-empty t k absent) (omega arith);
  fits = refl;
}

extended-Appended :
    (s : Session) (k : KvKey) (v : Json) (old : CurrentRow) (t : KvTables) (j : KvKey)
    → WellFormed t
    → lookup k t.current ≡ some old
    → old.version < bigint_max
    → Appended k (some v) t (extended s k v old t) (stamped s v (old.version + 1)) j
unfolding archived stamped is_stored_version
extended-Appended s k v old t j w found room = record {
  log = elim (Bool-cases (kv_key_beq k j)) [
    | inl same ↦
        rw (same, ← (kv_key_beq_iff k j).0 same)
          (unfold log_of in rw (lookup-put, (kv_key_beq_iff k k).1 refl, found, log_rows))
    | inr other ↦ rw other (unfold log_of in rw (lookup-put, other, log_rows))
  ];
  value = refl;
  counts = omega (arith, log-length t k old w found);
  fits = ground arith;
}

update_row-Appended :
    (s : Session) (k : KvKey) (b : Option Json) (old : CurrentRow) (t t' : KvTables)
    (r : CurrentRow) (j : KvKey)
    → WellFormed t
    → lookup k t.current ≡ some old
    → update_row s k b old t ≡ ok (t', r)
    → Appended k b t t' r j
update_row-Appended s k b old t t' r j w found h =
    let (v, sent, extends, row, _, room) = update_row-ok s k b old t h in
    rw (sent, extends, row) (extended-Appended s k v old t j w found room)

pub upsert-Appended :
    (s : Session) (k : KvKey) (v : Option Json) (t t' : KvTables) (r : CurrentRow) (j : KvKey)
    → WellFormed t
    → upsert s k v t ≡ ok (t', r)
    → Appended k v t t' r j
unfolding upsert
upsert-Appended s k none t t' r j w h = absurd (cc h)
upsert-Appended s k (some v) t t' r j w h = elim (Option-cases (lookup k t.current)) [
  | inl absent ↦
      let p : t' ≡ insert_row s k v t = ground arith in
      let q : r ≡ stamped s v 1 = ground arith in rw (p, q) (insert_row-Appended s k v t j w absent)
  | inr (old, found) ↦ update_row-Appended s k (some v) old t t' r j w found (ground arith)
]

pub insert_if_absent-Appended :
    (s : Session) (k : KvKey) (v : Option Json) (t t' : KvTables) (o : Option CurrentRow)
    (j : KvKey)
    → WellFormed t
    → insert_if_absent s k v t ≡ ok (t', o)
    → ((o ≡ none) × (t' ≡ t))
      ⊎ ((r : CurrentRow) × (o ≡ some r) × Appended k v t t' r j × (length (log_of k t) ≡ 0))
unfolding insert_if_absent
insert_if_absent-Appended s k none t t' o j w h = absurd (cc h)
insert_if_absent-Appended s k (some v) t t' o j w h = elim (Option-cases (lookup k t.current)) [
  | inl absent ↦
      let p : t' ≡ insert_row s k v t = ground arith in
      inr (
        stamped s v 1,
        ground arith,
        rw p (insert_row-Appended s k v t j w absent),
        rw (log-empty t k absent) refl,
      )
  | inr (old, found) ↦ inl (ground arith, ground arith)
]

pub update_if_version-Appended :
    (s : Session) (k : KvKey) (v : Option Json) (n : ℕ) (t t' : KvTables) (o : Option CurrentRow)
    (j : KvKey)
    → WellFormed t
    → update_if_version s k v n t ≡ ok (t', o)
    → ((o ≡ none) × (t' ≡ t))
      ⊎ ((r : CurrentRow) × (o ≡ some r) × Appended k v t t' r j × (length (log_of k t) ≡ n))
update_if_version-Appended s k v n t t' o j w h = elim (update_if_version-ok s k v n t h) [
  | inl same ↦ inl same
  | inr (old, r, found, at_n, e, u) ↦ inr (
    r,
    e,
    update_row-Appended s k v old t t' r j w found u,
    omega (arith, log-length t k old w found),
  )
]
