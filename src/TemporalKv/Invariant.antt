-- ===== src/TemporalKv/Invariant.antt =====
-- The well-formedness of the key-value tables, and the statements of `put` in
-- src/postgres/temporal-kv.ts.
use umbra_db.Prelude.{
  ℕ, zero, suc, ◌+◌, ◌<◌, ◌≡◌, refl, Bool, true, ◌∷◌, Option, none, some, if◌then◌else◌, arith,
  Bool-cases, Option-cases, inl, inr, ◌⊎◌, ◌==◌, ℤ, pos, negsuc,
}
use umbra_db.Table.{lookup, lookup-put, put as put_row}
use umbra_db.Json.{Json}
use umbra_db.Errors.{Result, ok, fail}
use umbra_db.Exec.{statement}
use umbra_db.Exec.Keeps.{Keeps, Keeps-lift, Keeps-statement, keeps_rules}
use umbra_db.TemporalKv.{conflict, entry_or_conflict, write, put_impl, put}
use umbra_db.KvTables.{
  KvKey, kv_key_eq, kv_key_beq, kv_key_beq_iff, CurrentRow, KvTables, Session, now_ms, bigint_max,
  archived, stamped, insert_history, history_trigger, write_row, update_row, insert_row, upsert,
  insert_if_absent, update_if_version,
}
use umbra_db.TemporalKv.Timeline.{WellFormed, Chain, rows_of}

some-inj : {A : Type 0} {a b : A} → some a ≡ some b → a ≡ b
some-inj h = cc

-- the tables after an UPDATE of the row `old` of `k`
abbrev pub extended : Session → KvKey → Json → CurrentRow → KvTables → KvTables
extended s k v old t = record {
  current = put_row k (stamped s v (old.version + 1)) t.current;
  history = archived s k old ∷ t.history;
}

pub update_row-ok :
    (s : Session) (k : KvKey) (b : Option Json) (old : CurrentRow) (t : KvTables) {t' : KvTables}
    {r : CurrentRow}
    → update_row s k b old t ≡ ok (t', r)
    → (v : Json) × (b ≡ some v)
      × (t' ≡ extended s k v old t)
      × (r ≡ stamped s v (old.version + 1))
      × (old.updated_at < now_ms s)
      × (old.version < bigint_max)
unfolding update_row history_trigger insert_history archived write_row
update_row-ok s k none old t h = absurd (ground arith)
update_row-ok s k (some v) old t h =
    (v, refl, ground arith, ground arith, ground arith, ground arith)

module _ (s : Session) (k : KvKey) (v : Json) (t : KvTables) (w : WellFormed t) where
  rows-extended :
      (old : CurrentRow) (j : KvKey)
      → rows_of j (extended s k v old t).history
        ≡ (if kv_key_beq k j then archived s k old ∷ rows_of j t.history else rows_of j t.history)
  unfolding archived
  rows-extended old j = refl

  extended-WellFormed :
      (old : CurrentRow)
      → lookup k t.current ≡ some old
      → old.updated_at < now_ms s
      → WellFormed (extended s k v old t)
  unfolding archived stamped
  extended-WellFormed old found later = record {
    chained = λ j r h. elim (Bool-cases (kv_key_beq k j)) [
      | inl same ↦ chained_same j r ((kv_key_beq_iff k j).0 same) h same
      | inr other ↦ rw other (w.chained j r (rw (lookup-put, other) at h))
    ];
    fresh = λ j h. elim (Bool-cases (kv_key_beq k j)) [
      | inl same ↦ cc (rw (lookup-put, same) at h)
      | inr other ↦ rw other (w.fresh j (rw (lookup-put, other) at h))
    ];
  }
    where
      chained_same :
          (j : KvKey) (r : CurrentRow)
          → k ≡ j
          → lookup j (put_row k (stamped s v (old.version + 1)) t.current) ≡ some r
          → kv_key_beq k j ≡ true
          → Chain r.version r.updated_at (rows_of j (extended s k v old t).history)
      chained_same j r e h same =
          let p : stamped s v (old.version + 1) ≡ r = some-inj (rw (lookup-put, same) at h) in
          rw (same, ← p) (refl, refl, later, w.chained j old (rw (← e) found))

  insert_row-WellFormed : lookup k t.current ≡ none → WellFormed (insert_row s k v t)
  unfolding insert_row stamped
  insert_row-WellFormed absent = record {
    chained = λ j r h. elim (Bool-cases (kv_key_beq k j)) [
      | inl same ↦
          let p : stamped s v 1 ≡ r = some-inj (rw (lookup-put, same) at h) in
          rw (← p, ← (kv_key_beq_iff k j).0 same, w.fresh k absent) refl
      | inr other ↦ w.chained j r (rw (lookup-put, other) at h)
    ];
    fresh = λ j h. elim (Bool-cases (kv_key_beq k j)) [
      | inl same ↦ cc (rw (lookup-put, same) at h)
      | inr other ↦ w.fresh j (rw (lookup-put, other) at h)
    ];
  }

update_row-WellFormed :
    (s : Session) (k : KvKey) (b : Option Json) (old : CurrentRow) (t t' : KvTables)
    (r : CurrentRow)
    → WellFormed t
    → lookup k t.current ≡ some old
    → update_row s k b old t ≡ ok (t', r)
    → WellFormed t'
update_row-WellFormed s k b old t t' r w found h =
    let (v, _, extends, _, later, _) = update_row-ok s k b old t h in
    rw extends (extended-WellFormed s k v t w old found later)

upsert-WellFormed :
    (s : Session) (k : KvKey) (v : Option Json) (t t' : KvTables) (r : CurrentRow)
    → WellFormed t
    → upsert s k v t ≡ ok (t', r)
    → WellFormed t'
unfolding upsert
upsert-WellFormed s k none t t' r w h = absurd (cc h)
upsert-WellFormed s k (some v) t t' r w h = elim (Option-cases (lookup k t.current)) [
  | inl absent ↦
      let p : insert_row s k v t ≡ t' = ground arith in
      rw (← p) (insert_row-WellFormed s k v t w absent)
  | inr (old, found) ↦ update_row-WellFormed s k (some v) old t t' r w found (ground arith)
]

insert_if_absent-WellFormed :
    (s : Session) (k : KvKey) (v : Option Json) (t t' : KvTables) (r : Option CurrentRow)
    → WellFormed t
    → insert_if_absent s k v t ≡ ok (t', r)
    → WellFormed t'
unfolding insert_if_absent
insert_if_absent-WellFormed s k none t t' r w h = absurd (cc h)
insert_if_absent-WellFormed s k (some v) t t' r w h = elim (Option-cases (lookup k t.current)) [
  | inl absent ↦
      let p : insert_row s k v t ≡ t' = ground arith in
      rw (← p) (insert_row-WellFormed s k v t w absent)
  | inr (old, found) ↦ let p : t ≡ t' = ground arith in rw (← p) w
]

-- an UPDATE ... WHERE version = n either finds no row, or updates the row of the key
pub update_if_version-ok :
    (s : Session) (k : KvKey) (v : Option Json) (n : ℕ) (t : KvTables) {t' : KvTables}
    {r : Option CurrentRow}
    → update_if_version s k v n t ≡ ok (t', r)
    → ((r ≡ none) × (t' ≡ t))
      ⊎ ((old : CurrentRow) × (new : CurrentRow) × (lookup k t.current ≡ some old)
          × (old.version ≡ n)
          × (r ≡ some new)
          × (update_row s k v old t ≡ ok (t', new)))
unfolding update_if_version
update_if_version-ok s k v n t {t'} {r} h = elim (Option-cases (lookup k t.current)) [
  | inl absent ↦ inl (ground arith, ground arith)
  | inr (old, found) ↦ elim (Bool-cases (old.version == n)) [
    | inl same ↦ with_row old found same (update_row s k v old t) refl
    | inr other ↦ inl (ground arith, ground arith)
  ]
]
  where
    with_row :
        (old : CurrentRow)
        → lookup k t.current ≡ some old
        → (old.version == n) ≡ true
        → (u : Result (KvTables × CurrentRow)) → update_row s k v old t ≡ u
        → ((r ≡ none) × (t' ≡ t))
          ⊎ ((old : CurrentRow) × (new : CurrentRow) × (lookup k t.current ≡ some old)
              × (old.version ≡ n)
              × (r ≡ some new)
              × (update_row s k v old t ≡ ok (t', new)))
    with_row old found same (ok (t2, new)) u =
        inr (old, new, found, ground arith, ground arith, ground arith)
    with_row old found same (fail e) u = absurd (ground arith)

update_if_version-WellFormed :
    (s : Session) (k : KvKey) (v : Option Json) (n : ℕ) (t t' : KvTables) (r : Option CurrentRow)
    → WellFormed t
    → update_if_version s k v n t ≡ ok (t', r)
    → WellFormed t'
update_if_version-WellFormed s k v n t t' r w h = elim (update_if_version-ok s k v n t h) [
  | inl (_, same) ↦ rw same w
  | inr (old, new, found, _, _, u) ↦ update_row-WellFormed s k v old t t' new w found u
]

pub conflict-unchanged :
    (z : Json → Bool) (jsonb : Json → Json) (k : KvKey) (n : ℕ) (t : KvTables)
    → (conflict z jsonb k n t).0 ≡ t
unfolding conflict
conflict-unchanged z jsonb k n t = ground arith

module _ (z_json : Json → Bool) (jsonb : Json → Json) where
  entry_or_conflict-Keeps :
      (k : KvKey) (n : ℕ) (r : Option CurrentRow)
      → Keeps WellFormed (entry_or_conflict z_json jsonb k n r)
  unfolding entry_or_conflict
  entry_or_conflict-Keeps k n none = record {
    keeps = λ t w. rw (conflict-unchanged z_json jsonb k n t) w;
  }
  entry_or_conflict-Keeps k n (some r) = Keeps-lift _

  upsert-Keeps :
      (s : Session) (k : KvKey) (v : Option Json) → Keeps WellFormed (statement (upsert s k v))
  upsert-Keeps s k v = Keeps-statement _ (upsert-WellFormed s k v)

  insert_if_absent-Keeps :
      (s : Session) (k : KvKey) (v : Option Json)
      → Keeps WellFormed (statement (insert_if_absent s k v))
  insert_if_absent-Keeps s k v = Keeps-statement _ (insert_if_absent-WellFormed s k v)

  update_if_version-Keeps :
      (s : Session) (k : KvKey) (v : Option Json) (n : ℕ)
      → Keeps WellFormed (statement (update_if_version s k v n))
  update_if_version-Keeps s k v n = Keeps-statement _ (update_if_version-WellFormed s k v n)

  ruleset write_rules = (
    keeps_rules, upsert-Keeps, insert_if_absent-Keeps, update_if_version-Keeps,
    entry_or_conflict-Keeps,
  )

  write-Keeps :
      (s : Session) (k : KvKey) (v : Json) (expected : Option ℤ)
      → Keeps WellFormed (write z_json jsonb s k v expected)
  unfolding write
  write-Keeps s k v none = search write_rules
  write-Keeps s k v (some (pos zero)) = search write_rules
  write-Keeps s k v (some (pos (suc n))) = search write_rules
  write-Keeps s k v (some (negsuc n)) = search write_rules

  put-Keeps :
      (conn : Result Session) (is_aborted : Bool) (k : KvKey) (v : Json) (expected : Option ℤ)
      → Keeps WellFormed (put z_json jsonb conn is_aborted k v expected)
  unfolding put put_impl
  put-Keeps conn is_aborted k v expected = search (keeps_rules, write-Keeps) depth 12

  -- From well-formed tables, whatever its arguments, and whether it returns or throws, `put` leaves
  -- well-formed tables: each key's versions count up from 1 without a gap, and its intervals meet
  -- end to end.
  pub put-WellFormed :
      (conn : Result Session) (is_aborted : Bool) (k : KvKey) (v : Json) (expected : Option ℤ)
      (t : KvTables)
      → WellFormed t
      → WellFormed (put z_json jsonb conn is_aborted k v expected t).0
  put-WellFormed conn is_aborted k v expected t w =
      (put-Keeps conn is_aborted k v expected).keeps t w
