-- ===== src/Checkpoint/Dedupe.antt =====
-- The rows that `save` of src/postgres/checkpoint-store.ts inserts into ckpt_chunks.
use umbra_db.Prelude.{
  ℕ, ◌≡◌, refl, ap, sym, Bool, true, false, ◌||◌, List, [], ◌∷◌, ◌++◌, Option-cases, any, text_beq,
  text_beq_iff, text_eq, Bool-cases, inl, inr, arith,
}
use umbra_db.Table.{Table, lookup, lookup-put}
use umbra_db.Checkpoint.Tables.{Bytes, ChunkRow}
use umbra_db.Checkpoint.Save.{dedupe, repeats, upsert_chunk, upsert_chunk_rows, is_present}

-- `h` is the hash of one of the rows
abbrev pub names : Bytes → List (Bytes × Bytes) → Bool
names h rows = any (λ r. text_beq h r.0) rows

dedupe_met :
    (seen : List Bytes) (k d : Bytes) (rows : List (Bytes × Bytes))
    → any (text_beq k) seen ≡ true
    → dedupe seen ((k, d) ∷ rows) ≡ dedupe seen rows
unfolding dedupe
dedupe_met seen k d rows met = rw (dedupe, met) refl

dedupe_new :
    (seen : List Bytes) (k d : Bytes) (rows : List (Bytes × Bytes))
    → any (text_beq k) seen ≡ false
    → dedupe seen ((k, d) ∷ rows) ≡ (k, d) ∷ dedupe (k ∷ seen) rows
unfolding dedupe
dedupe_new seen k d rows new = rw (dedupe, new) refl

dedupe-fresh :
    (h : Bytes) (seen : List Bytes) (rows : List (Bytes × Bytes))
    → any (text_beq h) seen ≡ true
    → names h (dedupe seen rows) ≡ false
unfolding dedupe
dedupe-fresh h seen [] m = refl
dedupe-fresh h seen ((k, d) ∷ rows) m = elim (Bool-cases (any (text_beq k) seen)) [
  | inl met ↦ rw (dedupe_met seen k d rows met) (dedupe-fresh h seen rows m)
  | inr new ↦
      rw (dedupe_new seen k d rows new)
        (ground (arith, text_beq_iff h k, dedupe-fresh h (k ∷ seen) rows (ground arith)))
]

pub dedupe-repeats :
    (seen : List Bytes) (rows : List (Bytes × Bytes)) → repeats (dedupe seen rows) ≡ false
unfolding dedupe repeats
dedupe-repeats seen [] = refl
dedupe-repeats seen ((k, d) ∷ rows) = elim (Bool-cases (any (text_beq k) seen)) [
  | inl met ↦ rw (dedupe_met seen k d rows met) (dedupe-repeats seen rows)
  | inr new ↦ rw (dedupe_new seen k d rows new) (
      rw
        (
          repeats,
          dedupe-fresh k (k ∷ seen) rows (ground (arith, (text_beq_iff k k).1 refl)),
          dedupe-repeats (k ∷ seen) rows,
        )
        refl)
]

any-append : {A : Type 0} (p : A → Bool) (a b : List A) → any p (a ++ b) ≡ (any p a || any p b)
any-append p [] b = refl
any-append p (x ∷ a) b = ground (arith, any-append p a b)

any_same :
    (h k : Bytes) (seen : List Bytes)
    → text_beq h k ≡ true
    → any (text_beq k) seen ≡ any (text_beq h) seen
any_same h k seen same = ap (λ x. any (text_beq x) seen) (sym ((text_beq_iff h k).0 same))

pub repeats-append :
    (a b : List (Bytes × Bytes))
    → repeats (a ++ b) ≡ false
    → (repeats a ≡ false) × (repeats b ≡ false)
unfolding repeats
repeats-append [] b h = (refl, h)
repeats-append (r ∷ a) b h =
    ground (arith, any-append (λ (q : Bytes × Bytes). text_beq r.0 q.0) a b, repeats-append a b)

-- a hash that is among the rows, or was met before, is met before or among the rows that are kept
pub dedupe-names :
    (h : Bytes) (seen : List Bytes) (rows : List (Bytes × Bytes))
    → (any (text_beq h) seen || names h rows) ≡ true
    → (any (text_beq h) seen || names h (dedupe seen rows)) ≡ true
unfolding dedupe
dedupe-names h seen [] m = m
dedupe-names h seen ((k, d) ∷ rows) m = elim (Bool-cases (any (text_beq k) seen)) [
  | inl met ↦
      rw (dedupe_met seen k d rows met)
        (dedupe-names h seen rows (ground (arith, (text_beq_iff h k).0, any_same h k seen)))
  | inr new ↦
      rw (dedupe_new seen k d rows new)
        (ground (arith, dedupe-names h (k ∷ seen) rows (ground arith)))
]

-- a row that is there stays there, with its bytes
pub upsert_chunk-lookup :
    (now : ℕ) (h k d : Bytes) (chunks : Table Bytes ChunkRow)
    → is_present (lookup h (upsert_chunk now k d chunks))
      ≡ (text_beq k h || is_present (lookup h chunks))
unfolding upsert_chunk
upsert_chunk-lookup now h k d chunks = elim (Option-cases (lookup k chunks)) [
  | inl absent ↦ rw (upsert_chunk, absent, lookup-put) (ground arith)
  | inr (c, there) ↦ rw (upsert_chunk, there, lookup-put) (ground arith)
]

pub upsert_chunk_rows-present :
    (now : ℕ) (h : Bytes) (rows : List (Bytes × Bytes)) (chunks : Table Bytes ChunkRow)
    → is_present (lookup h (upsert_chunk_rows now rows chunks))
      ≡ (names h rows || is_present (lookup h chunks))
unfolding upsert_chunk_rows
upsert_chunk_rows-present now h [] chunks = refl
upsert_chunk_rows-present now h ((k, d) ∷ rows) chunks =
    rw (upsert_chunk_rows-present now h rows (upsert_chunk now k d chunks), upsert_chunk-lookup)
      (ground (arith, text_beq_iff h k, text_beq_iff k h))

pub upsert_chunk_rows-append :
    (now : ℕ) (a b : List (Bytes × Bytes)) (chunks : Table Bytes ChunkRow)
    → upsert_chunk_rows now (a ++ b) chunks
      ≡ upsert_chunk_rows now b (upsert_chunk_rows now a chunks)
unfolding upsert_chunk_rows
upsert_chunk_rows-append now [] b chunks = refl
upsert_chunk_rows-append now ((k, d) ∷ a) b chunks =
    upsert_chunk_rows-append now a b (upsert_chunk now k d chunks)
