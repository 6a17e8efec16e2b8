-- ===== src/Checkpoint/Spared.antt =====
-- The junction rows and chunks that `prune` of src/postgres/checkpoint-store.ts leaves.
use umbra_db.Prelude.{
  ℕ, ◌≡◌, ◌<◌, refl, ap, sym, ◌∙◌, Bool, true, false, not, List, [], ◌∷◌, some, map, Option-cases,
  any, All, All-map, All_both, subst, All-filter, filter, filter_all, filter_swap, filter-All, ◌==◌,
  leb, text_beq, text_beq_iff, text_eq, Bool-cases, inl, inr, arith,
}
use umbra_db.Table.{Table, lookup, delete_where, lookup-delete_spared}
use umbra_db.Errors.{Result, ok, fail}
use umbra_db.Exec.{lift, pure, ◌>>=◌, run}
use umbra_db.Checkpoint.Tables.{Bytes, WalletKey, ChunkRow, Manifest, Junction, CkptTables}
use umbra_db.Checkpoint.Save.{references_exist, is_present}
use umbra_db.Checkpoint.Load.{order_by_position, joined, latest, newer, select_chunks}
use umbra_db.Checkpoint.Prune.{
  cutoff, is_pruned, delete_manifests, is_reclaimable, reclaim_chunks, prune_impl, coerce_all,
}
use umbra_db.Checkpoint.Invariant.{Falling}

-- the chunk of a junction row that is left is not reclaimed
referenced_spared :
    (now : ℕ) (js : List Junction) (h : Bytes) (c : ChunkRow)
    → any (λ (j : Junction). text_beq j.chunk_hash h) js ≡ true
    → is_reclaimable now js h c ≡ false
unfolding is_reclaimable
referenced_spared now js h c r = ground (arith, r)

chunk_kept :
    (now : ℕ) (js : List Junction) (h : Bytes) (chunks : Table Bytes ChunkRow)
    → any (λ (j : Junction). text_beq j.chunk_hash h) js ≡ true
    → is_present (lookup h chunks) ≡ true
    → lookup h (delete_where (is_reclaimable now js) chunks) ≡ lookup h chunks
chunk_kept now js h chunks r p = elim (Option-cases (lookup h chunks)) [
  | inl absent ↦ absurd (ground (arith, absent))
  | inr (c, there) ↦
      lookup-delete_spared (is_reclaimable now js) h chunks there (referenced_spared now js h c r)
      ∙ sym there
]

self_named :
    (js : List Junction)
    → All
        (λ (j : Junction). any (λ (i : Junction). text_beq i.chunk_hash j.chunk_hash) js ≡ true)
        js
self_named [] = tt
self_named (j ∷ js) = (
  rw ((text_beq_iff j.chunk_hash j.chunk_hash).1 refl) refl,
  All-map (λ i h. ground (arith, h)) js (self_named js),
)

pub references_All :
    (chunks : Table Bytes ChunkRow) (js : List Junction)
    → references_exist chunks js ≡ true
    → All (λ (j : Junction). is_present (lookup j.chunk_hash chunks) ≡ true) js
unfolding references_exist
references_All chunks [] h = tt
references_All chunks (j ∷ js) h = (ground arith, references_All chunks js (ground arith))

pub All_references :
    (chunks : Table Bytes ChunkRow) (js : List Junction)
    → All (λ (j : Junction). is_present (lookup j.chunk_hash chunks) ≡ true) js
    → references_exist chunks js ≡ true
unfolding references_exist
All_references chunks [] h = refl
All_references chunks (j ∷ js) h = rw (h.0, All_references chunks js h.1) refl

-- each row that is left reads its chunk as before
pub rows_kept :
    (now : ℕ) (chunks : Table Bytes ChunkRow) (js : List Junction)
    → All (λ (j : Junction). is_present (lookup j.chunk_hash chunks) ≡ true) js
    → All
        (λ (j : Junction).
          lookup j.chunk_hash (delete_where (is_reclaimable now js) chunks)
          ≡ lookup j.chunk_hash chunks)
        js
rows_kept now chunks js present = both js (self_named js) present
  where
    both :
        (is : List Junction)
        → All
            (λ (j : Junction). any (λ (i : Junction). text_beq i.chunk_hash j.chunk_hash) js ≡ true)
            is
        → All (λ (j : Junction). is_present (lookup j.chunk_hash chunks) ≡ true) is
        → All
            (λ (j : Junction).
              lookup j.chunk_hash (delete_where (is_reclaimable now js) chunks)
              ≡ lookup j.chunk_hash chunks)
            is
    both [] n p = tt
    both (j ∷ is) n p = (chunk_kept now js j.chunk_hash chunks n.0 p.0, both is n.1 p.1)

map-joined :
    (a b : Table Bytes ChunkRow) (js : List Junction)
    → All (λ (j : Junction). lookup j.chunk_hash a ≡ lookup j.chunk_hash b) js
    → map (joined a) js ≡ map (joined b) js
map-joined a b [] h = refl
map-joined a b (j ∷ js) h = let tail = map-joined a b js h.1 in rw (h.0, tail) refl

above_all :
    (id : ℕ) (ms : List Manifest)
    → All (λ (n : Manifest). n.id < id) ms
    → any (λ (g : Manifest). g.id == id) ms ≡ false
above_all id [] h = refl
above_all id (m ∷ ms) h = ground (arith, h.0, above_all id ms h.1)

-- no manifest that stays has the id of one that goes
pub spared_ids :
    (p : Manifest → Bool) (ms : List Manifest)
    → Falling ms
    → All
        (λ (m : Manifest). any (λ (g : Manifest). g.id == m.id) (filter p ms) ≡ false)
        (filter (λ m. not (p m)) ms)
spared_ids p [] f = tt
spared_ids p (m ∷ ms) f = elim (Bool-cases (p m)) [
  | inl goes ↦ rw goes (
      All-map (λ n h. ground (arith, h)) (filter (λ n. not (p n)) ms)
        (All_both _ _ (filter (λ n. not (p n)) ms)
          (All-filter (λ n. not (p n)) (λ (n : Manifest). n.id < m.id) ms f.0)
          (spared_ids p ms f.1)))
  | inr stays ↦ rw stays (
    above_all m.id (filter p ms) (All-filter p (λ (n : Manifest). n.id < m.id) ms f.0),
    spared_ids p ms f.1,
  )
]

pub latest-All :
    (P : Manifest → Type 0) (xs : List Manifest) (m : Manifest)
    → All P xs
    → latest xs ≡ some m
    → P m
unfolding latest newer
latest-All P [] m h e = cc
latest-All P (x ∷ xs) m h e = elim (Option-cases (latest xs)) [
  | inl absent ↦ let same : x ≡ m = ground (arith, absent) in subst P same h.0
  | inr (k, there) ↦
      let tail = latest-All P xs k h.1 there in
      elim (Bool-cases (leb k.seq x.seq)) [
        | inl first ↦ let same : x ≡ m = ground (arith, there, first) in subst P same h.0
        | inr later ↦ let same : k ≡ m = ground (arith, there, later) in subst P same tail
      ]
]

-- the tables after a prune
abbrev pub pruned : ℕ → WalletKey → ℕ → CkptTables → CkptTables
pruned now key retain t = reclaim_chunks now (delete_manifests key retain t)

lift_tables :
    {A B : Type 0} (r : Result A) (f : A → B) (t : CkptTables)
    → ((lift r >>= λ a. pure (f a)) t).0 ≡ t
unfolding run
lift_tables (ok a) f t = refl
lift_tables (fail e) f t = refl

pub prune_impl-tables :
    (now : ℕ) (key : WalletKey) (retain : ℕ) (t : CkptTables)
    → (prune_impl now key retain t).0 ≡ pruned now key retain t
unfolding prune_impl run
prune_impl-tables now key retain t = lift_tables (coerce_all _) _ (pruned now key retain t)

pub rows_of :
    (now : ℕ) (key : WalletKey) (retain : ℕ) (t : CkptTables) (id : ℕ)
    → references_exist t.chunks t.junctions ≡ true
    → any
        (λ (g : Manifest). g.id == id)
        (filter (is_pruned key (cutoff key retain t.manifests)) t.manifests)
      ≡ false
    → select_chunks id (pruned now key retain t) ≡ select_chunks id t
unfolding select_chunks reclaim_chunks delete_manifests
rows_of now key retain t id fk spared =
    let gone = filter (is_pruned key (cutoff key retain t.manifests)) t.manifests in
    let stays : Junction → Bool = (λ j. not (any (λ (g : Manifest). g.id == j.manifest_id) gone)) in
    let js = filter stays t.junctions in
    let mine : Junction → Bool = (λ j. j.manifest_id == id) in
    let present = All-filter stays _ t.junctions (references_All t.chunks t.junctions fk) in
    let kept = All-filter mine _ js (rows_kept now t.chunks js present) in
    let all_stay : All (λ j. stays j ≡ true) (filter mine t.junctions) =
      All-map (λ j h. let same : j.manifest_id ≡ id = ground (arith, h) in rw (same, spared) refl)
        (filter mine t.junctions) (filter-All mine t.junctions) in
    ap order_by_position (
      map-joined (delete_where (is_reclaimable now js) t.chunks) t.chunks (filter mine js) kept
      ∙ ap (map (joined t.chunks)) (
          filter_swap mine stays t.junctions ∙ filter_all stays (filter mine t.junctions) all_stay))
