-- ===== src/Checkpoint/Survival.antt =====
-- `prune` of src/postgres/checkpoint-store.ts, before and after.
use umbra_db.Prelude.{
  ℕ, ◌≡◌, ◌<◌, refl, ap, sym, ◌∙◌, Bool, true, not, List, [], ◌∷◌, none, some, Option-cases, any,
  All, All-map, All_both, subst, All-filter, filter, ◌==◌, text_eq, Bool-cases, inl, inr,
}
use umbra_db.Table.{Table, lookup, delete_where, All-delete_where}
use umbra_db.Checkpoint.Tables.{Bytes, WalletKey, ChunkRow, Manifest, Junction, CkptTables}
use umbra_db.Checkpoint.Save.{references_exist, is_present}
use umbra_db.Checkpoint.Load.{latest, matches, load_impl, select_chunks}
use umbra_db.Checkpoint.Prune.{
  cutoff, is_pruned, delete_manifests, is_reclaimable, reclaim_chunks, prune_impl,
}
use umbra_db.Checkpoint.Invariant.{Addressed, Sound, Falling}
use umbra_db.Checkpoint.Retention.{left, newest_left}
use umbra_db.Checkpoint.Spared.{
  references_All, All_references, rows_kept, spared_ids, latest-All, prune_impl-tables, rows_of,
  pruned,
}

Falling-filter : (p : Manifest → Bool) (ms : List Manifest) → Falling ms → Falling (filter p ms)
Falling-filter p [] f = tt
Falling-filter p (m ∷ ms) f = elim (Bool-cases (p m)) [
  | inl kept ↦
      rw kept (All-filter p (λ (n : Manifest). n.id < m.id) ms f.0, Falling-filter p ms f.1)
  | inr gone ↦ rw gone (Falling-filter p ms f.1)
]

references_left :
    (now : ℕ) (chunks : Table Bytes ChunkRow) (js : List Junction)
    → All (λ (j : Junction). is_present (lookup j.chunk_hash chunks) ≡ true) js
    → references_exist (delete_where (is_reclaimable now js) chunks) js ≡ true
references_left now chunks js present =
    All_references (delete_where (is_reclaimable now js) chunks) js (
      All-map (λ j h. ap is_present h.0 ∙ h.1) js
        (All_both _ _ js (rows_kept now chunks js present) present))

-- From well-formed tables, `prune` leaves well-formed tables, whether it returns or throws: in
-- particular every chunk that a manifest which is left refers to is still there, with its bytes
-- under their digest.
pub prune-Sound :
    (sha256 : Bytes → Bytes) (now : ℕ) (key : WalletKey) (retain : ℕ) (t : CkptTables)
    → Sound sha256 t
    → Sound sha256 (prune_impl now key retain t).0
unfolding reclaim_chunks delete_manifests
prune-Sound sha256 now key retain t s =
    let gone = filter (is_pruned key (cutoff key retain t.manifests)) t.manifests in
    let stays : Junction → Bool = (λ j. not (any (λ (g : Manifest). g.id == j.manifest_id) gone)) in
    let keep : Manifest → Bool = (λ m. not (is_pruned key (cutoff key retain t.manifests) m)) in
    let js = filter stays t.junctions in
    let present =
      All-filter stays _ t.junctions (references_All t.chunks t.junctions s.references) in
    subst (Sound sha256) (sym (prune_impl-tables now key retain t)) record {
      addressed = All-delete_where (Addressed sha256) (is_reclaimable now js) t.chunks s.addressed;
      ids = All-filter keep _ t.manifests s.ids;
      falling = Falling-filter keep t.manifests s.falling;
      rows = All-filter stays _ t.junctions s.rows;
      seqs = All-filter keep _ t.manifests s.seqs;
      references = references_left now t.chunks js present;
    }

-- two states whose newest manifest and its rows agree load alike
same_loads :
    (sha256 : Bytes → Bytes) (owner : WalletKey) (t u : CkptTables)
    → latest (filter (matches owner none) u.manifests)
      ≡ latest (filter (matches owner none) t.manifests)
    → ((m : Manifest)
        → latest (filter (matches owner none) t.manifests) ≡ some m
        → select_chunks m.id u ≡ select_chunks m.id t)
    → load_impl sha256 owner none u ≡ load_impl sha256 owner none t
unfolding load_impl
same_loads sha256 owner t u newest rows =
    elim (Option-cases (latest (filter (matches owner none) t.manifests))) [
      | inl absent ↦ rw (load_impl, newest, absent) refl
      | inr (m, there) ↦ rw (load_impl, newest, there, rows m there) refl
    ]

-- From well-formed tables, a `prune` of one wallet does not change what a load of the newest
-- checkpoint of any wallet, the pruned one or another, returns or throws.
pub prune_keeps_newest :
    (sha256 : Bytes → Bytes) (now : ℕ) (key owner : WalletKey) (retain : ℕ) (t : CkptTables)
    → Sound sha256 t
    → load_impl sha256 owner none (prune_impl now key retain t).0 ≡ load_impl sha256 owner none t
unfolding reclaim_chunks delete_manifests
prune_keeps_newest sha256 now key owner retain t s =
    let c = cutoff key retain t.manifests in
    let newest = newest_left key owner retain t.manifests in
    ap (load_impl sha256 owner none) (prune_impl-tables now key retain t)
    ∙ same_loads sha256 owner t (pruned now key retain t) newest λ m there.
      rows_of now key retain t m.id s.references (
        latest-All _ (filter (matches owner none) (left key c t.manifests)) m
          (All-filter (matches owner none) _ (left key c t.manifests)
            (spared_ids (is_pruned key c) t.manifests s.falling))
          (newest ∙ there))
