-- ===== src/Table.antt =====
-- A database table with a primary key, as an association list: the rows that the adapters' SQL
-- statements read and write. PostgreSQL enforces the key, so the first row of a key is its only
-- one. `lookup` is SELECT ... WHERE key = k, `put` writes the row of a key (INSERT, or UPDATE where
-- it is there), `delete_where` is DELETE ... WHERE.
pub mod Distinct
use umbra_db.Prelude.{
  ◌≡◌, refl, Bool, true, false, List, [], ◌∷◌, Option, none, some, arith, Eq, ◌=?◌, =?_refl,
  if◌then◌else◌, All, Bool-cases, inl, inr,
}

abbrev pub Table {ℓ} : Type ℓ → Type ℓ → Type ℓ
Table K V = List (K × V)

module _ {ℓ} {K V : Type ℓ} ⦃e : Eq K⦄ where
  unfoldable pub lookup : K → Table K V → Option V
  lookup k [] = none
  lookup k ((j, v) ∷ m) = if j =? k then some v else lookup k m

  unfoldable pub put : K → V → Table K V → Table K V
  put k v [] = (k, v) ∷ []
  put k v ((j, w) ∷ m) = if j =? k then (k, v) ∷ m else (j, w) ∷ put k v m

  unfoldable pub delete_where : (K → V → Bool) → Table K V → Table K V
  delete_where p [] = []
  delete_where p ((j, w) ∷ m) = let rest = delete_where p m in if p j w then rest else (j, w) ∷ rest

  pub lookup-put :
      (k j : K) (v : V) (m : Table K V)
      → lookup j (put k v m) ≡ (if k =? j then some v else lookup j m)
  unfolding lookup put
  lookup-put k j v [] = refl
  lookup-put k j v ((i, w) ∷ m) =
      ground (arith, e.beq_iff k j, e.beq_iff i k, e.beq_iff i j, lookup-put k j v m)

  pub lookup-put_self : (k : K) (v : V) (m : Table K V) → lookup k (put k v m) ≡ some v
  lookup-put_self k v m = rw (lookup-put, =?_refl)

  pub lookup-put_ne :
      (k j : K) (v : V) (m : Table K V) → (k =? j) ≡ false → lookup j (put k v m) ≡ lookup j m
  lookup-put_ne k j v m h = rw (lookup-put, h)

  -- `p` spares the row that `lookup` finds under `k`.
  pub lookup-delete_spared :
      (p : K → V → Bool) (k : K) (m : Table K V) {v : V}
      → lookup k m ≡ some v
      → p k v ≡ false
      → lookup k (delete_where p m) ≡ some v
  unfolding lookup delete_where
  lookup-delete_spared p k [] h n = cc
  lookup-delete_spared p k ((j, w) ∷ m) {v} h n = elim (Bool-cases (j =? k)) [
    | inl same ↦ same_key same
    | inr other ↦ ground (arith, lookup-delete_spared p k m (ground arith) n)
  ]
    where
      same_key :
          (j =? k) ≡ true
          → lookup k (let rest = delete_where p m in if p j w then rest else (j, w) ∷ rest) ≡ some v
      same_key same = ground (arith, (e.beq_iff j k).0 same)

  module _ (P : K × V → Type ℓ) where
    pub All-put : (k : K) (v : V) (m : Table K V) → P (k, v) → All P m → All P (put k v m)
    unfolding put
    All-put k v [] p h = (p, tt)
    All-put k v ((j, w) ∷ m) p h = elim (Bool-cases (j =? k)) [
      | inl same ↦ rw (put, same) (p, h.1)
      | inr other ↦ rw (put, other) (h.0, All-put k v m p h.1)
    ]

    pub All-delete_where : (q : K → V → Bool) (m : Table K V) → All P m → All P (delete_where q m)
    unfolding delete_where
    All-delete_where q [] h = tt
    All-delete_where q ((j, w) ∷ m) h = elim (Bool-cases (q j w)) [
      | inl gone ↦ rw (delete_where, gone) (All-delete_where q m h.1)
      | inr kept ↦ rw (delete_where, kept) (h.0, All-delete_where q m h.1)
    ]

    -- the row that a lookup finds
    pub All-lookup : (k : K) (m : Table K V) (v : V) → All P m → lookup k m ≡ some v → P (k, v)
    unfolding lookup
    All-lookup k [] v h found = cc
    All-lookup k ((j, w) ∷ m) v h found = elim (Bool-cases (j =? k)) [
      | inl same ↦
          let value : w ≡ v = ground (arith, same) in rw (← (e.beq_iff j k).0 same, ← value) h.0
      | inr other ↦ All-lookup k m v h.1 (ground (arith, other))
    ]
