-- ===== src/Table/Distinct.antt =====
-- Tables in which no key has two rows.
use umbra_db.Prelude.{
  ◌≡◌, refl, ap, Bool, false, [], ◌∷◌, Option, none, some, arith, Eq, ◌=?◌, if◌then◌else◌,
  Bool-cases, inl, inr,
}
use umbra_db.Table.{Table, lookup, put, delete_where, lookup-put_ne}

flipped {ℓ} : {K : Type ℓ} ⦃e : Eq K⦄ (k j : K) → (j =? k) ≡ false → (k =? j) ≡ false
flipped ⦃e⦄ k j other = ground (arith, other, e.beq_iff k j, e.beq_iff j k)

module _ {ℓ} {K V : Type ℓ} ⦃e : Eq K⦄ where
  abbrev pub Distinct : Table K V → Type ℓ
  Distinct [] = Unit
  Distinct ((k, v) ∷ m) = (lookup k m ≡ none) × Distinct m

  -- what DELETE leaves of the row under a key
  abbrev pub spared : (K → V → Bool) → K → Option V → Option V
  spared p k none = none
  spared p k (some v) = if p k v then none else some v

  delete_absent :
      (p : K → V → Bool) (k : K) (m : Table K V)
      → lookup k m ≡ none
      → lookup k (delete_where p m) ≡ none
  unfolding lookup delete_where
  delete_absent p k [] h = refl
  delete_absent p k ((j, w) ∷ m) h = elim (Bool-cases (j =? k)) [
    | inl same ↦ absurd (ground (arith, same))
    | inr other ↦ ground (arith, delete_absent p k m (ground arith))
  ]

  pub lookup-delete_where :
      (p : K → V → Bool) (k : K) (m : Table K V)
      → Distinct m
      → lookup k (delete_where p m) ≡ spared p k (lookup k m)
  unfolding lookup delete_where
  lookup-delete_where p k [] d = refl
  lookup-delete_where p k ((j, w) ∷ m) d = elim (Bool-cases (j =? k)) [
    | inl same ↦ ground (
      arith,
      same,
      (e.beq_iff j k).0 same,
      delete_absent p j m d.0,
      ap (λ i. lookup i (delete_where p m)) ((e.beq_iff j k).0 same),
      ap (λ i. p i w) ((e.beq_iff j k).0 same),
    )
    | inr other ↦ ground (arith, other, lookup-delete_where p k m d.1)
  ]

  pub Distinct-put : (k : K) (v : V) (m : Table K V) → Distinct m → Distinct (put k v m)
  unfolding put
  Distinct-put k v [] d = (unfold lookup in refl, tt)
  Distinct-put k v ((j, w) ∷ m) d = elim (Bool-cases (j =? k)) [
    | inl same ↦ rw same (rw (← (e.beq_iff j k).0 same) d)
    | inr other ↦
        rw other (rw (lookup-put_ne k j v m (flipped k j other)) d.0, Distinct-put k v m d.1)
  ]

  pub Distinct-delete_where :
      (p : K → V → Bool) (m : Table K V) → Distinct m → Distinct (delete_where p m)
  unfolding delete_where
  Distinct-delete_where p [] d = tt
  Distinct-delete_where p ((j, w) ∷ m) d = elim (Bool-cases (p j w)) [
    | inl gone ↦ rw gone (Distinct-delete_where p m d.1)
    | inr kept ↦ rw kept (delete_absent p j m d.0, Distinct-delete_where p m d.1)
  ]
