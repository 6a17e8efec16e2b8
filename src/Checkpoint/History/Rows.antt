-- ===== src/Checkpoint/History/Rows.antt =====
-- Rows that stay in a list through the steps of the page query of `history`.
use umbra_db.Prelude.{
  ◌∙◌, ℕ, zero, suc, ◌≡◌, ◌≤◌, refl, ap, subst, Bool, true, List, [], ◌∷◌, ◌⊎◌, inl, inr,
  Bool-cases, All, All-map, filter, take, length, leb,
}
use umbra_db.Checkpoint.Tables.{Manifest}
use umbra_db.Checkpoint.Prune.{insert_by_seq, order_by_seq}

-- the row is in the list
abbrev pub Among : Manifest → List Manifest → Type 0
Among m [] = ⊥
Among m (n ∷ ns) = (n ≡ m) ⊎ Among m ns

-- newest first
abbrev pub Ordered : List Manifest → Type 0
Ordered [] = Unit
Ordered (m ∷ ms) = All (λ (n : Manifest). n.seq ≤ m.seq) ms × Ordered ms

pub All-Among : (ms : List Manifest) → All (λ m. Among m ms) ms
All-Among [] = tt
All-Among (m ∷ ms) = (inl refl, All-map (λ n h. inr h) ms (All-Among ms))

pub All-at :
    (P : Manifest → Type 0) (m : Manifest) (ms : List Manifest) → All P ms → Among m ms → P m
All-at P m [] h there = absurd there
All-at P m (n ∷ ns) h (inl same) = subst P same h.0
All-at P m (n ∷ ns) h (inr later) = All-at P m ns h.1 later

pub filter-both :
    (P : Manifest → Type 0) (p : Manifest → Bool) (ms : List Manifest)
    → All P ms
    → All (λ m. P m × (p m ≡ true)) (filter p ms)
filter-both P p [] h = tt
filter-both P p (m ∷ ms) h = elim (Bool-cases (p m)) [
  | inl kept ↦ rw kept ((h.0, kept), filter-both P p ms h.1)
  | inr gone ↦ rw gone (filter-both P p ms h.1)
]

pub Among-filter :
    (p : Manifest → Bool) (m : Manifest) (ms : List Manifest)
    → p m ≡ true
    → Among m ms
    → Among m (filter p ms)
Among-filter p m [] kept there = there
Among-filter p m (n ∷ ns) kept (inl same) =
    let own : p n ≡ true = ap p same ∙ kept in rw own (inl same)
Among-filter p m (n ∷ ns) kept (inr later) = elim (Bool-cases (p n)) [
  | inl here ↦ rw here (inr (Among-filter p m ns kept later))
  | inr gone ↦ rw gone (Among-filter p m ns kept later)
]

Among-insert :
    (m n : Manifest) (ms : List Manifest) → (n ≡ m) ⊎ Among m ms → Among m (insert_by_seq n ms)
unfolding insert_by_seq
Among-insert m n [] there = there
Among-insert m n (k ∷ ks) (inl same) = elim (Bool-cases (leb k.seq n.seq)) [
  | inl first ↦ rw (insert_by_seq, first) (inl same)
  | inr later ↦ rw (insert_by_seq, later) (inr (Among-insert m n ks (inl same)))
]
Among-insert m n (k ∷ ks) (inr (inl same)) = elim (Bool-cases (leb k.seq n.seq)) [
  | inl first ↦ rw (insert_by_seq, first) (inr (inl same))
  | inr later ↦ rw (insert_by_seq, later) (inl same)
]
Among-insert m n (k ∷ ks) (inr (inr rest)) = elim (Bool-cases (leb k.seq n.seq)) [
  | inl first ↦ rw (insert_by_seq, first) (inr (inr rest))
  | inr later ↦ rw (insert_by_seq, later) (inr (Among-insert m n ks (inr rest)))
]

pub Among-order : (m : Manifest) (ms : List Manifest) → Among m ms → Among m (order_by_seq ms)
unfolding order_by_seq
Among-order m [] there = there
Among-order m (n ∷ ns) (inl same) = Among-insert m n (order_by_seq ns) (inl same)
Among-order m (n ∷ ns) (inr later) =
    Among-insert m n (order_by_seq ns) (inr (Among-order m ns later))

-- a row that a full page leaves out is no newer than those of the page
pub Among-take :
    (m : Manifest) (n : ℕ) (ms : List Manifest)
    → Ordered ms
    → Among m ms
    → Among m (take n ms)
      ⊎ ((length (take n ms) ≡ n) × All (λ (k : Manifest). m.seq ≤ k.seq) (take n ms))
Among-take m zero ms o there = inr (refl, tt)
Among-take m (suc n) [] o there = absurd there
Among-take m (suc n) (k ∷ ks) o (inl same) = inl (inl same)
Among-take m (suc n) (k ∷ ks) o (inr later) = elim (Among-take m n ks o.1 later) [
  | inl kept ↦ inl (inr kept)
  | inr full ↦
      inr (ap suc full.0, (All-at (λ (j : Manifest). j.seq ≤ k.seq) m ks o.0 later, full.1))
]
