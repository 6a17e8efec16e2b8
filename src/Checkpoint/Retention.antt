-- ===== src/Checkpoint/Retention.antt =====
-- The manifests that `prune` of src/postgres/checkpoint-store.ts leaves.
use umbra_db.Prelude.{
  ℕ, suc, ◌-◌, ◌≡◌, ◌≤◌, refl, ap, sym, ◌∙◌, Bool, true, false, not, ◌&&◌, List, [], ◌∷◌, Option,
  none, some, Option-cases, All, All-map, filter, filter_keep, filter_drop, filter_none, filter_all,
  filter_cong, filter_swap, filter-All, drop, leb, ltb, Bool-cases, inl, inr, arith, zero,
}
use umbra_db.Checkpoint.Tables.{WalletKey, wallet_key_beq, wallet_key_beq_iff, Manifest}
use umbra_db.Checkpoint.Load.{latest, newer, matches}
use umbra_db.Checkpoint.Prune.{insert_by_seq, order_by_seq, head_seq, cutoff, is_below, is_pruned}

latest_max :
    (xs : List Manifest) (k : Manifest)
    → latest xs ≡ some k
    → All (λ (n : Manifest). n.seq ≤ k.seq) xs
unfolding latest newer
latest_max [] k e = tt
latest_max (m ∷ []) k e = (ground (arith, e), tt)
latest_max (m ∷ n ∷ ms) k e =
    let j = newer n (latest ms) in
    let ih = latest_max (n ∷ ms) j refl in
    elim (Bool-cases (leb j.seq m.seq)) [
      | inl first ↦
          let same : m ≡ k = ground (arith, first) in
          (ground arith, All-map (λ q h. ground (arith, same)) (n ∷ ms) ih)
      | inr later ↦
          let same : j ≡ k = ground (arith, later) in
          (ground (arith, same), All-map (λ q h. ground (arith, same)) (n ∷ ms) ih)
    ]

pub insert_by_seq-All :
    (P : Manifest → Type 0) (m : Manifest) (xs : List Manifest)
    → P m
    → All P xs
    → All P (insert_by_seq m xs)
unfolding insert_by_seq
insert_by_seq-All P m [] p h = (p, tt)
insert_by_seq-All P m (n ∷ ns) p h = elim (Bool-cases (leb n.seq m.seq)) [
  | inl first ↦ rw (insert_by_seq, first) (p, h)
  | inr later ↦ rw (insert_by_seq, later) (h.0, insert_by_seq-All P m ns p h.1)
]

pub order_by_seq-All :
    (P : Manifest → Type 0) (xs : List Manifest) → All P xs → All P (order_by_seq xs)
unfolding order_by_seq
order_by_seq-All P [] h = tt
order_by_seq-All P (m ∷ ms) h =
    insert_by_seq-All P m (order_by_seq ms) h.0 (order_by_seq-All P ms h.1)

head_seq_of_drop :
    (n bound c : ℕ) (xs : List Manifest)
    → All (λ (m : Manifest). m.seq ≤ bound) xs
    → head_seq (drop n xs) ≡ some c
    → c ≤ bound
head_seq_of_drop zero bound c [] h e = cc
head_seq_of_drop zero bound c (m ∷ ms) h e = ground (arith, h.0)
head_seq_of_drop (suc n) bound c [] h e = cc
head_seq_of_drop (suc n) bound c (m ∷ ms) h e = head_seq_of_drop n bound c ms h.1 e

newer_first : (m j : Manifest) → leb j.seq m.seq ≡ true → newer m (some j) ≡ m
unfolding newer
newer_first m j h = rw (newer, h) refl

newer_later : (m j : Manifest) → leb j.seq m.seq ≡ false → newer m (some j) ≡ j
unfolding newer
newer_later m j h = rw (newer, h) refl

-- the rows below a bound that the newest row reaches can go
kept_newest :
    (c : ℕ) (xs : List Manifest) (k : Manifest)
    → latest xs ≡ some k
    → c ≤ k.seq
    → latest (filter (λ (m : Manifest). not (ltb m.seq c)) xs) ≡ some k
unfolding latest newer
kept_newest c [] k e h = cc
kept_newest c (m ∷ []) k e h = ground (arith, e)
kept_newest c (m ∷ n ∷ ms) k e h =
    let keep : Manifest → Bool = (λ m. not (ltb m.seq c)) in
    let j = newer n (latest ms) in
    elim (Bool-cases (leb j.seq m.seq)) [
      | inl first ↦
          let same : m ≡ k = ground (arith, first) in
          let here = ap latest (filter_keep keep m (n ∷ ms) (ground (arith, same))) in
          elim (Bool-cases (leb c j.seq)) [
            | inl reaches ↦
                here
                ∙ ap (λ o. some (newer m o)) (kept_newest c (n ∷ ms) j refl (ground arith))
                ∙ ap some (newer_first m j first ∙ same)
            | inr short ↦
                let gone : All (λ q. keep q ≡ false) (n ∷ ms) =
                  All-map (λ q at_most. ground arith) (n ∷ ms) (latest_max (n ∷ ms) j refl) in
                here
                ∙ ap (λ xs. some (newer m (latest xs))) (filter_none keep (n ∷ ms) gone)
                ∙ ap some same
          ]
      | inr later ↦
          let same : j ≡ k = ground (arith, later) in
          let ih = kept_newest c (n ∷ ms) j refl (ground (arith, same)) in
          elim (Bool-cases (keep m)) [
            | inl kept ↦
                ap latest (filter_keep keep m (n ∷ ms) kept)
                ∙ ap (λ o. some (newer m o)) ih
                ∙ ap some (newer_later m j later ∙ same)
            | inr gone ↦ ap latest (filter_drop keep m (n ∷ ms) gone) ∙ ih ∙ ap some same
          ]
    ]

-- the manifests of `key` that a prune to a cutoff leaves
abbrev pub left : WalletKey → Option ℕ → List Manifest → List Manifest
left key c ms = filter (λ m. not (is_pruned key c m)) ms

others_left :
    (key owner : WalletKey) (c : Option ℕ) (ms : List Manifest)
    → wallet_key_beq key owner ≡ false
    → filter (λ m. not (is_pruned key c m)) (filter (matches owner none) ms)
      ≡ filter (matches owner none) ms
unfolding is_pruned matches
others_left key owner c ms other = filter_all _ (filter (matches owner none) ms) (
    All-map
      (λ m h. ground (
        arith,
        wallet_key_beq_iff m.owner key,
        wallet_key_beq_iff m.owner owner,
        wallet_key_beq_iff key owner,
      ))
      (filter (matches owner none) ms) (filter-All (matches owner none) ms))

own_left :
    (key : WalletKey) (c : Option ℕ) (ms : List Manifest)
    → filter (λ m. not (is_pruned key c m)) (filter (matches key none) ms)
      ≡ filter (λ (m : Manifest). not (is_below c m.seq)) (filter (matches key none) ms)
unfolding is_pruned
own_left key c ms =
    filter_cong _ (λ m. not (is_below c m.seq)) (filter (matches key none) ms)
      (All-map (λ m h. ap (λ b. not (b && is_below c m.seq)) h) (filter (matches key none) ms)
        (filter-All (matches key none) ms))

no_newest : (xs : List Manifest) → latest xs ≡ none → xs ≡ []
unfolding latest
no_newest [] h = refl
no_newest (m ∷ ms) h = cc

own_newest :
    (key : WalletKey) (retain : ℕ) (ms : List Manifest) (c : Option ℕ)
    → cutoff key retain ms ≡ c
    → latest (filter (λ (m : Manifest). not (is_below c m.seq)) (filter (matches key none) ms))
      ≡ latest (filter (matches key none) ms)
unfolding cutoff
own_newest key retain ms none e = ap latest (
    filter_all (λ (m : Manifest). not (is_below none m.seq)) (filter (matches key none) ms)
      (All-map (λ m h. refl) (filter (matches key none) ms) (filter-All (matches key none) ms)))
own_newest key retain ms (some c) e =
    let mine = filter (matches key none) ms in
    elim (Option-cases (latest mine)) [
      | inl absent ↦ rw (no_newest mine absent) refl
      | inr (k, there) ↦
          let max = order_by_seq-All _ mine (latest_max mine k there) in
          kept_newest c mine k there
            (head_seq_of_drop (retain - 1) k.seq c (order_by_seq mine) max e)
          ∙ sym there
    ]

-- the newest manifest of every wallet is left
pub newest_left :
    (key owner : WalletKey) (retain : ℕ) (ms : List Manifest)
    → latest (filter (matches owner none) (left key (cutoff key retain ms) ms))
      ≡ latest (filter (matches owner none) ms)
newest_left key owner retain ms =
    let c = cutoff key retain ms in
    ap latest (filter_swap (matches owner none) (λ m. not (is_pruned key c m)) ms)
    ∙ elim (Bool-cases (wallet_key_beq key owner)) [
      | inr other ↦ ap latest (others_left key owner c ms other)
      | inl same ↦
          rw (← (wallet_key_beq_iff key owner).0 same)
            (ap latest (own_left key c ms) ∙ own_newest key retain ms c refl)
    ]
