-- ===== src/Checkpoint/History/Page.antt =====
-- What a page of `history` lists.
use umbra_db.Prelude.{
  Option, ◌⊎◌, ◌∙◌, ℕ, zero, suc, ◌≡◌, ◌≤◌, ◌<◌, refl, ap, Bool, true, ◌&&◌, List, [], ◌∷◌, none,
  some, Bool-cases, inl, inr, All, All-map, filter, take, length, length-take, leb, arith,
}
use umbra_db.Errors.{Result-cases, ok}
use umbra_db.Checkpoint.History.Rows.{
  Among, Ordered, All-Among, filter-both, Among-filter, Among-order, Among-take,
}
use umbra_db.Checkpoint.Tables.{wallet_key_beq_iff, WalletKey, Manifest, CkptTables}
use umbra_db.Checkpoint.Save.{Summary, to_summary, coerce_to_safe_number}
use umbra_db.Checkpoint.Load.{matches}
use umbra_db.Checkpoint.Prune.{insert_by_seq, order_by_seq}
use umbra_db.Checkpoint.Retention.{order_by_seq-All, insert_by_seq-All}
use umbra_db.Checkpoint.History.{
  HistoryOptions, is_before, page, summary_of_row, summaries, history_impl,
}

-- newest first
abbrev pub Descending : List Summary → Type 0
Descending [] = Unit
Descending (s ∷ ss) = All (λ (r : Summary). r.sequence ≤ s.sequence) ss × Descending ss

insert_by_seq-Ordered :
    (m : Manifest) (ms : List Manifest) → Ordered ms → Ordered (insert_by_seq m ms)
unfolding insert_by_seq
insert_by_seq-Ordered m [] o = (tt, tt)
insert_by_seq-Ordered m (n ∷ ns) o = elim (Bool-cases (leb n.seq m.seq)) [
  | inl first ↦ rw (insert_by_seq, first) ((ground arith, All-map (λ k h. ground arith) ns o.0), o)
  | inr later ↦
      rw (insert_by_seq, later)
        (
          insert_by_seq-All (λ (k : Manifest). k.seq ≤ n.seq) m ns (ground arith) o.0,
          insert_by_seq-Ordered m ns o.1,
        )
]

order_by_seq-Ordered : (ms : List Manifest) → Ordered (order_by_seq ms)
unfolding order_by_seq
order_by_seq-Ordered [] = tt
order_by_seq-Ordered (m ∷ ms) = insert_by_seq-Ordered m (order_by_seq ms) (order_by_seq-Ordered ms)

All-take : (P : Manifest → Type 0) (n : ℕ) (ms : List Manifest) → All P ms → All P (take n ms)
All-take P zero ms h = tt
All-take P (suc n) [] h = tt
All-take P (suc n) (m ∷ ms) h = (h.0, All-take P n ms h.1)

take-Ordered : (n : ℕ) (ms : List Manifest) → Ordered ms → Ordered (take n ms)
take-Ordered zero ms o = tt
take-Ordered (suc n) [] o = tt
take-Ordered (suc n) (m ∷ ms) o = (All-take _ n ms o.0, take-Ordered n ms o.1)

summary_of_row-sequence :
    (t : CkptTables) (m : Manifest) (s : Summary) → summary_of_row t m ≡ ok s → s.sequence ≡ m.seq
unfolding summary_of_row to_summary coerce_to_safe_number
summary_of_row-sequence t m s h = ground arith

summaries_inv :
    (t : CkptTables) (m : Manifest) (ms : List Manifest) (ss : List Summary)
    → summaries t (m ∷ ms) ≡ ok ss
    → (s : Summary) × (rest : List Summary) × (ss ≡ s ∷ rest)
      × (s.sequence ≡ m.seq)
      × (summaries t ms ≡ ok rest)
      × (summary_of_row t m ≡ ok s)
unfolding summaries
summaries_inv t m ms ss e = elim (Result-cases (summary_of_row t m)) [
  | inr (x, bad) ↦ absurd (ground (arith, bad))
  | inl (s, row) ↦ elim (Result-cases (summaries t ms)) [
    | inr (x, bad) ↦ absurd (ground (arith, row, bad))
    | inl (rest, tail) ↦
        (s, rest, ground (arith, row, tail), summary_of_row-sequence t m s row, tail, row)
  ]
]

-- the summaries carry the sequences of the rows
summaries-All :
    (P : ℕ → Type 0) (t : CkptTables) (ms : List Manifest) (ss : List Summary)
    → summaries t ms ≡ ok ss
    → All (λ (m : Manifest). P m.seq) ms
    → All (λ (s : Summary). P s.sequence) ss
unfolding summaries
summaries-All P t [] [] e h = tt
summaries-All P t [] (s ∷ ss) e h = cc
summaries-All P t (m ∷ ms) ss e h =
    let i = summaries_inv t m ms ss e in rw i.2 (rw i.3 h.0, summaries-All P t ms i.1 i.4 h.1)

summaries-Descending :
    (t : CkptTables) (ms : List Manifest) (ss : List Summary)
    → summaries t ms ≡ ok ss
    → Ordered ms
    → Descending ss × (length ss ≡ length ms)
unfolding summaries
summaries-Descending t [] [] e o = (tt, refl)
summaries-Descending t [] (s ∷ ss) e o = cc
summaries-Descending t (m ∷ ms) ss e o =
    let i = summaries_inv t m ms ss e in
    let ih = summaries-Descending t ms i.1 i.4 o.1 in
    rw i.2 ((rw i.3 (summaries-All (λ n. n ≤ m.seq) t ms i.1 i.4 o.0), ih.0), ap suc ih.1)

-- each summary is that of a row
summaries-Rows :
    (P : Manifest → Type 0) (t : CkptTables) (ms : List Manifest) (ss : List Summary)
    → summaries t ms ≡ ok ss
    → All P ms
    → All (λ (s : Summary). (m : Manifest) × P m × (summary_of_row t m ≡ ok s)) ss
unfolding summaries
summaries-Rows P t [] [] e h = tt
summaries-Rows P t [] (s ∷ ss) e h = cc
summaries-Rows P t (m ∷ ms) ss e h =
    let i = summaries_inv t m ms ss e in rw i.2 ((m, h.0, i.5), summaries-Rows P t ms i.1 i.4 h.1)

-- a sequence is listed
abbrev pub Has : ℕ → List Summary → Type 0
Has n [] = ⊥
Has n (s ∷ ss) = (s.sequence ≡ n) ⊎ Has n ss

summaries-Has :
    (m : Manifest) (t : CkptTables) (ms : List Manifest) (ss : List Summary)
    → summaries t ms ≡ ok ss
    → Among m ms
    → Has m.seq ss
summaries-Has m t [] ss e there = absurd there
summaries-Has m t (n ∷ ms) ss e (inl same) =
    let i = summaries_inv t n ms ss e in rw i.2 (inl (i.3 ∙ ap (λ (k : Manifest). k.seq) same))
summaries-Has m t (n ∷ ms) ss e (inr later) =
    let i = summaries_inv t n ms ss e in rw i.2 (inr (summaries-Has m t ms i.1 i.4 later))

-- strictly older than the bound, if there is one
abbrev pub IsOlder : Option ℕ → ℕ → Type 0
IsOlder none n = Unit
IsOlder (some b) n = n < b

-- a complete checkpoint of the wallet, older than the bound
abbrev pub IsListed : WalletKey → Option ℕ → Manifest → Type 0
IsListed key before m = (m.owner ≡ key) × (m.complete ≡ true) × IsOlder before m.seq

-- why a page may lack a row
abbrev pub IsLeftOut : WalletKey → HistoryOptions → List Summary → Manifest → Type 0
IsLeftOut key opts ss m =
    ¬ IsListed key opts.before m
    ⊎ ((length ss ≡ opts.limit) × All (λ (s : Summary). m.seq ≤ s.sequence) ss)

is_before-IsOlder : (b : Option ℕ) (n : ℕ) → is_before b n ≡ true → IsOlder b n
unfolding is_before
is_before-IsOlder none n h = tt
is_before-IsOlder (some b) n h = ground arith

IsOlder-is_before : (b : Option ℕ) (n : ℕ) → IsOlder b n → is_before b n ≡ true
unfolding is_before
IsOlder-is_before none n h = refl
IsOlder-is_before (some b) n h = ground arith

abbrev is_listed : WalletKey → Option ℕ → Manifest → Bool
is_listed key before m = matches key none m && is_before before m.seq

is_listed-IsListed :
    (key : WalletKey) (before : Option ℕ) (m : Manifest)
    → is_listed key before m ≡ true
    → IsListed key before m
unfolding matches
is_listed-IsListed key before m h = (
  (wallet_key_beq_iff m.owner key).0 (ground arith),
  ground arith,
  is_before-IsOlder before m.seq (ground arith),
)

IsListed-is_listed :
    (key : WalletKey) (before : Option ℕ) (m : Manifest)
    → IsListed key before m
    → is_listed key before m ≡ true
unfolding matches
IsListed-is_listed key before m (own, complete, older) =
    rw ((wallet_key_beq_iff m.owner key).1 own, complete, IsOlder-is_before before m.seq older) refl

-- A page that `history` returns, with a `before` or without: it has at most `limit` entries, newest
-- first; each entry is the summary of a complete checkpoint of the wallet, strictly older than
-- `before` if that is given; and a row of the manifests that is not in it is no such checkpoint, or
-- the page is full and the row is no newer than any of its entries.
pub history_pages :
    (key : WalletKey) (opts : HistoryOptions) (t : CkptTables) (ss : List Summary)
    → history_impl key opts t ≡ ok ss
    → (length ss ≤ opts.limit)
      × Descending ss
      × All
          (λ (s : Summary).
            (m : Manifest) × (Among m t.manifests × IsListed key opts.before m)
            × (summary_of_row t m ≡ ok s))
          ss
      × All (λ (m : Manifest). Has m.seq ss ⊎ IsLeftOut key opts ss m) t.manifests
unfolding history_impl page
history_pages key opts t ss e =
    let found = filter (is_listed key opts.before) t.manifests in
    let o = order_by_seq-Ordered found in
    let paged = take opts.limit (order_by_seq found) in
    let d = summaries-Descending t paged ss e (take-Ordered opts.limit (order_by_seq found) o) in
    let listed = All-take _ opts.limit (order_by_seq found) (
      order_by_seq-All _ found (
        All-map (λ m h. (h.0, is_listed-IsListed key opts.before m h.1)) found
          (filter-both _ (is_listed key opts.before) t.manifests (All-Among t.manifests)))) in
    (
      omega (arith, d.1, length-take opts.limit (order_by_seq found)),
      d.0,
      summaries-Rows _ t paged ss e listed,
      All-map (λ m there. placed m there) t.manifests (All-Among t.manifests),
    )
  where
    full :
        (m : Manifest) (ms : List Manifest)
        → summaries t ms ≡ ok ss
        → Ordered ms
        → (length ms ≡ opts.limit) × All (λ (k : Manifest). m.seq ≤ k.seq) ms
        → Has m.seq ss ⊎ IsLeftOut key opts ss m
    full m ms e' o (count, newer) = inr (
        inr (
          (summaries-Descending t ms ss e' o).1 ∙ count,
          summaries-All (λ n. m.seq ≤ n) t ms ss e' newer,
        ))

    placed : (m : Manifest) → Among m t.manifests → Has m.seq ss ⊎ IsLeftOut key opts ss m
    placed m there = elim (Bool-cases (is_listed key opts.before m)) [
      | inr out ↦ inr (inl (λ lists. absurd (cc (IsListed-is_listed key opts.before m lists, out))))
      | inl listed ↦
          let found = filter (is_listed key opts.before) t.manifests in
          let o = order_by_seq-Ordered found in
          let paged = take opts.limit (order_by_seq found) in
          elim (Among-take m opts.limit (order_by_seq found) o (
            Among-order m found
              (Among-filter (is_listed key opts.before) m t.manifests listed there))) [
                | inl kept ↦ inl (summaries-Has m t paged ss e kept)
                | inr rest ↦ full m paged e (take-Ordered opts.limit (order_by_seq found) o) rest
              ]
    ]
