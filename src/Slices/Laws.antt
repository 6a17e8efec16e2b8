-- ===== src/Slices/Laws.antt =====
-- The slices that the loops of src/postgres/checkpoint-store.ts cut, against the list.
use Prim.Native.Nat.{min}
use umbra_db.Prelude.{
  ℕ, zero, suc, ◌+◌, ◌-◌, ◌≤◌, ◌<◌, ◌≡◌, refl, List, [], ◌∷◌, ◌++◌, some, length, take, drop, ltb,
  leb, arith, All, Bool-cases, inl, inr, take-append-drop, length-drop, length-take, ap, sym,
}
use mathlib.Core.List.{append-nil}
use native.Mathlib.Nat.{suc-add}
use umbra_db.Slices.{slice, slices_loop, slices, concat}

module _ {ℓ} {A : Type ℓ} where
  drop-nil : (n : ℕ) → drop n (let e : List A = [] in e) ≡ []
  drop-nil zero = refl
  drop-nil (suc n) = refl

  drop-drop : (a b : ℕ) (xs : List A) → drop b (drop a xs) ≡ drop (a + b) xs
  drop-drop zero b xs = ground arith
  drop-drop (suc a) b [] = rw (drop-nil b, drop-nil (suc a + b))
  drop-drop (suc a) b (x ∷ xs) = rw suc-add (drop-drop a b xs)

  take_long : (n : ℕ) (xs : List A) → length xs ≤ n → take n xs ≡ xs
  take_long zero [] h = refl
  take_long zero (x ∷ xs) h = absurd (omega arith)
  take_long (suc n) [] h = refl
  take_long (suc n) (x ∷ xs) h = ap (λ ys. x ∷ ys) (take_long n xs (omega arith))

  drop_long : (n : ℕ) (xs : List A) → length xs ≤ n → drop n xs ≡ []
  drop_long zero [] h = refl
  drop_long zero (x ∷ xs) h = absurd (omega arith)
  drop_long (suc n) [] h = refl
  drop_long (suc n) (x ∷ xs) h = drop_long n xs (omega arith)

  -- one slice and what follows it
  slice-append-drop :
      (size offset : ℕ) (xs : List A)
      → offset < length xs
      → slice xs offset (min (offset + size) (length xs)) ++ drop (offset + size) xs
        ≡ drop offset xs
  slice-append-drop size offset xs h = elim (Bool-cases (leb (offset + size) (length xs))) [
    | inl within ↦
        let m : min (offset + size) (length xs) - offset ≡ size = ground arith in
        rw (m, ← drop-drop offset size xs) (take-append-drop size (drop offset xs))
    | inr past ↦
        let m : min (offset + size) (length xs) - offset ≡ length xs - offset = ground arith in
        rw (m, drop_long (offset + size) xs (ground arith), append-nil)
          (take_long (length xs - offset) (drop offset xs) (omega (arith, length-drop offset xs)))
  ]

  length-slice :
      (size offset : ℕ) (xs : List A)
      → 0 < size
      → offset < length xs
      → (0 < length (slice xs offset (min (offset + size) (length xs))))
        × (length (slice xs offset (min (offset + size) (length xs))) ≤ size)
  length-slice size offset xs pos h =
      let n = min (offset + size) (length xs) - offset in
      (
        omega (arith, length-take n (drop offset xs), length-drop offset xs),
        omega (arith, length-take n (drop offset xs), length-drop offset xs),
      )

  -- What the slices from an offset on are.
  abbrev pub Covers : ℕ → List A → List (List A) → Type ℓ
  Covers size xs ys = (concat ys ≡ xs) × All (λ y. (0 < length y) × (length y ≤ size)) ys

  slices_loop-Covers :
      (fuel size : ℕ) (xs : List A) (offset : ℕ)
      → 0 < size
      → length xs - offset < fuel
      → (ys : List (List A)) × (slices_loop fuel size xs offset ≡ some ys)
        × Covers size (drop offset xs) ys
  unfolding slices_loop
  slices_loop-Covers zero size xs offset pos enough = absurd (omega arith)
  slices_loop-Covers (suc fuel) size xs offset pos enough =
      elim (Bool-cases (ltb offset (length xs))) [
        | inl more ↦
            let ih = slices_loop-Covers fuel size xs (offset + size) pos (ground arith) in
            (
              slice xs offset (min (offset + size) (length xs)) ∷ ih.0,
              rw (more, ih.1),
              (
                rw ih.2.0 (slice-append-drop size offset xs (ground arith)),
                (length-slice size offset xs pos (ground arith), ih.2.1),
              ),
            )
        | inr over ↦ ([], rw over, (sym (drop_long offset xs (ground arith)), tt))
      ]

  -- With a positive size the loop ends; the slices put together are the list, and each slice has
  -- at least one element and at most `size`.
  pub slices_cover :
      (size : ℕ) (xs : List A)
      → 0 < size
      → (ys : List (List A)) × (slices size xs ≡ some ys) × Covers size xs ys
  unfolding slices
  slices_cover size xs pos = slices_loop-Covers (suc (length xs)) size xs 0 pos (omega arith)
