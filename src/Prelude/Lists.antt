-- ===== src/Prelude/Lists.antt =====
-- Lists measured by native numbers, under the library's names, and Boolean filters.
use Prim.Native.Nat.{ℕ, zero, suc, ◌+◌, ◌-◌, min}
use mathlib.Core.Path.{◌≡◌, refl}
use mathlib.Core.Bool.{Bool, true, false, ◌&&◌, ◌||◌}
use mathlib.Core.List.{List, [], ◌∷◌, ◌++◌}
use native.Mathlib.Omega.{arith}
use mathlib.Core.Logic.{inl, inr}
use umbra_db.Prelude.Tests.{if◌then◌else◌, Bool-cases}

module _ {ℓ} {A : Type ℓ} where
  abbrev pub length : List A → ℕ
  length [] = 0
  length (x ∷ xs) = suc (length xs)

  pub length-append : (xs ys : List A) → length (xs ++ ys) ≡ length xs + length ys
  length-append [] ys = omega arith
  length-append (x ∷ xs) ys = omega (arith, length-append xs ys)

  abbrev pub take : ℕ → List A → List A
  take zero xs = []
  take (suc n) [] = []
  take (suc n) (x ∷ xs) = x ∷ take n xs

  abbrev pub drop : ℕ → List A → List A
  drop zero xs = xs
  drop (suc n) [] = []
  drop (suc n) (x ∷ xs) = drop n xs

  pub take-append-drop : (n : ℕ) (xs : List A) → take n xs ++ drop n xs ≡ xs
  take-append-drop zero xs = refl
  take-append-drop (suc n) [] = refl
  take-append-drop (suc n) (x ∷ xs) = rw (take-append-drop n xs)

  pub length-take : (n : ℕ) (xs : List A) → length (take n xs) ≡ min n (length xs)
  length-take zero xs = omega arith
  length-take (suc n) [] = omega arith
  length-take (suc n) (x ∷ xs) = omega (arith, length-take n xs)

  pub length-drop : (n : ℕ) (xs : List A) → length (drop n xs) ≡ length xs - n
  length-drop zero xs = omega arith
  length-drop (suc n) [] = omega arith
  length-drop (suc n) (x ∷ xs) = omega (arith, length-drop n xs)

  -- `filter` with a Boolean test, as `Array.filter` and a WHERE clause apply it.
  abbrev pub filter : (A → Bool) → List A → List A
  filter p [] = []
  filter p (x ∷ xs) = let rest = filter p xs in if p x then x ∷ rest else rest

  -- `Array.some` and `Array.every`.
  abbrev pub any : (A → Bool) → List A → Bool
  any p [] = false
  any p (x ∷ xs) = p x || any p xs

  abbrev pub all : (A → Bool) → List A → Bool
  all p [] = true
  all p (x ∷ xs) = p x && all p xs

-- A predicate of every element, by recursion.
abbrev pub All {ℓ κ} : {A : Type ℓ} → (A → Type κ) → List A → Type κ
All P [] = Unit
All P (x ∷ xs) = P x × All P xs

module _ {ℓ κ} {A : Type ℓ} where
  pub All-map : {P Q : A → Type κ} → ((a : A) → P a → Q a) → (xs : List A) → All P xs → All Q xs
  All-map f [] h = tt
  All-map f (x ∷ xs) h = (f x h.0, All-map f xs h.1)

  pub All_both : (P Q : A → Type κ) (xs : List A) → All P xs → All Q xs → All (λ x. P x × Q x) xs
  All_both P Q [] h g = tt
  All_both P Q (x ∷ xs) h g = ((h.0, g.0), All_both P Q xs h.1 g.1)

  pub All-append : (P : A → Type κ) (xs ys : List A) → All P xs → All P ys → All P (xs ++ ys)
  All-append P [] ys h g = g
  All-append P (x ∷ xs) ys h g = (h.0, All-append P xs ys h.1 g)

module _ {ℓ} {A : Type ℓ} (p : A → Bool) where
  pub filter_keep : (x : A) (xs : List A) → p x ≡ true → filter p (x ∷ xs) ≡ x ∷ filter p xs
  filter_keep x xs h = rw h refl

  pub filter_drop : (x : A) (xs : List A) → p x ≡ false → filter p (x ∷ xs) ≡ filter p xs
  filter_drop x xs h = rw h refl

  pub filter_none : (xs : List A) → All (λ x. p x ≡ false) xs → filter p xs ≡ []
  filter_none [] h = refl
  filter_none (x ∷ xs) h = rw h.0 (filter_none xs h.1)

  pub filter-append : (xs ys : List A) → filter p (xs ++ ys) ≡ filter p xs ++ filter p ys
  filter-append [] ys = refl
  filter-append (x ∷ xs) ys = ground (arith, filter-append xs ys)

  -- what is left passes the test
  pub filter-All : (xs : List A) → All (λ x. p x ≡ true) (filter p xs)
  filter-All [] = tt
  filter-All (x ∷ xs) = elim (Bool-cases (p x)) [
    | inl kept ↦ rw kept (kept, filter-All xs)
    | inr gone ↦ rw gone (filter-All xs)
  ]

  pub filter_all : (xs : List A) → All (λ x. p x ≡ true) xs → filter p xs ≡ xs
  filter_all [] h = refl
  filter_all (x ∷ xs) h = rw (h.0, filter_all xs h.1) refl

  pub filter_cong :
      (q : A → Bool) (xs : List A) → All (λ x. p x ≡ q x) xs → filter p xs ≡ filter q xs
  filter_cong q [] h = refl
  filter_cong q (x ∷ xs) h = rw (h.0, filter_cong q xs h.1) refl

  pub filter_swap : (q : A → Bool) (xs : List A) → filter p (filter q xs) ≡ filter q (filter p xs)
  filter_swap q [] = refl
  filter_swap q (x ∷ xs) = ground (arith, filter_swap q xs)

module _ {ℓ κ} {A : Type ℓ} (p : A → Bool) where
  pub All-filter : (P : A → Type κ) (xs : List A) → All P xs → All P (filter p xs)
  All-filter P [] h = tt
  All-filter P (x ∷ xs) h = elim (Bool-cases (p x)) [
    | inl kept ↦ rw kept (h.0, All-filter P xs h.1)
    | inr gone ↦ rw gone (All-filter P xs h.1)
  ]
