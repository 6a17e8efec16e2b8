-- ===== src/Slices.antt =====
-- The loop `for (let i = 0; i < xs.length; i += size) xs.slice(i, i + size)`, by which the
-- checkpoint store splits a payload into chunks and rows into batches.
pub mod Laws
use Prim.Native.Nat.{min}
use umbra_db.Prelude.{
  ℕ, zero, suc, ◌+◌, ◌-◌, List, [], ◌∷◌, ◌++◌, Option, none, some, length, take, drop, ltb,
  if◌then◌else◌,
}

module _ {ℓ} {A : Type ℓ} where
  -- xs.slice(a, b), xs.subarray(a, b) for a ≤ b
  abbrev pub slice : List A → ℕ → ℕ → List A
  slice xs a b = take (b - a) (drop a xs)

  abbrev pub cons_option : List A → Option (List (List A)) → Option (List (List A))
  cons_option x none = none
  cons_option x (some xs) = some (x ∷ xs)

  -- `none` means that the fuel ran out: with a size of 0 the source's loop would not end.
  unfoldable pub slices_loop : ℕ → ℕ → List A → ℕ → Option (List (List A))
  slices_loop zero size xs offset = none
  slices_loop (suc fuel) size xs offset =
      let rest = slices_loop fuel size xs (offset + size) in
      if ltb offset (length xs)
      then cons_option (slice xs offset (min (offset + size) (length xs))) rest
      else some []

  -- one round for each element at most, and one more to leave the loop
  unfoldable pub slices : ℕ → List A → Option (List (List A))
  slices size xs = slices_loop (suc (length xs)) size xs 0

  abbrev pub concat : List (List A) → List A
  concat [] = []
  concat (x ∷ xs) = x ++ concat xs
