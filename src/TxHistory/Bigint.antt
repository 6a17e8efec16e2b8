-- ===== src/TxHistory/Bigint.antt =====
-- The decimal text of a `bigint`: `BigInt.prototype.toString`, CANONICAL_BIGINT_RE and
-- parseStoredBigint of src/postgres/transaction-history-storage.ts.
pub mod Decimal
use umbra_db.Prelude.{
  ℕ, zero, suc, ◌+◌, ◌-◌, ◌*◌, ◌/◌, ◌%◌, Bool, true, false, ◌&&◌, ◌||◌, List, [], ◌∷◌, ◌++◌, Text,
  leb, ltb, ◌==◌, all, ℤ, pos, negsuc, if◌then◌else◌,
}
use umbra_db.Errors.{storage, serialization_failed, Result, ok, fail}

-- the decimal digits of a number, one round for each digit
unfoldable pub digits : ℕ → ℕ → Text
digits zero n = []
digits (suc fuel) n =
    let front = digits fuel (n / 10) in
    if ltb n 10 then (b'0' + n) ∷ [] else front ++ (b'0' + n % 10) ∷ []

-- a number has fewer digits than its successor's value
unfoldable pub decimal : ℕ → Text
decimal n = digits (suc n) n

-- v.toString()
unfoldable pub bigint_text : ℤ → Text
bigint_text (pos n) = decimal n
bigint_text (negsuc n) = b'-' ∷ decimal (suc n)

-- \d
unfoldable pub is_digit : ℕ → Bool
is_digit c = leb b'0' c && leb c b'9'

-- (0|[1-9]\d*)$
unfoldable pub is_canonical_magnitude : Text → Bool
unfolding is_digit
is_canonical_magnitude [] = false
is_canonical_magnitude (c ∷ []) = is_digit c
is_canonical_magnitude (c ∷ s) = (leb b'1' c && leb c b'9') && all is_digit s

unfoldable pub is_minus : ℕ → Bool
is_minus c = c == b'-'

-- CANONICAL_BIGINT_RE.test(raw)
unfoldable pub is_canonical_bigint : Text → Bool
unfolding is_minus is_canonical_magnitude
is_canonical_bigint [] = false
is_canonical_bigint (c ∷ s) =
    if is_minus c then is_canonical_magnitude s else is_canonical_magnitude (c ∷ s)

-- the value of decimal digits, after those that gave `acc`
unfoldable pub read_digits : ℕ → Text → ℕ
read_digits acc [] = acc
read_digits acc (c ∷ s) = read_digits (acc * 10 + (c - b'0')) s

unfoldable pub negate : ℕ → ℤ
negate zero = pos 0
negate (suc n) = negsuc n

-- BigInt(raw), on the texts that CANONICAL_BIGINT_RE accepts
unfoldable pub read_bigint : Text → ℤ
unfolding is_minus
read_bigint [] = pos 0
read_bigint (c ∷ s) = if is_minus c then negate (read_digits 0 s) else pos (read_digits 0 (c ∷ s))

-- parseStoredBigint, on a string
unfoldable pub parse_stored_bigint : Text → Result ℤ
unfolding is_canonical_bigint read_bigint
parse_stored_bigint raw =
    if is_canonical_bigint raw then ok (read_bigint raw) else fail (storage serialization_failed)
