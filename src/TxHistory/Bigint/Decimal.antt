-- ===== src/TxHistory/Bigint/Decimal.antt =====
-- The decimal text of a `bigint` and the strict parser of
-- src/postgres/transaction-history-storage.ts.
use umbra_db.Prelude.{
  ℕ, zero, suc, ◌+◌, ◌-◌, ◌*◌, ◌/◌, ◌%◌, ◌≤◌, ◌<◌, ◌≡◌, refl, sym, ap, ◌∙◌, ◌⊎◌, inl, inr, ◌↔◌,
  true, false, ◌&&◌, [], ◌∷◌, ◌++◌, Text, leb, ltb, ◌==◌, all, ℤ, pos, negsuc, Bool-cases, arith,
  units,
}
use umbra_db.Errors.{ok}
use umbra_db.TxHistory.Bigint.{
  digits, decimal, bigint_text, is_digit, is_canonical_magnitude, is_minus, is_canonical_bigint,
  read_digits, negate, read_bigint, parse_stored_bigint,
}

digits_fuel : (f g n : ℕ) → n < f → n < g → digits f n ≡ digits g n
unfolding digits
digits_fuel zero g n p q = absurd (omega arith)
digits_fuel (suc f) zero n p q = absurd (omega arith)
digits_fuel (suc f) (suc g) n p q = elim (Bool-cases (ltb n 10)) [
  | inl short ↦ rw short refl
  | inr long ↦ rw (long, digits_fuel f g (n / 10) (ground arith) (ground arith)) refl
]

-- the last digit
decimal_snoc : (n d : ℕ) → 1 ≤ n → d < 10 → decimal (n * 10 + d) ≡ decimal n ++ (b'0' + d) ∷ []
unfolding decimal digits
decimal_snoc n d p q =
    let long : ltb (n * 10 + d) 10 ≡ false = ground arith in
    let front : (n * 10 + d) / 10 ≡ n = omega arith in
    let last : (n * 10 + d) % 10 ≡ d = omega arith in
    rw (long, front, last, digits_fuel (n * 10 + d) (suc n) n (omega arith) (omega arith)) refl

append_assoc : (xs ys zs : Text) → (xs ++ ys) ++ zs ≡ xs ++ (ys ++ zs)
append_assoc [] ys zs = refl
append_assoc (x ∷ xs) ys zs = rw (append_assoc xs ys zs) refl

append_nil : (xs : Text) → xs ++ [] ≡ xs
append_nil [] = refl
append_nil (x ∷ xs) = rw (append_nil xs) refl

-- digits read after a positive number are its digits and they
read_digits-decimal :
    (n : ℕ) (s : Text) → 1 ≤ n → all is_digit s ≡ true → decimal (read_digits n s) ≡ decimal n ++ s
unfolding read_digits is_digit
read_digits-decimal n [] p h = sym (append_nil (decimal n))
read_digits-decimal n (c ∷ s) p h =
    let digit : b'0' + (c - b'0') ≡ c = ground arith in
    read_digits-decimal (n * 10 + (c - b'0')) s (ground arith) (ground arith)
    ∙ ap (λ t. t ++ s) (decimal_snoc n (c - b'0') p (ground arith))
    ∙ append_assoc (decimal n) ((b'0' + (c - b'0')) ∷ []) s
    ∙ ap (λ d. decimal n ++ d ∷ s) digit

decimal_digit : (d : ℕ) → d < 10 → decimal d ≡ (b'0' + d) ∷ []
unfolding decimal digits
decimal_digit d p = ground arith

-- a canonical magnitude is the text of its value
canonical-decimal : (s : Text) → is_canonical_magnitude s ≡ true → decimal (read_digits 0 s) ≡ s
unfolding is_canonical_magnitude is_digit read_digits
canonical-decimal [] h = cc
canonical-decimal (c ∷ []) h =
    let digit : b'0' + (c - b'0') ≡ c = ground arith in
    let start : 0 * 10 + (c - b'0') ≡ c - b'0' = omega arith in
    rw start (decimal_digit (c - b'0') (ground arith) ∙ ap (λ d. d ∷ []) digit)
canonical-decimal (c ∷ d ∷ s) h =
    let digit : b'0' + (c - b'0') ≡ c = ground arith in
    let start : 0 * 10 + (c - b'0') ≡ c - b'0' = omega arith in
    rw start (
      read_digits-decimal (c - b'0') (d ∷ s) (ground arith) (ground arith)
      ∙ ap (λ t. t ++ d ∷ s) (decimal_digit (c - b'0') (ground arith) ∙ ap (λ e. e ∷ []) digit))

read_digits-append :
    (n d : ℕ) (s : Text) → read_digits n (s ++ d ∷ []) ≡ read_digits n s * 10 + (d - b'0')
unfolding read_digits
read_digits-append n d [] = refl
read_digits-append n d (c ∷ s) = read_digits-append (n * 10 + (c - b'0')) d s

read_digits-digits : (f n : ℕ) → n < f → read_digits 0 (digits f n) ≡ n
unfolding digits read_digits
read_digits-digits zero n p = absurd (omega arith)
read_digits-digits (suc f) n p = elim (Bool-cases (ltb n 10)) [
  | inl short ↦ rw short (omega arith)
  | inr long ↦ rw long (
      omega (
        arith,
        read_digits-append 0 (b'0' + n % 10) (digits f (n / 10)),
        read_digits-digits f (n / 10) (ground arith),
      ))
]

-- a digit other than 0, and digits
abbrev IsLed : Text → Type 0
IsLed s =
    (c : ℕ) × (t : Text) × (s ≡ c ∷ t)
    × ((leb b'1' c && leb c b'9') ≡ true)
    × (all is_digit t ≡ true)

all_digits-append :
    (s : Text) (d : ℕ) → d < 10 → all is_digit s ≡ true → all is_digit (s ++ (b'0' + d) ∷ []) ≡ true
unfolding is_digit
all_digits-append [] d p h = ground arith
all_digits-append (c ∷ s) d p h = ground (arith, all_digits-append s d p)

digits-IsLed : (f n : ℕ) → 1 ≤ n → n < f → IsLed (digits f n)
unfolding digits
digits-IsLed zero n p q = absurd (omega arith)
digits-IsLed (suc f) n p q = elim (Bool-cases (ltb n 10)) [
  | inl short ↦ rw short (b'0' + n, [], refl, ground arith, refl)
  | inr long ↦
      let (c, t, whole, led, rest) = digits-IsLed f (n / 10) (ground arith) (ground arith) in
      rw (long, whole)
        (c, t ++ (b'0' + n % 10) ∷ [], refl, led, all_digits-append t (n % 10) (omega arith) rest)
]

led_canonical : (s : Text) → IsLed s → is_canonical_magnitude s ≡ true
unfolding is_canonical_magnitude is_digit
led_canonical s (c, [], whole, led, rest) = rw whole (ground arith)
led_canonical s (c, d ∷ t, whole, led, rest) = rw whole (ground arith)

decimal-canonical : (n : ℕ) → is_canonical_magnitude (decimal n) ≡ true
unfolding decimal is_canonical_magnitude digits is_digit
decimal-canonical zero = refl
decimal-canonical (suc n) =
    led_canonical (decimal (suc n)) (digits-IsLed (suc (suc n)) (suc n) (omega arith) (omega arith))

read_decimal : (n : ℕ) → read_digits 0 (decimal n) ≡ n
unfolding decimal
read_decimal n = read_digits-digits (suc n) n (omega arith)

-- the text of a number does not begin with a minus
decimal_unsigned : (n : ℕ) → (c : ℕ) × (t : Text) × (decimal n ≡ c ∷ t) × (is_minus c ≡ false)
unfolding decimal digits is_minus
decimal_unsigned zero = (b'0', [], refl, refl)
decimal_unsigned (suc n) =
    let (c, t, whole, led, rest) = digits-IsLed (suc (suc n)) (suc n) (omega arith) (omega arith) in
    (c, t, whole, ground arith)

parse_text : (z : ℤ) → parse_stored_bigint (bigint_text z) ≡ ok z
unfolding parse_stored_bigint is_canonical_bigint read_bigint bigint_text is_minus negate
parse_text (pos n) =
    let (c, t, whole, unsigned) = decimal_unsigned n in
    let canonical : is_canonical_magnitude (c ∷ t) ≡ true = rw (← whole) (decimal-canonical n) in
    let value : read_digits 0 (c ∷ t) ≡ n = rw (← whole) (read_decimal n) in
    rw (whole, unsigned, canonical, value) refl
parse_text (negsuc n) = rw (decimal-canonical (suc n), read_decimal (suc n)) refl

decimal_zero : decimal 0 ≡ units "0"
unfolding decimal digits
decimal_zero = refl

negate_zero : negate 0 ≡ pos 0
unfolding negate
negate_zero = refl

bigint_text_pos : (n : ℕ) → decimal n ≡ bigint_text (pos n)
unfolding bigint_text
bigint_text_pos n = refl

negated : (n : ℕ) (s : Text) → decimal n ≡ s → (b'-' ∷ s ≡ bigint_text (negate n)) ⊎ (n ≡ 0)
unfolding bigint_text negate
negated zero s h = inr refl
negated (suc n) s h = inl (rw h refl)

accepted :
    (raw : Text) (z : ℤ)
    → parse_stored_bigint raw ≡ ok z
    → (is_canonical_bigint raw ≡ true) × (read_bigint raw ≡ z)
unfolding parse_stored_bigint
accepted raw z h = elim (Bool-cases (is_canonical_bigint raw)) [
  | inl matched ↦ (matched, cc (rw matched at h))
  | inr other ↦ absurd (cc (rw other at h))
]

parsed_text :
    (raw : Text) (z : ℤ)
    → parse_stored_bigint raw ≡ ok z
    → (raw ≡ bigint_text z) ⊎ ((raw ≡ units "-0") × (z ≡ pos 0))
unfolding is_canonical_bigint read_bigint is_minus
parsed_text [] z h = absurd (cc (accepted [] z h).0)
parsed_text (c ∷ s) z h =
    let (canonical, value) = accepted (c ∷ s) z h in
    elim (Bool-cases (c == b'-')) [
      | inl signed ↦
          let whole : c ∷ s ≡ b'-' ∷ s = ap (λ d. d ∷ s) (ground arith) in
          let same : decimal (read_digits 0 s) ≡ s = canonical-decimal s (rw signed at canonical) in
          let number : negate (read_digits 0 s) ≡ z = rw signed at value in
          elim (negated (read_digits 0 s) s same) [
            | inl text ↦ inl (whole ∙ text ∙ ap bigint_text number)
            | inr none_left ↦ inr (
              whole ∙ ap (λ t. b'-' ∷ t) (sym same ∙ ap decimal none_left ∙ decimal_zero),
              sym number ∙ ap negate none_left ∙ negate_zero,
            )
          ]
      | inr unsigned ↦
          let number : pos (read_digits 0 (c ∷ s)) ≡ z = rw unsigned at value in
          inl (
            sym (canonical-decimal (c ∷ s) (rw unsigned at canonical))
            ∙ bigint_text_pos (read_digits 0 (c ∷ s))
            ∙ ap bigint_text number)
    ]

minus_zero : parse_stored_bigint (units "-0") ≡ ok (pos 0)
unfolding parse_stored_bigint is_canonical_bigint read_bigint is_minus negate is_canonical_magnitude
    is_digit read_digits
minus_zero = refl

-- The strict parser gives a number exactly for its decimal text, and 0 for "-0" too: no other text
-- is accepted, and none is read as another number.
pub parse_stored_bigint_iff :
    (raw : Text) (z : ℤ)
    → (parse_stored_bigint raw ≡ ok z)
      ↔ ((raw ≡ bigint_text z) ⊎ ((raw ≡ units "-0") × (z ≡ pos 0)))
parse_stored_bigint_iff raw z = (
  parsed_text raw z,
  λ h. elim h [ inl text ↦ rw text (parse_text z) | inr odd ↦ rw (odd.0, odd.1) minus_zero ],
)
