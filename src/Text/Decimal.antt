-- ===== src/Text/Decimal.antt =====
-- strconv.Itoa: the number can be read back from its digits, whatever stands behind them.
use egresswall.Common.{
  ℕ, zero, suc, ◌+◌, ◌-◌, ◌*◌, ◌/◌, ◌%◌, ◌<◌, [], ◌∷◌, ◌++◌, ◌≡◌, ap, ◌∙◌, arith, ltb, Bool-cases,
  inl, inr,
}
use egresswall.Common.{◌≤◌, true, false, ◌||◌, is_nil, some, refl, ◌==◌}
use egresswall.Text.{
  Text, digits_from, itoa, uint_step, uint_loop, parse_uint, digit_value, contains_byte,
}

-- The text read as a number, from what is read so far.
unfoldable pub value : ℕ → Text → ℕ
value v [] = v
value v (c ∷ s) = value (v * 10 + (c - b'0')) s

value-digits_from :
    (f n : ℕ) (acc suf : Text) → n < f → value 0 (digits_from f n acc ++ suf) ≡ value n (acc ++ suf)
unfolding value digits_from
value-digits_from zero n acc suf h = ground arith
value-digits_from (suc f) n acc suf h = elim (Bool-cases (ltb n 10)) [
  | inl small ↦ rw (small, digits_from) (ground arith)
  | inr large ↦
      rw (large, digits_from)
        (value-digits_from f (n / 10) ((b'0' + n % 10) ∷ acc) suf (ground arith)
          ∙ ap (λ v. value v (acc ++ suf)) (omega arith))
]

pub value-itoa : (n : ℕ) (suf : Text) → value 0 (itoa n ++ suf) ≡ value n suf
unfolding itoa
value-itoa n suf = value-digits_from (n + 1) n [] suf (omega arith)

uint_step-digit :
    (most n d : ℕ) → d < 10 → n * 10 + d ≤ most → uint_step 10 most n (b'0' + d) ≡ some (n * 10 + d)
unfolding uint_step digit_value
uint_step-digit most n d h k = ground arith

uint_loop-digits_from :
    (most f n : ℕ) (acc : Text)
    → n < f
    → n ≤ most
    → uint_loop 10 most 0 (digits_from f n acc) ≡ uint_loop 10 most n acc
unfolding uint_loop digits_from
uint_loop-digits_from most zero n acc h k = absurd (omega arith)
uint_loop-digits_from most (suc f) n acc h k = elim (Bool-cases (ltb n 10)) [
  | inl one ↦
      rw (one, uint_loop, uint_step-digit most 0 n (ground arith) (omega arith))
        (ap (λ m. uint_loop 10 most m acc) (omega arith))
  | inr more ↦
      (let last : n / 10 * 10 + n % 10 ≡ n = omega arith in
        rw
          (
            more,
            uint_loop-digits_from most f (n / 10) ((b'0' + n % 10) ∷ acc) (ground arith)
                (omega arith),
            uint_loop,
            uint_step-digit most (n / 10) (n % 10) (omega arith) (omega arith),
            last,
          )
          refl)
]

is_nil-digits_from : (f n c : ℕ) (acc : Text) → is_nil (digits_from f n (c ∷ acc)) ≡ false
unfolding digits_from
is_nil-digits_from zero n c acc = refl
is_nil-digits_from (suc f) n c acc =
    ground (arith, is_nil-digits_from f (n / 10) (b'0' + n % 10) (c ∷ acc))

is_nil-itoa : (n : ℕ) → is_nil (itoa n) ≡ false
unfolding itoa digits_from
is_nil-itoa n = by_fuel (n + 1) (omega arith)
  where
    by_fuel : (f : ℕ) → 0 < f → is_nil (digits_from f n []) ≡ false
    by_fuel zero h = absurd (omega arith)
    by_fuel (suc f) h = ground (arith, is_nil-digits_from f (n / 10) (b'0' + n % 10) [])

parse_uint-loop :
    (most : ℕ) (s : Text) → is_nil s ≡ false → parse_uint 10 most s ≡ uint_loop 10 most 0 s
unfolding parse_uint
parse_uint-loop most [] h = cc
parse_uint-loop most (c ∷ s) h = refl

-- What itoa prints, ParseUint reads.
pub parse_uint-itoa : (most n : ℕ) → n ≤ most → parse_uint 10 most (itoa n) ≡ some n
unfolding itoa uint_loop
parse_uint-itoa most n h =
    parse_uint-loop most (itoa n) (is_nil-itoa n)
    ∙ uint_loop-digits_from most (n + 1) n [] (omega arith) h

-- No byte but a digit is printed.
digit_bytes :
    (b f n : ℕ) (acc : Text)
    → (ltb b b'0' || ltb b'9' b) ≡ true
    → contains_byte b acc ≡ false
    → contains_byte b (digits_from f n acc) ≡ false
unfolding contains_byte digits_from
digit_bytes b zero n acc h k = k
digit_bytes b (suc f) n acc h k =
    let unlike : ((b'0' + n % 10) == b) ≡ false = ground arith in
    ground (arith, digit_bytes b f (n / 10) ((b'0' + n % 10) ∷ acc) h (ground arith))

pub contains_byte-itoa :
    (b n : ℕ) → (ltb b b'0' || ltb b'9' b) ≡ true → contains_byte b (itoa n) ≡ false
unfolding itoa contains_byte
contains_byte-itoa b n h = digit_bytes b (n + 1) n [] h refl
