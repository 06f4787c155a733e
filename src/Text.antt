-- ===== src/Text.antt =====
-- Go strings as lists of bytes, with what the program uses of the packages strings and strconv.
-- On bytes above 127 `lower` and the trimming of space leave the text as it is: the Unicode cases
-- of strings.ToLower, strings.TrimSpace and strings.Fields are outside the model.
pub mod Laws
pub mod Decimal
use Prim.Native.Char.{code}
use Prim.Native.String.{String}
use egresswall.Common.{
  ℕ, zero, suc, ◌+◌, ◌-◌, ◌*◌, ◌/◌, ◌%◌, Bool, true, false, not, ◌&&◌, ◌||◌, List, [], ◌∷◌, ◌++◌,
  map, Option, none, some, ◌≡◌, ◌↔◌, ltb, leb, ◌==◌, if◌then◌else◌, length, drop, take, any, is_nil,
  Key, arith,
}

abbrev pub Text : Type 0
Text = List ℕ

-- A literal, byte by byte; every literal of the development is ASCII.
abbrev pub codes : String → Text
codes String.[] = []
codes (String.◌∷◌ c s) = code c ∷ codes s

-- `==` on strings.
abbrev pub text_eq : Text → Text → Bool
text_eq [] [] = true
text_eq (x ∷ xs) (y ∷ ys) = x == y && text_eq xs ys
text_eq _ _ = false

pub text_eq_iff : (a b : Text) → (text_eq a b ≡ true) ↔ (a ≡ b)
text_eq_iff (x ∷ a) (y ∷ b) = ground (arith, text_eq_iff a b)
text_eq_iff _ _ = ground arith

instance abbrev pub text_key : Key Text
text_key = record { same = text_eq; same_iff = text_eq_iff }

-- `<` on strings: byte by byte, a proper prefix first.
unfoldable pub text_lt : Text → Text → Bool
text_lt [] [] = false
text_lt [] (y ∷ ys) = true
text_lt (x ∷ xs) [] = false
text_lt (x ∷ xs) (y ∷ ys) = ltb x y || (x == y && text_lt xs ys)

unfoldable pub lower_byte : ℕ → ℕ
lower_byte c = if leb b'A' c && leb c b'Z' then c + 32 else c

unfoldable pub lower : Text → Text
unfolding lower_byte
lower = map lower_byte

-- '\t' '\n' '\v' '\f' '\r' and the blank.
unfoldable pub is_space : ℕ → Bool
is_space c = (leb 9 c && leb c 13) || c == 32

unfoldable pub trim_start : (ℕ → Bool) → Text → Text
trim_start p [] = []
trim_start p (c ∷ s) = if p c then trim_start p s else c ∷ s

unfoldable pub trim_end : (ℕ → Bool) → Text → Text
trim_end p [] = []
trim_end p (c ∷ s) = let r = trim_end p s in if p c && is_nil r then [] else c ∷ r

unfoldable pub trim_both : (ℕ → Bool) → Text → Text
unfolding trim_start trim_end
trim_both p s = trim_end p (trim_start p s)

unfoldable pub trim_space : Text → Text
unfolding trim_both is_space
trim_space = trim_both is_space

unfoldable pub has_prefix : Text → Text → Bool
has_prefix s [] = true
has_prefix [] (y ∷ p) = false
has_prefix (x ∷ s) (y ∷ p) = x == y && has_prefix s p

-- `len(s) >= len(suffix) && s[len(s)-len(suffix):] == suffix`
unfoldable pub has_suffix : Text → Text → Bool
has_suffix s suf = leb (length suf) (length s) && text_eq (drop (length s - length suf) s) suf

unfoldable pub trim_suffix : Text → Text → Text
unfolding has_suffix
trim_suffix s suf = if has_suffix s suf then take (length s - length suf) s else s

unfoldable pub contains_byte : ℕ → Text → Bool
contains_byte b = any (λ c. c == b)

-- `strings.Cut`: the text before and after the first `sep`.
unfoldable pub cut : Text → Text → Option (Text × Text)
unfolding has_prefix
cut sep [] = if is_nil sep then some ([], []) else none
cut sep (c ∷ s) =
    let rest = cut sep s in
    if has_prefix (c ∷ s) sep
    then some ([], drop (length sep) (c ∷ s))
    else elim rest [ none ↦ none | some (before, after) ↦ some (c ∷ before, after) ]

abbrev push_head : ℕ → List Text → List Text
push_head c [] = (c ∷ []) ∷ []
push_head c (part ∷ parts) = (c ∷ part) ∷ parts

-- `strings.Split` at a separator of one byte.
unfoldable pub split : ℕ → Text → List Text
split b [] = [] ∷ []
split b (c ∷ s) = let parts = split b s in if c == b then [] ∷ parts else push_head c parts

abbrev keep_words : List Text → List Text
keep_words [] = []
keep_words (w ∷ ws) = let rest = keep_words ws in if is_nil w then rest else w ∷ rest

unfoldable pub split_space : Text → List Text
unfolding is_space
split_space [] = [] ∷ []
split_space (c ∷ s) =
    let parts = split_space s in if is_space c then [] ∷ parts else push_head c parts

-- `strings.Fields`
unfoldable pub fields : Text → List Text
unfolding split_space
fields s = keep_words (split_space s)

unfoldable pub count_byte : ℕ → Text → ℕ
count_byte b [] = 0
count_byte b (c ∷ s) = (if c == b then 1 else 0) + count_byte b s

-- `strings.Join`
unfoldable pub join : Text → List Text → Text
join sep [] = []
join sep (s ∷ []) = s
join sep (s ∷ t ∷ ts) = s ++ (sep ++ join sep (t ∷ ts))

-- The value of a digit in the bases up to 36, upper or lower case.
unfoldable pub digit_value : ℕ → Option ℕ
digit_value c =
    if leb b'0' c && leb c b'9'
    then some (c - b'0')
    else if leb b'a' c && leb c b'z'
    then some (c - b'a' + 10)
    else if leb b'A' c && leb c b'Z'
    then some (c - b'A' + 10)
    else none

-- One round of strconv.ParseUint: `n` is what is read so far.
unfoldable pub uint_step : ℕ → ℕ → ℕ → ℕ → Option ℕ
unfolding digit_value
uint_step base most n c = elim (digit_value c) [
  | none ↦ none
  | some d ↦ if leb base d || ltb most (n * base + d) then none else some (n * base + d)
]

unfoldable pub uint_loop : ℕ → ℕ → ℕ → Text → Option ℕ
unfolding uint_step
uint_loop base most n [] = some n
uint_loop base most n (c ∷ s) = elim (uint_step base most n c) [
  | none ↦ none
  | some m ↦ uint_loop base most m s
]

-- strconv.ParseUint for the bases 10 and 16; `most` is the largest number of the bit size.
unfoldable pub parse_uint : ℕ → ℕ → Text → Option ℕ
unfolding uint_loop
parse_uint base most [] = none
parse_uint base most (c ∷ s) = uint_loop base most 0 (c ∷ s)

-- Decimal digits, the last one first found; `n + 1` rounds are more than its digits.
unfoldable pub digits_from : ℕ → ℕ → Text → Text
digits_from zero n acc = acc
digits_from (suc f) n acc =
    let more = digits_from f (n / 10) ((b'0' + n % 10) ∷ acc) in
    if ltb n 10 then (b'0' + n) ∷ acc else more

-- strconv.Itoa of a natural number.
unfoldable pub itoa : ℕ → Text
unfolding digits_from
itoa n = digits_from (n + 1) n []
