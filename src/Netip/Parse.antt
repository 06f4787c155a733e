-- ===== src/Netip/Parse.antt =====
-- `netip.ParseAddr` and `netip.ParsePrefix`; an error is `none`.
use egresswall.Common.{
  ℕ, zero, suc, ◌+◌, ◌-◌, ◌*◌, ◌/◌, ◌%◌, ◌^◌, ◌≡◌, refl, Bool, true, false, not, ◌&&◌, ◌||◌, List,
  [], ◌∷◌, ◌++◌, Option, none, some, leb, ltb, ◌==◌, if◌then◌else◌, length, take, drop, is_nil,
  Option-cases, inl, inr, arith,
}
use egresswall.Text.{Text, codes, split, cut, digit_value, parse_uint}
use egresswall.Netip.{Addr, v4, v6, Prefix, is4, is_valid}

infixl 5 ◌>>=◌
abbrev ◌>>=◌ {ℓ κ} : {A : Type ℓ} {B : Type κ} → Option A → (A → Option B) → Option B
none >>= f = none
some a >>= f = f a

-- One octet: decimal, at most 255, and no leading zero.
octet : Text → Option ℕ
unfolding parse_uint
octet [] = none
octet (c ∷ []) = parse_uint 10 255 (c ∷ [])
octet (c ∷ d ∷ s) = if c == b'0' then none else parse_uint 10 255 (c ∷ d ∷ s)

join_octets : List Text → Option ℕ
unfolding octet
join_octets (a ∷ b ∷ c ∷ d ∷ []) = do
  w ← octet a
  x ← octet b
  y ← octet c
  z ← octet d
  some (((w * 256 + x) * 256 + y) * 256 + z)
join_octets _ = none

unfoldable pub parse_v4 : Text → Option ℕ
unfolding join_octets split
parse_v4 s = join_octets (split b'.' s)

-- The value of a hexadecimal digit.
hex_value : ℕ → Option ℕ
unfolding digit_value
hex_value c = elim (digit_value c) [ none ↦ none | some d ↦ if ltb d 16 then some d else none ]

-- The hexadecimal digits at the head: how many, their value, and the rest.
hex_run : ℕ → ℕ → Text → ℕ × ℕ × Text
unfolding hex_value
hex_run n acc [] = (n, acc, [])
hex_run n acc (c ∷ s) = elim (hex_value c) [
  | none ↦ (n, acc, c ∷ s)
  | some d ↦ hex_run (n + 1) (acc * 16 + d) s
]

-- The groups read so far, where `::` stood, and the rest of the text.
pub record Groups : Type 0 where
  pub groups : List ℕ
  pub ellipsis : Option ℕ
  pub rest : Text

abbrev is_some : Option ℕ → Bool
is_some none = false
is_some (some a) = true

-- The trailing dotted IPv4 address is the last two groups.
embedded : Groups → Text → Option Groups
unfolding parse_v4
embedded g s = do
  let n = length g.groups
  a ← parse_v4 s
  if (not (is_some g.ellipsis) && not (n == 6)) || ltb 6 n
      then none
      else some (record {
        groups = g.groups ++ a / 65536 ∷ a % 65536 ∷ [];
        ellipsis = g.ellipsis;
        rest = [];
      })

-- After a group: the end, a colon and more, or `::`.
separator : Groups → Option (Bool × Groups)
separator g = after g.rest
  where
    after : Text → Option (Bool × Groups)
    after [] = some (true, g)
    after (c ∷ []) = none
    after (c ∷ d ∷ s) =
        if not (c == b':')
        then none
        else if not (d == b':')
        then some (false, record g { rest = d ∷ s })
        else if is_some g.ellipsis
        then none
        else some (is_nil s, record g { ellipsis = some (length g.groups); rest = s })

is_dot : Text → Bool
is_dot [] = false
is_dot (c ∷ s) = c == b'.'

-- The loop over the groups, one round for each of the eight.
group_loop : ℕ → Groups → Option Groups
unfolding hex_run embedded separator is_dot
group_loop zero g = some g
group_loop (suc k) g =
    let (n, acc, s) = hex_run 0 0 g.rest in
    let next : Option Groups =
      elim (separator (record g { groups = g.groups ++ acc ∷ []; rest = s })) [
        | none ↦ none
        | some (ended, g') ↦ elim ended [ true ↦ some g' | false ↦ group_loop k g' ]
      ] in
    if n == 0 || ltb 4 n then none else if is_dot s then embedded g g.rest else next

-- Eight groups as one number, the first one highest.
number_of : ℕ → List ℕ → ℕ
number_of acc [] = acc
number_of acc (x ∷ xs) = number_of (acc * 65536 + x) xs

zeros : ℕ → List ℕ
zeros zero = []
zeros (suc n) = 0 ∷ zeros n

-- Fill the place of `::`, which stands for one group of zeros at least.
expand : List ℕ → Option ℕ → Option (List ℕ)
unfolding zeros
expand gs none = if length gs == 8 then some gs else none
expand gs (some at) =
    if leb 8 (length gs) then none else some (take at gs ++ (zeros (8 - length gs) ++ drop at gs))

finish : Groups → Option ℕ
unfolding expand number_of
finish g = do gs ← if is_nil g.rest then expand g.groups g.ellipsis else none; some (number_of 0 gs)

body : Text → Option ℕ
unfolding group_loop finish
body (c ∷ d ∷ []) =
    if c == b':' && d == b':'
    then some 0
    else group_loop 8 (record { groups = []; ellipsis = none; rest = c ∷ d ∷ [] }) >>= finish
body (c ∷ d ∷ s) =
    if c == b':' && d == b':'
    then group_loop 8 (record { groups = []; ellipsis = some 0; rest = s }) >>= finish
    else group_loop 8 (record { groups = []; ellipsis = none; rest = c ∷ d ∷ s }) >>= finish
body s = group_loop 8 (record { groups = []; ellipsis = none; rest = s }) >>= finish

unfoldable pub parse_v6 : Text → Option Addr
unfolding body cut
parse_v6 s = elim (cut (b'%' ∷ []) s) [
  | none ↦ do a ← body s; some (v6 a [])
  | some (front, zone) ↦ if is_nil zone then none else do a ← body front; some (v6 a zone)
]

-- The first of `.`, `:` and `%` decides the family.
by_first : Text → Text → Option Addr
unfolding parse_v4 parse_v6
by_first whole [] = none
by_first whole (c ∷ s) =
    let rest = by_first whole s in
    if c == b'.'
    then (do a ← parse_v4 whole; some (v4 a))
    else if c == b':'
    then parse_v6 whole
    else if c == b'%'
    then none
    else rest

unfoldable pub parse_addr : Text → Option Addr
unfolding by_first
parse_addr s = by_first s s

-- The length of a prefix: decimal, no sign and no leading zero.
prefix_bits : Text → Option ℕ
unfolding parse_uint
prefix_bits [] = none
prefix_bits (c ∷ []) = parse_uint 10 128 (c ∷ [])
prefix_bits (c ∷ d ∷ s) = if c == b'0' then none else parse_uint 10 128 (c ∷ d ∷ s)

has_zone : Addr → Bool
has_zone (v6 a z) = not (is_nil z)
has_zone _ = false

-- The text is cut at its last slash; no slash can stand in what `parse_addr` accepts without a zone.
unfoldable pub parse_prefix : Text → Option Prefix
unfolding parse_addr prefix_bits has_zone cut is4
parse_prefix s = do
  (front, back) ← cut (b'/' ∷ []) s
  a ← parse_addr front
  n ← prefix_bits back
  if has_zone a || ltb (if is4 a then 32 else 128) n
      then none
      else some (record { addr = a; bits = n })

parse_addr_tests :
    (parse_addr (codes "10.1.2.3") ≡ some (v4 0x0a010203))
    × (parse_addr (codes "fe80::1%eth0") ≡ some (v6 (0xfe80 * 2 ^ 112 + 1) (codes "eth0")))
    × (parse_addr (codes "::ffff:10.1.1.1") ≡ some (v6 0xffff0a010101 []))
    × (parse_addr (codes "1:2:3:4:5:6:7::") ≡ some (v6 0x00010002000300040005000600070000 []))
    × (parse_addr (codes "1:2:3:4:5:6:7:8:9") ≡ none)
    × (parse_addr (codes "01.2.3.4") ≡ none)
    × (parse_addr (codes "example.com") ≡ none)
unfolding parse_addr
parse_addr_tests = (refl, refl, refl, refl, refl, refl, refl)

parse_prefix_tests :
    (parse_prefix (codes "10.0.0.0/8") ≡ some (record { addr = v4 0x0a000000; bits = 8 }))
    × (parse_prefix (codes "10.0.0.0/33") ≡ none)
    × (parse_prefix (codes "fe80::/10")
        ≡ some (record { addr = v6 (0xfe80 * 2 ^ 112) []; bits = 10 }))
unfolding parse_prefix
parse_prefix_tests = (refl, refl, refl)

parse_v6-is_valid : (s : Text) (a : Addr) → parse_v6 s ≡ some a → is_valid a ≡ true
unfolding parse_v6 is_valid
parse_v6-is_valid s a h = elim (Option-cases (cut (b'%' ∷ []) s)) [
  | inl plain ↦ elim (Option-cases (body s)) [
    | inl bad ↦ absurd (ground arith)
    | inr (n, read) ↦ ground arith
  ]
  | inr ((front, zone), both) ↦ elim (Option-cases (body front)) [
    | inl bad ↦ absurd (ground arith)
    | inr (n, read) ↦ ground arith
  ]
]

by_first-is_valid : (whole s : Text) (a : Addr) → by_first whole s ≡ some a → is_valid a ≡ true
unfolding by_first is_valid
by_first-is_valid whole [] a h = absurd (ground arith)
by_first-is_valid whole (c ∷ s) a h = elim (Option-cases (parse_v4 whole)) [
  | inl bad ↦ ground (arith, parse_v6-is_valid whole a, by_first-is_valid whole s a)
  | inr (n, read) ↦ ground (arith, parse_v6-is_valid whole a, by_first-is_valid whole s a)
]

-- What reads as an address is a valid one.
pub parse_addr-is_valid : (s : Text) (a : Addr) → parse_addr s ≡ some a → is_valid a ≡ true
unfolding parse_addr
parse_addr-is_valid s a h = by_first-is_valid s s a h
