-- ===== src/Packet/Safety.antt =====
-- internal/packet/packet.go: no frame, however short or malformed, makes `Parse` index or slice out
-- of range.
use egresswall.Common.{
  ℕ, zero, suc, ◌+◌, ◌-◌, ◌≤◌, ◌<◌, ◌/◌, ◌%◌, ◌*◌, Bool, true, false, List, [], ◌∷◌, some, ◌≡◌, ◌≢◌,
  refl, inl, inr, arith, length, get_elem?, take, drop, length-take, length-drop, ok, err, ◌>>=◌,
  Bool-cases, ltb, ◌==◌, ◌||◌, if◌then◌else◌,
}
use egresswall.Packet.{
  short, unhandled, panic, Packet, Parsed, byte_at, slice, uint16_at, addr4_at, addr16_at,
  parse_udp, parse_tcp_from, parse_tcp, parse_transport, parse_v4_body, cut_to, parse_v4_total,
  parse_v4_sized, parse_v4, parse_v6, parse, blank, proto_udp, proto_tcp,
}

-- The computation does not panic, and what it returns satisfies `P`.
pub data Safe {A : Type 0} (P : A → Type 0) : Parsed A → Type 0 where
  returns : {a : A} → P a → Safe P (ok a)
  is_short : Safe P (err short)
  is_unhandled : Safe P (err unhandled)

bind-Safe :
    {A B : Type 0} {P : A → Type 0} {Q : B → Type 0} {m : Parsed A} (g : A → Parsed B)
    → Safe P m
    → ((a : A) → P a → Safe Q (g a))
    → Safe Q (m >>= g)
bind-Safe g (returns {a} p) h = h a p
bind-Safe g is_short h = is_short
bind-Safe g is_unhandled h = is_unhandled

Safe-mono :
    {A : Type 0} {P Q : A → Type 0} {m : Parsed A} → ((a : A) → P a → Q a) → Safe P m → Safe Q m
Safe-mono h (returns {a} p) = returns (h a p)
Safe-mono h is_short = is_short
Safe-mono h is_unhandled = is_unhandled

get_elem?-lt : {A : Type 0} (b : List A) (i : ℕ) → i < length b → (x : A) × (get_elem? b i ≡ some x)
get_elem?-lt [] i h = elim h [ ]
get_elem?-lt (x ∷ b) zero h = (x, refl)
get_elem?-lt (x ∷ b) (suc i) h = get_elem?-lt b i (omega arith)

abbrev Whatever : {A : Type 0} → A → Type 0
Whatever a = Unit

byte_at-Safe : (b : List ℕ) (i : ℕ) → i < length b → Safe Whatever (byte_at b i)
unfolding byte_at
byte_at-Safe b i h = let (x, e) = get_elem?-lt b i h in rw (e, byte_at) (returns tt)

abbrev HasLength : ℕ → List ℕ → Type 0
HasLength n s = length s ≡ n

slice-Safe : (b : List ℕ) (i j : ℕ) → i ≤ j → j ≤ length b → Safe (HasLength (j - i)) (slice b i j)
unfolding slice
slice-Safe b i j h k =
    let e : slice b i j ≡ ok (take (j - i) (drop i b)) = ground arith in
    rw e (returns (omega (arith, length-take (j - i) (drop i b), length-drop i b)))

short-Safe :
    {A : Type 0} {P : A → Type 0} {m : Parsed A} (c : Bool)
    → (c ≡ false → Safe P m)
    → Safe P (if c then err short else m)
short-Safe true h = is_short
short-Safe false h = h refl

unhandled-Safe :
    {A : Type 0} {P : A → Type 0} {m : Parsed A} (c : Bool)
    → Safe P m
    → Safe P (if c then err unhandled else m)
unhandled-Safe true h = is_unhandled
unhandled-Safe false h = h

uint16_at-Safe : (b : List ℕ) (i : ℕ) → i + 2 ≤ length b → Safe Whatever (uint16_at b i)
unfolding uint16_at
uint16_at-Safe b i h = bind-Safe _ (slice-Safe b i (i + 2) (omega arith) h) (λ s p. returns tt)

addr4_at-Safe : (b : List ℕ) (i : ℕ) → i + 4 ≤ length b → Safe Whatever (addr4_at b i)
unfolding addr4_at
addr4_at-Safe b i h = bind-Safe _ (slice-Safe b i (i + 4) (omega arith) h) (λ s p. returns tt)

addr16_at-Safe : (b : List ℕ) (i : ℕ) → i + 16 ≤ length b → Safe Whatever (addr16_at b i)
unfolding addr16_at
addr16_at-Safe b i h = bind-Safe _ (slice-Safe b i (i + 16) (omega arith) h) (λ s p. returns tt)

parse_udp-Safe : (p : Packet) (b : List ℕ) → Safe Whatever (parse_udp p b)
unfolding parse_udp
parse_udp-Safe p b = short-Safe (ltb (length b) 8) λ long.
    let n : 8 ≤ length b = ground arith in
    bind-Safe _ (uint16_at-Safe b 0 (omega arith)) λ from _.
      bind-Safe _ (uint16_at-Safe b 2 (omega arith))
        λ to _. bind-Safe _ (slice-Safe b 8 (length b) n (omega arith)) λ rest _. returns tt

parse_tcp_from-Safe : (p : Packet) (b : List ℕ) (off : ℕ) → Safe Whatever (parse_tcp_from p b off)
unfolding parse_tcp_from
parse_tcp_from-Safe p b off = short-Safe (ltb off 20 || ltb (length b) off) λ long.
    let n : (20 ≤ off) × (off ≤ length b) = ground arith in
    bind-Safe _ (uint16_at-Safe b 0 (omega arith)) λ from _.
      bind-Safe _ (uint16_at-Safe b 2 (omega arith)) λ to _.
        bind-Safe _ (byte_at-Safe b 13 (omega arith)) λ flags _.
          bind-Safe _ (slice-Safe b off (length b) n.1 (omega arith)) λ rest _. returns tt

parse_tcp-Safe : (p : Packet) (b : List ℕ) → Safe Whatever (parse_tcp p b)
unfolding parse_tcp
parse_tcp-Safe p b = short-Safe (ltb (length b) 20) λ long.
    let n : 20 ≤ length b = ground arith in
    bind-Safe _ (byte_at-Safe b 12 (omega arith)) λ x _. parse_tcp_from-Safe p b (x / 16 * 4)

parse_transport-Safe : (p : Packet) (b : List ℕ) → Safe Whatever (parse_transport p b)
unfolding parse_transport
parse_transport-Safe p b = elim (Bool-cases (p.proto == proto_udp)) [
  | inl udp ↦ rw udp (parse_udp-Safe p b)
  | inr other ↦ rw other (elim (Bool-cases (p.proto == proto_tcp)) [
    | inl tcp ↦ rw tcp (parse_tcp-Safe p b)
    | inr unknown ↦ rw unknown is_unhandled
  ])
]

parse_v4_body-Safe :
    (b : List ℕ) (ihl : ℕ) → 20 ≤ ihl → ihl ≤ length b → Safe Whatever (parse_v4_body b ihl)
unfolding parse_v4_body
parse_v4_body-Safe b ihl h k = bind-Safe _ (addr4_at-Safe b 12 (omega arith)) λ src _.
    bind-Safe _ (addr4_at-Safe b 16 (omega arith)) λ dst _.
      bind-Safe _ (byte_at-Safe b 9 (omega arith)) λ proto _.
        bind-Safe _ (slice-Safe b ihl (length b) k (omega arith))
          λ rest _. parse_transport-Safe (blank src dst proto) rest

-- Cutting a frame to its total length keeps the header.
cut_to-Safe :
    (b : List ℕ) (ihl total : ℕ)
    → ihl ≤ length b
    → ihl ≤ total
    → Safe (λ c. ihl ≤ length c) (cut_to b total)
unfolding cut_to
cut_to-Safe b ihl total h k = elim (Bool-cases (ltb total (length b))) [
  | inl padded ↦
      rw (padded, cut_to)
        (Safe-mono (λ c n. omega arith) (slice-Safe b 0 total (omega arith) (ground arith)))
  | inr whole ↦ rw (whole, cut_to) (returns h)
]

parse_v4_total-Safe :
    (b : List ℕ) (ihl total : ℕ)
    → 20 ≤ ihl
    → ihl ≤ length b
    → Safe Whatever (parse_v4_total b ihl total)
unfolding parse_v4_total
parse_v4_total-Safe b ihl total h k = short-Safe (ltb total ihl) λ fits.
    bind-Safe _ (cut_to-Safe b ihl total k (ground arith))
      λ cut long. parse_v4_body-Safe cut ihl h long

parse_v4_sized-Safe :
    (b : List ℕ) (ihl : ℕ) → 20 ≤ ihl → ihl ≤ length b → Safe Whatever (parse_v4_sized b ihl)
unfolding parse_v4_sized
parse_v4_sized-Safe b ihl h k = bind-Safe _ (uint16_at-Safe b 6 (omega arith)) λ flags _.
    unhandled-Safe _ (
      bind-Safe _ (uint16_at-Safe b 2 (omega arith)) λ total _. parse_v4_total-Safe b ihl total h k)

parse_v4-Safe : (b : List ℕ) → Safe Whatever (parse_v4 b)
unfolding parse_v4
parse_v4-Safe b = short-Safe (ltb (length b) 20) λ long.
    let n : 20 ≤ length b = ground arith in
    bind-Safe _ (byte_at-Safe b 0 (omega arith)) λ first _.
      short-Safe (ltb (first % 16 * 4) 20 || ltb (length b) (first % 16 * 4)) λ fits.
        let m : (20 ≤ first % 16 * 4) × (first % 16 * 4 ≤ length b) = ground arith in
        parse_v4_sized-Safe b (first % 16 * 4) m.0 m.1

parse_v6-Safe : (b : List ℕ) → Safe Whatever (parse_v6 b)
unfolding parse_v6
parse_v6-Safe b = short-Safe (ltb (length b) 40) λ long.
    let n : 40 ≤ length b = ground arith in
    bind-Safe _ (uint16_at-Safe b 4 (omega arith)) λ plen _.
      short-Safe (ltb (length b) (40 + plen)) λ fits.
        let m : 40 + plen ≤ length b = ground arith in
        bind-Safe _ (addr16_at-Safe b 8 (omega arith)) λ src _.
          bind-Safe _ (addr16_at-Safe b 24 (omega arith)) λ dst _.
            bind-Safe _ (byte_at-Safe b 6 (omega arith)) λ proto _.
              bind-Safe _ (slice-Safe b 40 (40 + plen) (omega arith) m)
                λ rest _. parse_transport-Safe (blank src dst proto) rest

parse-Safe : (b : List ℕ) → Safe Whatever (parse b)
unfolding parse
parse-Safe b = short-Safe (ltb (length b) 1) λ long.
    let n : 1 ≤ length b = ground arith in
    bind-Safe _ (byte_at-Safe b 0 (omega arith)) λ first _. family first
  where
    family :
        (first : ℕ)
        → Safe Whatever (
            if first / 16 == 4
            then parse_v4 b
            else if first / 16 == 6
            then parse_v6 b
            else err unhandled)
    family first = elim (Bool-cases (first / 16 == 4)) [
      | inl four ↦ rw four (parse_v4-Safe b)
      | inr other ↦ rw other (elim (Bool-cases (first / 16 == 6)) [
        | inl six ↦ rw six (parse_v6-Safe b)
        | inr unknown ↦ rw unknown is_unhandled
      ])
    ]

Safe-ne-panic : {A : Type 0} {P : A → Type 0} {m : Parsed A} → Safe P m → m ≢ err panic
Safe-ne-panic (returns p) e = cc
Safe-ne-panic is_short e = cc
Safe-ne-panic is_unhandled e = cc

-- `Parse` never indexes or slices a frame out of its range, whatever its bytes: its result is a packet
-- or one of its two errors.
pub parse-ne-panic : (b : List ℕ) → parse b ≢ err panic
parse-ne-panic b = Safe-ne-panic (parse-Safe b)
