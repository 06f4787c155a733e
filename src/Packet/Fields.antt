-- ===== src/Packet/Fields.antt =====
-- internal/packet/packet.go: what `Parse` reads. Bytes behind the total length of an IPv4 datagram are
-- never read, and a UDP datagram gives back its addresses, ports and payload.
use egresswall.Common.{
  ℕ, zero, suc, ◌+◌, ◌-◌, ◌*◌, ◌/◌, ◌%◌, ◌^◌, ◌≤◌, ◌<◌, false, List, [], ◌∷◌, ◌++◌, ◌≡◌, refl, ap,
  ◌∙◌, arith, length, get_elem?, take, drop, length-append, length-drop, drop-length-append,
  take-length-append, append-nil, ltb, ok,
}
use egresswall.Netip.{v4}
use egresswall.Packet.{
  Packet, byte_at, slice, uint16_at, number_of, addr4_at, parse_udp, parse_transport, parse_v4_body,
  cut_to, parse_v4_total, parse_v4_sized, parse_v4, parse, blank, proto_udp,
}

get_elem?-append :
    (xs ys : List ℕ) (i : ℕ) → i < length xs → get_elem? (xs ++ ys) i ≡ get_elem? xs i
get_elem?-append [] ys i h = elim h [ ]
get_elem?-append (x ∷ xs) ys zero h = refl
get_elem?-append (x ∷ xs) ys (suc i) h = get_elem?-append xs ys i (omega arith)

take-drop-append :
    (i n : ℕ) (xs ys : List ℕ) → i + n ≤ length xs → take n (drop i (xs ++ ys)) ≡ take n (drop i xs)
take-drop-append zero zero xs ys h = refl
take-drop-append zero (suc n) [] ys h = absurd (omega arith)
take-drop-append zero (suc n) (x ∷ xs) ys h =
    ap (◌∷◌ x) (take-drop-append zero n xs ys (omega arith))
take-drop-append (suc i) n [] ys h = absurd (omega arith)
take-drop-append (suc i) n (x ∷ xs) ys h = take-drop-append i n xs ys (omega arith)

byte_at-append : (xs ys : List ℕ) (i : ℕ) → i < length xs → byte_at (xs ++ ys) i ≡ byte_at xs i
unfolding byte_at
byte_at-append xs ys i h = rw (get_elem?-append xs ys i h, byte_at)

slice-append :
    (xs ys : List ℕ) (i j : ℕ) → i ≤ j → j ≤ length xs → slice (xs ++ ys) i j ≡ slice xs i j
unfolding slice
slice-append xs ys i j h k =
    ground (arith, length-append xs ys, take-drop-append i (j - i) xs ys (omega arith))

uint16_at-append :
    (xs ys : List ℕ) (i : ℕ) → i + 2 ≤ length xs → uint16_at (xs ++ ys) i ≡ uint16_at xs i
unfolding uint16_at
uint16_at-append xs ys i h = rw (slice-append xs ys i (i + 2) (omega arith) h, uint16_at)

take-length : (xs : List ℕ) → take (length xs) xs ≡ xs
take-length [] = refl
take-length (x ∷ xs) = ap (◌∷◌ x) (take-length xs)

take-all : (n : ℕ) (xs : List ℕ) → n ≡ length xs → take n xs ≡ xs
take-all n xs e = rw e (take-length xs)

-- Cut to its total length, the frame with padding is the datagram.
cut_to-append : (xs ys : List ℕ) → cut_to (xs ++ ys) (length xs) ≡ ok xs
unfolding cut_to slice
cut_to-append xs [] = ground (arith, append-nil xs, take-length xs)
cut_to-append xs (y ∷ ys) =
    ground (arith, length-append xs (y ∷ ys), take-length-append xs (y ∷ ys))

cut_to-length : (xs : List ℕ) → cut_to xs (length xs) ≡ ok xs
unfolding cut_to
cut_to-length xs = ground arith

parse_v4_total-append :
    (xs ys : List ℕ) (ihl : ℕ)
    → parse_v4_total (xs ++ ys) ihl (length xs) ≡ parse_v4_total xs ihl (length xs)
unfolding parse_v4_total
parse_v4_total-append xs ys ihl = rw (cut_to-append xs ys, cut_to-length xs)

module _ (xs ys : List ℕ) (whole : uint16_at xs 2 ≡ ok (length xs)) (header : 20 ≤ length xs) where
  parse_v4_sized-append : (ihl : ℕ) → parse_v4_sized (xs ++ ys) ihl ≡ parse_v4_sized xs ihl
  unfolding parse_v4_sized
  parse_v4_sized-append ihl = rw (
    uint16_at-append xs ys 6 (omega arith),
    uint16_at-append xs ys 2 (omega arith),
    whole,
    parse_v4_total-append xs ys ihl,
  )

-- Padding behind an IPv4 datagram with a whole header changes nothing in what `Parse` returns.
pub parse-append :
    (xs ys : List ℕ) (first : ℕ)
    → byte_at xs 0 ≡ ok first
    → first / 16 ≡ 4
    → 20 ≤ length xs
    → first % 16 * 4 ≤ length xs
    → uint16_at xs 2 ≡ ok (length xs)
    → parse (xs ++ ys) ≡ parse xs
unfolding parse parse_v4
parse-append xs ys first f four header options whole = ground (
  arith,
  length-append xs ys,
  byte_at-append xs ys 0,
  parse_v4_sized-append xs ys whole header (first % 16 * 4),
)

abbrev octets : ℕ → List ℕ → List ℕ
octets n rest = n / 2 ^ 24 ∷ n / 2 ^ 16 % 256 ∷ n / 2 ^ 8 % 256 ∷ n % 256 ∷ rest

abbrev pub udp_segment : ℕ → ℕ → List ℕ → List ℕ
udp_segment from to payload =
    let n = 8 + length payload in
    from / 256 ∷ from % 256 ∷ to / 256 ∷ to % 256 ∷ n / 256 ∷ n % 256 ∷ 0 ∷ 0 ∷ payload

-- An IPv4 datagram with no options and the don't-fragment flag, over a UDP segment.
abbrev pub udp_datagram : ℕ → ℕ → ℕ → ℕ → List ℕ → List ℕ
udp_datagram src dst from to payload =
    let n = 28 + length payload in
    0x45
    ∷ 0
    ∷ n / 256
    ∷ n % 256
    ∷ 0
    ∷ 0
    ∷ 0x40
    ∷ 0
    ∷ 64
    ∷ proto_udp
    ∷ 0
    ∷ 0
    ∷ octets src (octets dst (udp_segment from to payload))

slice-rest : (b : List ℕ) (i : ℕ) → i ≤ length b → slice b i (length b) ≡ ok (drop i b)
unfolding slice
slice-rest b i h = ground (arith, length-drop i b, take-all (length b - i) (drop i b))

-- The piece `mid` of a list, where it stands.
slice-middle :
    (front mid rest : List ℕ)
    → slice (front ++ (mid ++ rest)) (length front) (length front + length mid) ≡ ok mid
unfolding slice
slice-middle front mid rest = ground (
  arith,
  length-append front (mid ++ rest),
  length-append mid rest,
  drop-length-append front (mid ++ rest),
  take-length-append mid rest,
)

uint16_at-middle :
    (front : List ℕ) (x y : ℕ) (rest : List ℕ)
    → uint16_at (front ++ x ∷ y ∷ rest) (length front) ≡ ok (x * 256 + y)
unfolding uint16_at number_of
uint16_at-middle front x y rest =
    rw (slice-middle front (x ∷ y ∷ []) rest, uint16_at) (ap ok (omega arith))

parse_udp-udp_segment :
    (p : Packet) (from to : ℕ) (payload : List ℕ)
    → parse_udp p (udp_segment from to payload)
      ≡ ok (record p { src_port = from; dst_port = to; payload = payload })
unfolding parse_udp
parse_udp-udp_segment p from to payload =
    let n : ℕ = 8 + length payload in
    let seg : List ℕ = udp_segment from to payload in
    let long : ltb (length seg) 8 ≡ false = ground arith in
    rw
      (
        long,
        uint16_at-middle [] (from / 256) (from % 256) (drop 2 seg),
        uint16_at-middle (take 2 seg) (to / 256) (to % 256) (drop 4 seg),
        slice-rest seg 8 (omega arith),
      )
      (ground arith)

addr4_at-middle :
    (front : List ℕ) (n : ℕ) (rest : List ℕ)
    → n < 2 ^ 32
    → addr4_at (front ++ octets n rest) (length front) ≡ ok (v4 n)
unfolding addr4_at number_of
addr4_at-middle front n rest h =
    rw (slice-middle front (octets n []) rest, addr4_at) (ap (λ m. ok (v4 m)) (omega arith))

parse_v4_body-udp_datagram :
    (src dst from to : ℕ) (payload : List ℕ)
    → src < 2 ^ 32
    → dst < 2 ^ 32
    → parse_v4_body (udp_datagram src dst from to payload) 20
      ≡ ok (record (blank (v4 src) (v4 dst) proto_udp) {
        src_port = from;
        dst_port = to;
        payload = payload;
      })
unfolding parse_v4_body parse_transport byte_at
parse_v4_body-udp_datagram src dst from to payload h k =
    let d : List ℕ = udp_datagram src dst from to payload in
    rw
      (
        addr4_at-middle (take 12 d) src (drop 16 d) h,
        addr4_at-middle (take 16 d) dst (drop 20 d) k,
        slice-rest d 20 (omega arith),
      )
      (parse_udp-udp_segment (blank (v4 src) (v4 dst) proto_udp) from to payload)

pub parse-udp_datagram :
    (src dst from to : ℕ) (payload : List ℕ)
    → src < 2 ^ 32
    → dst < 2 ^ 32
    → 28 + length payload < 65536
    → parse (udp_datagram src dst from to payload)
      ≡ ok (record (blank (v4 src) (v4 dst) proto_udp) {
        src_port = from;
        dst_port = to;
        payload = payload;
      })
unfolding parse parse_v4 parse_v4_sized parse_v4_total byte_at
parse-udp_datagram src dst from to payload h k m =
    let d : List ℕ = udp_datagram src dst from to payload in
    let total : ((28 + length payload) / 256) * 256 + (28 + length payload) % 256 ≡ length d =
      omega arith in
    let c1 : ltb (length d) 1 ≡ false = ground arith in
    let c20 : ltb (length d) 20 ≡ false = ground arith in
    rw
      (
        c1,
        c20,
        uint16_at-middle (take 6 d) 0x40 0 (drop 8 d),
        uint16_at-middle (take 2 d) ((28 + length payload) / 256) ((28 + length payload) % 256)
            (drop 4 d),
        total,
        cut_to-length d,
        c20,
      )
      (parse_v4_body-udp_datagram src dst from to payload h k)

-- A UDP datagram in an IPv4 packet with no options, with any padding behind it, gives back both
-- addresses, both ports and exactly the payload, for any payload that the length field can count.
pub parse-udp_datagram-append :
    (src dst from to : ℕ) (payload padding : List ℕ)
    → src < 2 ^ 32
    → dst < 2 ^ 32
    → 28 + length payload < 65536
    → parse (udp_datagram src dst from to payload ++ padding)
      ≡ ok (record (blank (v4 src) (v4 dst) proto_udp) {
        src_port = from;
        dst_port = to;
        payload = payload;
      })
unfolding byte_at
parse-udp_datagram-append src dst from to payload padding h k m =
    let d : List ℕ = udp_datagram src dst from to payload in
    let n : ℕ = 28 + length payload in
    parse-append d padding 0x45 refl refl (omega arith) (omega arith)
      (uint16_at-middle (take 2 d) (n / 256) (n % 256) (drop 4 d) ∙ ap ok (omega arith))
    ∙ parse-udp_datagram src dst from to payload h k m
