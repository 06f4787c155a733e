-- ===== src/Packet.antt =====
-- internal/packet/packet.go: the fields of an IPv4 or IPv6 frame that carries TCP or UDP.
-- A frame is a list of bytes. An index or a slice out of range is the error `panic`, as in Go, so that
-- its absence is a theorem; masks and shifts are written with `%` and `/`.
pub mod Safety
pub mod Fields
mod Tests
use egresswall.Common.{
  ℕ, ◌+◌, ◌-◌, ◌*◌, ◌/◌, ◌%◌, ◌^◌, Bool, true, false, not, ◌&&◌, ◌||◌, List, [], ◌∷◌, Option, none,
  some, ltb, leb, ◌==◌, if◌then◌else◌, length, get_elem?, take, drop, Result, ok, err, ◌>>=◌,
}
use egresswall.Netip.{Addr, v4, v6, invalid}

pub data PacketError : Type 0 where
  short unhandled panic : PacketError

pub record Packet : Type 0 where
  pub src : Addr
  pub dst : Addr
  pub proto : ℕ
  pub src_port : ℕ
  pub dst_port : ℕ
  pub syn : Bool
  pub ack : Bool
  pub payload : List ℕ

abbrev pub proto_tcp : ℕ
proto_tcp = 6

abbrev pub proto_udp : ℕ
proto_udp = 17

unfoldable pub is_tcp : Packet → Bool
is_tcp p = p.proto == proto_tcp

unfoldable pub is_udp : Packet → Bool
is_udp p = p.proto == proto_udp

abbrev pub Parsed : Type 0 → Type 0
Parsed = Result PacketError

-- `b[i]`
unfoldable pub byte_at : List ℕ → ℕ → Parsed ℕ
byte_at b i = elim (get_elem? b i) [ none ↦ err panic | some x ↦ ok x ]

-- `b[i:j]`
unfoldable pub slice : List ℕ → ℕ → ℕ → Parsed (List ℕ)
slice b i j = if leb i j && leb j (length b) then ok (take (j - i) (drop i b)) else err panic

-- A big-endian number.
unfoldable pub number_of : ℕ → List ℕ → ℕ
number_of acc [] = acc
number_of acc (x ∷ xs) = number_of (acc * 256 + x) xs

-- `binary.BigEndian.Uint16(b[i:i+2])`
unfoldable pub uint16_at : List ℕ → ℕ → Parsed ℕ
unfolding number_of
uint16_at b i = slice b i (i + 2) >>= λ s. ok (number_of 0 s)

-- `netip.AddrFrom4([4]byte(b[i:i+4]))`
unfoldable pub addr4_at : List ℕ → ℕ → Parsed Addr
unfolding number_of
addr4_at b i = slice b i (i + 4) >>= λ s. ok (v4 (number_of 0 s))

-- `netip.AddrFrom16([16]byte(b[i:i+16]))`
unfoldable pub addr16_at : List ℕ → ℕ → Parsed Addr
unfolding number_of
addr16_at b i = slice b i (i + 16) >>= λ s. ok (v6 (number_of 0 s) [])

unfoldable pub parse_udp : Packet → List ℕ → Parsed Packet
parse_udp p b = if ltb (length b) 8 then err short else do
  from ← uint16_at b 0
  to ← uint16_at b 2
  rest ← slice b 8 (length b)
  ok (record p { src_port = from; dst_port = to; payload = rest })

-- The TCP header is known to be whole: `off` is its length in bytes.
unfoldable pub parse_tcp_from : Packet → List ℕ → ℕ → Parsed Packet
parse_tcp_from p b off = if ltb off 20 || ltb (length b) off then err short else do
  from ← uint16_at b 0
  to ← uint16_at b 2
  flags ← byte_at b 13
  rest ← slice b off (length b)
  ok (record p {
    src_port = from;
    dst_port = to;
    syn = not (flags / 2 % 2 == 0);
    ack = not (flags / 16 % 2 == 0);
    payload = rest;
  })

unfoldable pub parse_tcp : Packet → List ℕ → Parsed Packet
parse_tcp p b =
    if ltb (length b) 20 then err short else byte_at b 12 >>= λ x. parse_tcp_from p b (x / 16 * 4)

unfoldable pub parse_transport : Packet → List ℕ → Parsed Packet
parse_transport p b =
    if p.proto == proto_udp
    then parse_udp p b
    else if p.proto == proto_tcp
    then parse_tcp p b
    else err unhandled

abbrev pub blank : Addr → Addr → ℕ → Packet
blank src dst proto = record {
  src = src;
  dst = dst;
  proto = proto;
  src_port = 0;
  dst_port = 0;
  syn = false;
  ack = false;
  payload = [];
}

-- The IPv4 header is known to be whole and no fragment: `b` is cut to its total length.
unfoldable pub parse_v4_body : List ℕ → ℕ → Parsed Packet
parse_v4_body b ihl = do
  src ← addr4_at b 12
  dst ← addr4_at b 16
  proto ← byte_at b 9
  rest ← slice b ihl (length b)
  parse_transport (blank src dst proto) rest

-- Trailing padding on short frames is cut off.
unfoldable pub cut_to : List ℕ → ℕ → Parsed (List ℕ)
cut_to b total = if ltb total (length b) then slice b 0 total else ok b

unfoldable pub parse_v4_total : List ℕ → ℕ → ℕ → Parsed Packet
parse_v4_total b ihl total =
    if ltb total ihl then err short else cut_to b total >>= λ cut. parse_v4_body cut ihl

unfoldable pub parse_v4_sized : List ℕ → ℕ → Parsed Packet
parse_v4_sized b ihl = do
  flags ← uint16_at b 6
  if not (flags % 2 ^ 14 == 0)
      then err unhandled
      else uint16_at b 2 >>= λ total. parse_v4_total b ihl total

unfoldable pub parse_v4 : List ℕ → Parsed Packet
parse_v4 b = if ltb (length b) 20 then err short else do
  first ← byte_at b 0
  let ihl = first % 16 * 4
  if ltb ihl 20 || ltb (length b) ihl then err short else parse_v4_sized b ihl

unfoldable pub parse_v6 : List ℕ → Parsed Packet
parse_v6 b = if ltb (length b) 40 then err short else do
  plen ← uint16_at b 4
  if ltb (length b) (40 + plen) then err short else do
    src ← addr16_at b 8
    dst ← addr16_at b 24
    proto ← byte_at b 6
    rest ← slice b 40 (40 + plen)
    parse_transport (blank src dst proto) rest

unfoldable pub parse : List ℕ → Parsed Packet
parse b = if ltb (length b) 1 then err short else do
  first ← byte_at b 0
  if first / 16 == 4 then parse_v4 b else if first / 16 == 6 then parse_v6 b else err unhandled
