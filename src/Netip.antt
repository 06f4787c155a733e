-- ===== src/Netip.antt =====
-- The part of the Go package net/netip that the program uses: addresses and prefixes.
-- An IPv4 address is its 32-bit number, an IPv6 address its 128-bit number and its zone, and
-- `invalid` is the zero `netip.Addr{}`.
pub mod Parse
pub mod Show
pub mod Bytes
use egresswall.Common.{
  ℕ, ◌-◌, ◌*◌, ◌/◌, ◌%◌, ◌^◌, ◌+◌, Bool, true, false, not, ◌&&◌, ◌||◌, List, [], ◌∷◌, Option, none,
  some, ◌≡◌, ◌↔◌, leb, ltb, ◌==◌, if◌then◌else◌, is_nil, Key, arith,
}
use egresswall.Text.{Text, text_eq, text_eq_iff, text_lt}

pub data Addr : Type 0 where
  invalid : Addr
  v4 : ℕ → Addr
  v6 : ℕ → Text → Addr

abbrev pub addr_eq : Addr → Addr → Bool
addr_eq invalid invalid = true
addr_eq (v4 a) (v4 b) = a == b
addr_eq (v6 a z) (v6 b w) = a == b && text_eq z w
addr_eq _ _ = false

pub addr_eq_iff : (a b : Addr) → (addr_eq a b ≡ true) ↔ (a ≡ b)
addr_eq_iff (v6 a z) (v6 b w) = ground (arith, text_eq_iff z w)
addr_eq_iff _ _ = ground arith

instance abbrev pub addr_key : Key Addr
addr_key = record { same = addr_eq; same_iff = addr_eq_iff }

unfoldable pub is_valid : Addr → Bool
is_valid invalid = false
is_valid _ = true

unfoldable pub is4 : Addr → Bool
is4 (v4 a) = true
is4 _ = false

-- `::ffff:a.b.c.d`
unfoldable pub is_mapped : ℕ → Bool
is_mapped a = a / 2 ^ 32 == 0xffff

unfoldable pub unmap : Addr → Addr
unfolding is_mapped
unmap (v6 a z) = if is_mapped a then v4 (a % 2 ^ 32) else v6 a z
unmap a = a

unfoldable pub bit_len : Addr → ℕ
bit_len invalid = 0
bit_len (v4 a) = 32
bit_len (v6 a z) = 128

abbrev loopback_unmapped : Addr → Bool
loopback_unmapped (v4 a) = a / 2 ^ 24 == 127
loopback_unmapped (v6 a z) = a == 1
loopback_unmapped invalid = false

unfoldable pub is_loopback : Addr → Bool
unfolding unmap
is_loopback a = loopback_unmapped (unmap a)

abbrev multicast_unmapped : Addr → Bool
multicast_unmapped (v4 a) = a / 2 ^ 28 == 0xe
multicast_unmapped (v6 a z) = a / 2 ^ 120 == 0xff
multicast_unmapped invalid = false

unfoldable pub is_multicast : Addr → Bool
unfolding unmap
is_multicast a = multicast_unmapped (unmap a)

unfoldable pub is_unspecified : Addr → Bool
is_unspecified (v4 a) = a == 0
is_unspecified (v6 a z) = a == 0 && is_nil z
is_unspecified invalid = false

-- `Addr.Less`: by bit length, then by number, then by zone.
unfoldable pub addr_less : Addr → Addr → Bool
addr_less invalid invalid = false
addr_less invalid _ = true
addr_less (v4 a) (v4 b) = ltb a b
addr_less (v4 a) (v6 b w) = true
addr_less (v6 a z) (v6 b w) = ltb a b || (a == b && text_lt z w)
addr_less _ _ = false

-- A valid prefix: `bits` is at most the length of the address, which has no zone.
pub record Prefix : Type 0 where
  pub addr : Addr
  pub bits : ℕ

abbrev pub high_bits : ℕ → ℕ → ℕ → ℕ
high_bits width bits a = a / 2 ^ (width - bits)

abbrev clear_low : ℕ → ℕ → ℕ → ℕ
clear_low width bits a = a / 2 ^ (width - bits) * 2 ^ (width - bits)

unfoldable pub masked : Prefix → Prefix
masked p = record p { addr = clear p.addr }
  where
    clear : Addr → Addr
    clear (v4 a) = v4 (clear_low 32 p.bits a)
    clear (v6 a z) = v6 (clear_low 128 p.bits a) []
    clear invalid = invalid

abbrev contains_addr : ℕ → Addr → Addr → Bool
contains_addr bits (v4 a) (v4 b) = high_bits 32 bits a == high_bits 32 bits b
contains_addr bits (v6 a z) (v6 b w) = is_nil w && high_bits 128 bits a == high_bits 128 bits b
contains_addr bits _ _ = false

-- `Prefix.Contains`: false across families, and for an address with a zone.
unfoldable pub contains : Prefix → Addr → Bool
contains p ip = contains_addr p.bits p.addr ip

-- `netip.PrefixFrom(addr, addr.BitLen())`
unfoldable pub single : Addr → Prefix
single (v4 a) = record { addr = v4 a; bits = 32 }
single (v6 a z) = record { addr = v6 a []; bits = 128 }
single invalid = record { addr = invalid; bits = 0 }
