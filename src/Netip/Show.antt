-- ===== src/Netip/Show.antt =====
-- `Addr.String` and `Prefix.String`.
use egresswall.Common.{
  ℕ, zero, suc, ◌+◌, ◌-◌, ◌*◌, ◌/◌, ◌%◌, ◌^◌, ◌≡◌, refl, ◌&&◌, List, [], ◌∷◌, ◌++◌, map, ltb, leb,
  ◌==◌, if◌then◌else◌, take, drop, is_nil,
}
use egresswall.Text.{Text, codes, itoa, join}
use egresswall.Netip.{Addr, invalid, v4, v6, Prefix, is_mapped}

v4_text : ℕ → Text
v4_text a = join (b'.' ∷ []) (
    itoa (a / 2 ^ 24 % 256)
    ∷ itoa (a / 2 ^ 16 % 256)
    ∷ itoa (a / 2 ^ 8 % 256)
    ∷ itoa (a % 256)
    ∷ [])

hex_char : ℕ → ℕ
hex_char d = if ltb d 10 then b'0' + d else b'a' + (d - 10)

hex_from : ℕ → ℕ → Text → Text
hex_from zero n acc = acc
hex_from (suc f) n acc =
    let more = hex_from f (n / 16) (hex_char (n % 16) ∷ acc) in
    if ltb n 16 then hex_char n ∷ acc else more

hex_text : ℕ → Text
hex_text = λ n. hex_from 4 n []

groups_from : ℕ → ℕ → List ℕ → List ℕ
groups_from zero a acc = acc
groups_from (suc k) a acc = groups_from k (a / 65536) (a % 65536 ∷ acc)

zero_run : List ℕ → ℕ
zero_run [] = 0
zero_run (g ∷ gs) = let n = zero_run gs in if g == 0 then suc n else 0

-- Where the first longest run of zeros begins, and its length; a run of one does not count.
longest_run : ℕ → ℕ → ℕ → List ℕ → ℕ × ℕ
unfolding zero_run
longest_run i start len [] = (start, len)
longest_run i start len (g ∷ gs) =
    let n = zero_run (g ∷ gs) in
    let better = leb 2 n && ltb len n in
    longest_run (i + 1) (if better then i else start) (if better then n else len) gs

v6_text : ℕ → Text
unfolding groups_from longest_run hex_text hex_from hex_char
v6_text a =
    let gs = groups_from 8 a [] in
    let (start, len) = longest_run 0 0 0 gs in
    let colon = λ (xs : List ℕ). join (b':' ∷ []) (map hex_text xs) in
    if len == 0
    then colon gs
    else colon (take start gs) ++ (codes "::" ++ colon (drop (start + len) gs))

zone_text : Text → Text
zone_text z = if is_nil z then [] else b'%' ∷ z

unfoldable pub addr_text : Addr → Text
unfolding v4_text v6_text zone_text is_mapped itoa join
addr_text invalid = codes "invalid IP"
addr_text (v4 a) = v4_text a
addr_text (v6 a z) =
    (if is_mapped a then codes "::ffff:" ++ v4_text (a % 2 ^ 32) else v6_text a) ++ zone_text z

unfoldable pub prefix_text : Prefix → Text
unfolding addr_text
prefix_text p = addr_text p.addr ++ (b'/' ∷ itoa p.bits)

addr_text_tests :
    (addr_text (v4 0x0a010203) ≡ codes "10.1.2.3")
    × (addr_text (v6 (0xfe80 * 2 ^ 112 + 1) []) ≡ codes "fe80::1")
    × (addr_text (v6 0 []) ≡ codes "::")
    × (addr_text (v6 0xffff0a010101 []) ≡ codes "::ffff:10.1.1.1")
    × (addr_text (v6 (0x20010db8 * 2 ^ 96 + 0xab00) []) ≡ codes "2001:db8::ab00")
unfolding addr_text
addr_text_tests = (refl, refl, refl, refl, refl)
