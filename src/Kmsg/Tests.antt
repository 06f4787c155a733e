-- ===== src/Kmsg/Tests.antt =====
-- The records of internal/kmsg/kmsg_test.go, and instances of the theorems.
use egresswall.Common.{
  ℕ, zero, suc, ◌+◌, ◌/◌, ◌%◌, not, ◌&&◌, true, ltb, leb, ◌==◌, if◌then◌else◌, All, ap, [], ◌∷◌,
  ◌++◌, arith, some, none, ◌≡◌, refl,
}
use egresswall.Text.{Text, contains_byte, codes, has_prefix, lower, cut, fields, parse_uint}
use egresswall.Netip.{v4, is_valid}
use egresswall.Netip.Parse.{parse_addr}
use egresswall.Kmsg.{parse_line, read_event}
use egresswall.Kmsg.Values.{reported, last_value}
use egresswall.Kmsg.Device.{IsShown, record_of, parse_line-record_of}
use egresswall.Nft.Plan.{log_prefix}
use egresswall.Kmsg.Prefix.{log_line, parse_line-log_line-cut}

parse_line_tests :
    (parse_line (
        codes
          "6,1234,5678901,-;egresswall deny[x y]: IN= OUT=eth0 SRC=10.0.0.2 DST=1.2.3.4 PROTO=TCP SPT=5 DPT=443 ")
      ≡ some (record { rule = codes "x y"; dst = v4 0x01020304; port = 443; proto = codes "tcp" }))
    × (parse_line (codes "4,99,1,-;egresswall default-deny: IN= DST=8.8.8.8 PROTO=UDP DPT=53")
        ≡ some (record { rule = codes ""; dst = v4 0x08080808; port = 53; proto = codes "udp" }))
    × (parse_line (codes "6,1,2,-;usb 1-1: new device") ≡ none)
unfolding parse_line has_prefix cut read_event is_valid fields parse_uint parse_addr lower
parse_line_tests = (refl, refl, refl)

-- Instances of the theorems of Prefix.
abbrev header : Text
header = codes "6,1234,5678901,-"

abbrev hex_digit : ℕ → ℕ
hex_digit n = if ltb n 10 then n + b'0' else n + 87

-- A byte as the device shows it: printable ASCII but the backslash as it is, else in hexadecimal.
abbrev escape_byte : ℕ → Text
escape_byte c =
    if leb 32 c && (ltb c 127 && not (c == b'\\'))
    then c ∷ []
    else codes "\\x" ++ (hex_digit (c / 16) ∷ hex_digit (c % 16) ∷ [])

abbrev escape : Text → Text
escape [] = []
escape (c ∷ m) = escape_byte c ++ escape m

escape-All-IsShown : (m : Text) → All IsShown m → escape m ≡ m
escape-All-IsShown [] shown = refl
escape-All-IsShown (c ∷ m) ((low, high, plain), shown) =
    let kept : (leb 32 c && (ltb c 127 && not (c == b'\\'))) ≡ true = ground arith in
    rw kept (ap (λ t. c ∷ t) (escape-All-IsShown m shown))

abbrev packet : Text
packet = codes "IN= OUT=eth0 SRC=10.0.0.2 DST=1.2.3.4 PROTO=TCP DPT=443 "

parse_line-record_of_example :
    parse_line (record_of escape header (log_prefix (codes "x y") ++ packet) (codes "\n"))
    ≡ reported
        (codes "x y")
        (fields (packet ++ codes "\n"))
        (last_value parse_addr (codes "DST") (fields (packet ++ codes "\n")))
unfolding contains_byte cut has_prefix
parse_line-record_of_example =
    parse_line-record_of escape header (codes "x y") packet (codes "\n") escape-All-IsShown refl
      (ground arith) refl (ground arith) (ground arith)

abbrev replicate : ℕ → ℕ → Text
replicate zero c = []
replicate (suc n) c = c ∷ replicate n c

abbrev long_rule : Text
long_rule = replicate 105 b'a'

parse_line-log_line-cut_example :
    parse_line (log_line header long_rule (codes "DST=1.2.3.4 DPT=443")) ≡ none
unfolding contains_byte cut has_prefix
parse_line-log_line-cut_example =
    parse_line-log_line-cut header long_rule (codes "DST=1.2.3.4 DPT=443") refl (ground arith) refl
