-- ===== src/Packet/Tests.antt =====
-- Instances of the theorems on `Parse` at concrete frames.
use egresswall.Common.{[], ◌∷◌, ◌++◌, ◌≡◌, ◌≢◌, refl, ok, err, arith}
use egresswall.Netip.{v4}
use egresswall.Packet.{short, unhandled, panic, parse, parse_v4, byte_at, blank, proto_udp}
use egresswall.Packet.Fields.{udp_datagram, parse-udp_datagram-append}
use egresswall.Packet.Safety.{parse-ne-panic}

truncated :
    (parse [] ≡ err short)
    × (parse (0x45 ∷ 0 ∷ []) ≡ err short)
    × (parse (0x10 ∷ []) ≡ err unhandled)
unfolding parse parse_v4 byte_at
truncated = (refl, refl, refl)

parse-ne-panic_example : parse (0x4f ∷ 1 ∷ 2 ∷ []) ≢ err panic
parse-ne-panic_example = parse-ne-panic (0x4f ∷ 1 ∷ 2 ∷ [])

parse-udp_datagram-append_example :
    parse (udp_datagram 0x0a000002 0x01010101 40000 53 (7 ∷ 8 ∷ []) ++ 0 ∷ 0 ∷ [])
    ≡ ok (record (blank (v4 0x0a000002) (v4 0x01010101) proto_udp) {
      src_port = 40000;
      dst_port = 53;
      payload = 7 ∷ 8 ∷ [];
    })
parse-udp_datagram-append_example =
    parse-udp_datagram-append 0x0a000002 0x01010101 40000 53 (7 ∷ 8 ∷ []) (0 ∷ 0 ∷ []) (omega arith)
      (omega arith) (omega arith)
