-- ===== src/Learn/Tests.antt =====
-- A host that resolves, asks and answers, and instances of the theorems.
use egresswall.Common.{ℕ, true, false, List, [], ◌∷◌, Option, none, some, ◌≡◌, refl, arith}
use egresswall.Text.{codes}
use egresswall.Netip.{Addr, v4}
use egresswall.Packet.{Packet, is_udp}
use egresswall.Dns.{new}
use egresswall.Dns.Sample.{toy}
use egresswall.Learn.{Observer, Entry, FlowKey, new_observer, packet, packet_in, is_outdated}
use egresswall.Learn.Replies.{packet-reply}
use egresswall.Learn.Counts.{CountedNew}
use egresswall.Learn.Run.{began, packet-CountedNew}

abbrev udp : Addr → Addr → ℕ → ℕ → Packet
udp src dst src_port dst_port = record {
  src = src;
  dst = dst;
  proto = 17;
  src_port = src_port;
  dst_port = dst_port;
  syn = false;
  ack = false;
  payload = [];
}

abbrev host : Addr
host = v4 0x0a000001

abbrev peer : Addr
peer = v4 0x08080808

abbrev asked : Packet
asked = udp peer host 4000 123

abbrev answer : Packet
answer = udp host peer 123 4000

abbrev idle : Observer
idle = new_observer (new 60)

packet-reply_example :
    packet toy none (packet_in toy idle asked 5) answer true 9
    ≡ some (packet_in toy idle asked 5, none)
unfolding is_udp is_outdated new_observer egresswall.Common.Maps.get
packet-reply_example =
    packet-reply toy none idle asked answer 5 9 refl refl refl refl (ground arith)

packet-CountedNew_example : CountedNew (packet toy none idle answer true 9)
packet-CountedNew_example = packet-CountedNew toy none idle answer true 9 (began (new 60))

abbrev asking : Packet
asking = udp host peer 4000 123

abbrev answered : Packet
answered = udp peer host 123 4000

abbrev flow : FlowKey
flow = record { host = codes "8.8.8.8"; port = 123; proto = codes "udp" }

abbrev first_entry : Entry
first_entry = record {
  host = codes "8.8.8.8";
  domain = false;
  port = 123;
  proto = codes "udp";
  first = 5;
  last = 5;
  hits = 1;
}

-- The observer behind the first datagram of a flow.
abbrev sent : Observer
sent = record {
  dns = new 60;
  entries = (flow, first_entry) ∷ [];
  ips = (flow, peer ∷ []) ∷ [];
  origins = (flow, ([], 1) ∷ []) ∷ [];
  udp_in = [];
  udp_out = (record { peer = peer; peer_port = 123; local = 4000 }, 5) ∷ [];
}
