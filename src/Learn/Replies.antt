-- ===== src/Learn/Replies.antt =====
-- internal/learn/learn.go, `Packet`: UDP replies are no flows, and responses no reason to suppress one.
use egresswall.Common.{ℕ, ◌-◌, ◌<◌, true, none, some, ◌≡◌, ap, ◌∙◌, arith, List}
use egresswall.Common.Maps.{get, put, get-put}
use egresswall.Text.{Text}
use egresswall.Packet.{Packet, is_udp, is_tcp}
use egresswall.Dns.Message.{DnsMessage}
use egresswall.Learn.{
  Observer, UdpTuple, tuple_key, flow_key, tuple_eq_iff, tuple_in, tuple_out, packet, packet_in,
  packet_out, packet_udp, note_in, note_out, note_dns, is_outdated, is_recent, reply_window, Owner,
}

get-put_self : (t : UdpTuple) (now : ℕ) (m : List (UdpTuple × ℕ)) → get t (put t now m) ≡ some now
get-put_self t now m = ground (arith, get-put t t now m, tuple_eq_iff t t)

udp_in-note_in :
    (o : Observer) (t : UdpTuple) (now : ℕ)
    → is_outdated (get t o.udp_out) now ≡ true
    → get t (note_in o t now).udp_in ≡ some now
unfolding note_in
udp_in-note_in o t now h = rw h (get-put_self t now o.udp_in)

udp_out-note_dns :
    (dns : DnsMessage) (o : Observer) (p : Packet) (now : ℕ)
    → (note_dns dns o p now).udp_out ≡ o.udp_out
unfolding note_dns
udp_out-note_dns dns o p now = ground arith

-- A tuple that was received less than the window ago is answered: nothing changes.
packet_out-reply :
    (owner : Owner) (o : Observer) (q : Packet) (at later : ℕ)
    → is_udp q ≡ true
    → get (tuple_out q) o.udp_in ≡ some at
    → later - at < reply_window
    → packet_out owner o q later ≡ some (o, none)
unfolding packet_out packet_udp note_out is_outdated is_recent is_udp is_tcp
packet_out-reply owner o q at later udp got h = rw (got) (ground arith)

-- After an inbound UDP datagram that answers nothing sent in the last minute, an outbound datagram
-- within the minute that mirrors it, to its sender's address and port from the port it came to, is a
-- reply: it changes nothing and is no new destination.
pub packet-reply :
    (dns : DnsMessage) (owner : Owner) (o : Observer) (p q : Packet) (now later : ℕ)
    → is_udp p ≡ true
    → is_udp q ≡ true
    → tuple_out q ≡ tuple_in p
    → is_outdated (get (tuple_in p) o.udp_out) now ≡ true
    → later - now < reply_window
    → packet dns owner (packet_in dns o p now) q true later ≡ some (packet_in dns o p now, none)
unfolding packet packet_in
packet-reply dns owner o p q now later pudp qudp mirror first h =
    let noted : Observer = note_in (note_dns dns o p now) (tuple_in p) now in
    let known : get (tuple_in p) noted.udp_in ≡ some now =
      udp_in-note_in (note_dns dns o p now) (tuple_in p) now
        (ap (λ m. is_outdated (get (tuple_in p) m) now) (udp_out-note_dns dns o p now) ∙ first) in
    rw pudp (
      packet_out-reply owner noted q now later qudp (ap (λ t. get t noted.udp_in) mirror ∙ known) h)
