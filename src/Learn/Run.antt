-- ===== src/Learn/Run.antt =====
-- internal/learn/learn.go: the observers that any sequence of packets and sweeps makes.
use egresswall.Common.{
  ℕ, Bool, Option, none, some, ◌≡◌, refl, subst, sym, if_both, not, ◌||◌, ◌==◌, ap, ◌∙◌,
}
use egresswall.Common.Maps.{get}
use egresswall.Text.{Text, codes}
use egresswall.Packet.{Packet, is_tcp, is_udp}
use egresswall.Dns.{Cache}
use egresswall.Dns.Message.{DnsMessage}
use egresswall.Learn.{
  Observer, Entry, Owner, new_observer, packet, packet_in, packet_out, packet_udp, packet_flow,
  record_flow, note_in, note_out, note_dns, tuple_in, tuple_out, is_ignored, sweep, tuple_key,
  is_outdated, is_recent,
}
use egresswall.Learn.Counts.{IsCounted, InStep, CountedNew, record_key-IsCounted}

module _ (dns : DnsMessage) (owner : Owner) where
  -- New, then Packet and Sweep in any order and at any times.
  pub data Reached : Observer → Type 0 where
    began : (c : Cache) → Reached (new_observer c)
    observed :
        (o o' : Observer) (p : Packet) (outgoing : Bool) (now : ℕ) (new : Option Entry)
        → Reached o
        → packet dns owner o p outgoing now ≡ some (o', new)
        → Reached o'
    swept : (o : Observer) (now : ℕ) → Reached o → Reached (sweep o now)

  packet_flow-IsCounted :
      (o : Observer) (p : Packet) (proto : Text) (now : ℕ)
      → IsCounted o
      → CountedNew (packet_flow owner o p proto now)
  unfolding packet_flow record_flow
  packet_flow-IsCounted o p proto now c = record_key-IsCounted o _ _ _ _ now c

  unchanged : (o : Observer) → IsCounted o → CountedNew (some (o, none))
  unchanged o c = (o, none, refl, c)

  note_out-IsCounted :
      (o : Observer) (p : Packet) (now : ℕ) → IsCounted o → IsCounted (note_out o (tuple_out p) now)
  unfolding note_out IsCounted
  note_out-IsCounted o p now c =
      if_both IsCounted (is_outdated (get (tuple_out p) o.udp_in) now) c c

  packet_udp-IsCounted :
      (o : Observer) (p : Packet) (now : ℕ) → IsCounted o → CountedNew (packet_udp owner o p now)
  unfolding packet_udp
  packet_udp-IsCounted o p now c =
      let noted : IsCounted (note_out o (tuple_out p) now) = note_out-IsCounted o p now c in
      if_both CountedNew (is_recent (get (tuple_out p) o.udp_in) now)
        (unchanged (note_out o (tuple_out p) now) noted)
        (packet_flow-IsCounted (note_out o (tuple_out p) now) p (codes "udp") now noted)

  packet_out-IsCounted :
      (o : Observer) (p : Packet) (now : ℕ) → IsCounted o → CountedNew (packet_out owner o p now)
  unfolding packet_out
  packet_out-IsCounted o p now c = if_both CountedNew (is_ignored p.dst) (unchanged o c) (
      if_both CountedNew (is_tcp p)
        (if_both CountedNew (not p.syn || p.ack) (unchanged o c)
          (packet_flow-IsCounted o p (codes "tcp") now c))
        (if_both CountedNew (is_udp p) (packet_udp-IsCounted o p now c) (unchanged o c)))

  packet_in-IsCounted :
      (o : Observer) (p : Packet) (now : ℕ) → IsCounted o → IsCounted (packet_in dns o p now)
  unfolding packet_in note_in note_dns IsCounted
  packet_in-IsCounted o p now c =
      let noted : IsCounted (note_dns dns o p now) = if_both IsCounted (p.src_port == 53) c c in
      if_both IsCounted (is_udp p)
        (if_both IsCounted (is_outdated (get (tuple_in p) (note_dns dns o p now).udp_out) now) noted
          noted)
        c

  packet-IsCounted :
      (o : Observer) (p : Packet) (outgoing : Bool) (now : ℕ)
      → IsCounted o
      → CountedNew (packet dns owner o p outgoing now)
  unfolding packet
  packet-IsCounted o p outgoing now c =
      if_both CountedNew outgoing (packet_out-IsCounted o p now c)
        (unchanged (packet_in dns o p now) (packet_in-IsCounted o p now c))

  some_injective : {a b : Observer × Option Entry} → some a ≡ some b → a ≡ b
  some_injective h = cc

  Reached-IsCounted : (o : Observer) → Reached o → IsCounted o
  unfolding new_observer sweep IsCounted InStep get
  Reached-IsCounted _ (began c) = λ k. tt
  Reached-IsCounted _ (swept o now r) = Reached-IsCounted o r
  Reached-IsCounted _ (observed o o' p outgoing now new r h) =
      let (o1, new1, h1, c) = packet-IsCounted o p outgoing now (Reached-IsCounted o r) in
      subst IsCounted (ap (λ x. x.0) (some_injective (sym h1 ∙ h))) c

  -- In any observer that New, packets and sweeps make, the next packet never writes into a map that is
  -- not there, so it does not panic; and in the observer behind it an entry stands under its own host,
  -- port and protocol, has its sets of addresses and of origins, and its hits are the sum of the flows
  -- that its origins count, while a key without an entry has neither set.
  pub packet-CountedNew :
      (o : Observer) (p : Packet) (outgoing : Bool) (now : ℕ)
      → Reached o
      → CountedNew (packet dns owner o p outgoing now)
  packet-CountedNew o p outgoing now r = packet-IsCounted o p outgoing now (Reached-IsCounted o r)
