-- ===== src/Learn.antt =====
-- internal/learn/learn.go: the observer that keeps the new outbound flows of a host.
-- Times are natural numbers of nanoseconds. `now.Sub(at)` stops at 0 where the source goes below it;
-- it is only compared with the window of a minute, which tells the two apart nowhere.
pub mod Replies
pub mod Counts
pub mod Run
pub mod Write
mod Tests
use egresswall.Common.{
  ℕ, zero, suc, ◌+◌, ◌-◌, ◌*◌, Bool, true, false, not, ◌&&◌, ◌||◌, List, [], ◌∷◌, Option, none,
  some, ◌≡◌, ◌↔◌, ltb, ◌==◌, if◌then◌else◌, Key, arith,
}
use egresswall.Common.Maps.{get, put, delete_if}
use egresswall.Text.{Text, codes, text_eq, text_eq_iff, text_key}
use egresswall.Netip.{
  Addr, addr_eq, addr_eq_iff, addr_key, is_valid, is_loopback, is_multicast, is_unspecified, unmap,
}
use egresswall.Netip.Show.{addr_text}
use egresswall.Packet.{Packet, is_tcp, is_udp}
use egresswall.Dns.{Cache, lookup}
use egresswall.Dns.Message.{DnsMessage, second, observe}

-- The addresses and the origins of an entry stand in maps of their own until Entries copies them.
pub record Entry : Type 0 where
  pub host : Text
  pub domain : Bool
  pub port : ℕ
  pub proto : Text
  pub first : ℕ
  pub last : ℕ
  pub hits : ℕ

pub record FlowKey : Type 0 where
  pub host : Text
  pub port : ℕ
  pub proto : Text

abbrev pub flow_eq : FlowKey → FlowKey → Bool
flow_eq a b = text_eq a.host b.host && (a.port == b.port && text_eq a.proto b.proto)

pub flow_eq_iff : (a b : FlowKey) → (flow_eq a b ≡ true) ↔ (a ≡ b)
flow_eq_iff a b = ground (arith, text_eq_iff a.host b.host, text_eq_iff a.proto b.proto)

instance abbrev pub flow_key : Key FlowKey
flow_key = record { same = flow_eq; same_iff = flow_eq_iff }

pub record UdpTuple : Type 0 where
  pub peer : Addr
  pub peer_port : ℕ
  pub local : ℕ

abbrev pub tuple_eq : UdpTuple → UdpTuple → Bool
tuple_eq a b = addr_eq a.peer b.peer && (a.peer_port == b.peer_port && a.local == b.local)

pub tuple_eq_iff : (a b : UdpTuple) → (tuple_eq a b ≡ true) ↔ (a ≡ b)
tuple_eq_iff a b = ground (arith, addr_eq_iff a.peer b.peer)

instance abbrev pub tuple_key : Key UdpTuple
tuple_key = record { same = tuple_eq; same_iff = tuple_eq_iff }

pub record Observer : Type 0 where
  pub dns : Cache
  pub entries : List (FlowKey × Entry)
  pub ips : List (FlowKey × List Addr)
  pub origins : List (FlowKey × List (Text × ℕ))
  pub udp_in : List (UdpTuple × ℕ)
  pub udp_out : List (UdpTuple × ℕ)

unfoldable pub new_observer : Cache → Observer
new_observer dns = record {
  dns = dns;
  entries = [];
  ips = [];
  origins = [];
  udp_in = [];
  udp_out = [];
}

abbrev pub reply_window : ℕ
reply_window = 60 * second

-- Nothing is known of the tuple, or only something older than the window.
unfoldable pub is_outdated : Option ℕ → ℕ → Bool
is_outdated none now = true
is_outdated (some at) now = ltb reply_window (now - at)

unfoldable pub is_recent : Option ℕ → ℕ → Bool
is_recent none now = false
is_recent (some at) now = ltb (now - at) reply_window

abbrev pub add_once : Addr → List Addr → List Addr
add_once ip [] = ip ∷ []
add_once ip (a ∷ seen) = if addr_eq a ip then a ∷ seen else a ∷ add_once ip seen

unfoldable pub count_origin : Text → List (Text × ℕ) → List (Text × ℕ)
count_origin origin m = elim (get origin m) [
  | none ↦ put origin 1 m
  | some n ↦ put origin (n + 1) m
]

-- The name that the cache has for the address, or its text.
unfoldable pub host_of : Cache → Addr → ℕ → Text × Bool
host_of dns ip now = elim (lookup dns ip now) [
  | none ↦ (addr_text ip, false)
  | some name ↦ (name, true)
]

unfoldable pub new_entry : FlowKey → Bool → ℕ → Entry
new_entry k domain now = record {
  host = k.host;
  domain = domain;
  port = k.port;
  proto = k.proto;
  first = now;
  last = now;
  hits = 0;
}

unfoldable pub hit : Entry → ℕ → Entry
hit e now = record e { hits = e.hits + 1; last = now }

-- The entry of the key with one more hit; a write into a map that is not there is the panic `none`.
unfoldable pub hit_flow : Observer → FlowKey → Entry → Addr → Text → ℕ → Option Observer
unfolding hit count_origin
hit_flow o k e ip origin now = elim (get k o.ips) [
  | none ↦ none
  | some seen ↦ elim (get k o.origins) [
    | none ↦ none
    | some m ↦ some (record o {
      entries = put k (hit e now) o.entries;
      ips = put k (add_once ip seen) o.ips;
      origins = put k (count_origin origin m) o.origins;
    })
  ]
]

unfoldable pub with_flow : Observer → FlowKey → Entry → Observer
with_flow o k e = record o {
  entries = put k e o.entries;
  ips = put k [] o.ips;
  origins = put k [] o.origins;
}

abbrev and_new : Option Entry → Option Observer → Option (Observer × Option Entry)
and_new new none = none
and_new new (some o) = some (o, new)

-- The observer, and the entry that OnNew is called with.
unfoldable pub record_key :
    Observer → FlowKey → Bool → Addr → Text → ℕ → Option (Observer × Option Entry)
record_key o k domain ip origin now = elim (get k o.entries) [
  | some e ↦ and_new none (hit_flow o k e ip origin now)
  | none ↦
      (let e = new_entry k domain now in
        and_new (some (hit e now)) (hit_flow (with_flow o k e) k e ip origin now))
]

unfoldable pub record_flow :
    Observer → Addr → ℕ → Text → Text → ℕ → Option (Observer × Option Entry)
record_flow o ip port proto origin now =
    let (host, domain) = host_of o.dns ip now in
    record_key o (record { host = host; port = port; proto = proto }) domain ip origin now

-- `!p.Dst.IsValid() || p.Dst.IsLoopback() || p.Dst.IsMulticast() || p.Dst.IsUnspecified()`
unfoldable pub is_ignored : Addr → Bool
is_ignored a = not (is_valid a) || is_loopback a || is_multicast a || is_unspecified a

-- Owner, where it is set: the cgroup behind a local address.
abbrev pub Owner : Type 0
Owner = Option (Addr → ℕ → Text → Text)

abbrev origin_of : Owner → Packet → Text → Text
origin_of none p proto = []
origin_of (some owner) p proto = owner p.src p.src_port proto

unfoldable pub packet_flow : Owner → Observer → Packet → Text → ℕ → Option (Observer × Option Entry)
packet_flow owner o p proto now =
    record_flow o (unmap p.dst) p.dst_port proto (origin_of owner p proto) now

abbrev pub tuple_in : Packet → UdpTuple
tuple_in p = record { peer = p.src; peer_port = p.src_port; local = p.dst_port }

abbrev pub tuple_out : Packet → UdpTuple
tuple_out p = record { peer = p.dst; peer_port = p.dst_port; local = p.src_port }

unfoldable pub note_in : Observer → UdpTuple → ℕ → Observer
note_in o t now =
    if is_outdated (get t o.udp_out) now then record o { udp_in = put t now o.udp_in } else o

unfoldable pub note_out : Observer → UdpTuple → ℕ → Observer
note_out o t now =
    if is_outdated (get t o.udp_in) now then record o { udp_out = put t now o.udp_out } else o

unfoldable pub note_dns : DnsMessage → Observer → Packet → ℕ → Observer
note_dns dns o p now =
    if p.src_port == 53 then record o { dns = (observe dns o.dns p.payload now).0 } else o

unfoldable pub packet_in : DnsMessage → Observer → Packet → ℕ → Observer
packet_in dns o p now = if is_udp p then note_in (note_dns dns o p now) (tuple_in p) now else o

unfoldable pub packet_udp : Owner → Observer → Packet → ℕ → Option (Observer × Option Entry)
packet_udp owner o p now =
    let noted = note_out o (tuple_out p) now in
    if is_recent (get (tuple_out p) o.udp_in) now
    then some (noted, none)
    else packet_flow owner noted p (codes "udp") now

unfoldable pub packet_out : Owner → Observer → Packet → ℕ → Option (Observer × Option Entry)
packet_out owner o p now =
    if is_ignored p.dst
    then some (o, none)
    else if is_tcp p
    then (if not p.syn || p.ack then some (o, none) else packet_flow owner o p (codes "tcp") now)
    else if is_udp p
    then packet_udp owner o p now
    else some (o, none)

unfoldable pub packet :
    DnsMessage → Owner → Observer → Packet → Bool → ℕ → Option (Observer × Option Entry)
packet dns owner o p outgoing now =
    if outgoing then packet_out owner o p now else some (packet_in dns o p now, none)

-- `now.Sub(at) > replyWindow`
unfoldable pub is_old : ℕ → ℕ → Bool
is_old now at = ltb reply_window (now - at)

unfoldable pub sweep : Observer → ℕ → Observer
sweep o now = record o {
  udp_in = delete_if (is_old now) o.udp_in;
  udp_out = delete_if (is_old now) o.udp_out;
}
