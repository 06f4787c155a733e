-- ===== src/Enforce/Loop.antt =====
-- cmd/egresswall/enforce.go: the main loop of `enforce`, from one frame to the next, and what it reports.
-- A round is given what the system answers in it; the daemon's lines and alerts are kept, the first one
-- first. The goroutine that reads the kernel log is not part of the loop.
pub mod Silent
pub mod Spaced
mod Tests
use egresswall.Common.{
  ℕ, ◌-◌, ◌*◌, Bool, true, false, not, ◌&&◌, ◌||◌, List, [], ◌∷◌, ◌++◌, map, any, Option, none,
  some, ltb, ◌==◌, if◌then◌else◌, is_nil, Result, ok, err,
}
use egresswall.Common.Maps.{get, put}
use egresswall.Text.{Text, codes, text_key, itoa, has_suffix}
use egresswall.Netip.{Addr, unmap, is_loopback}
use egresswall.Netip.Show.{addr_text}
use egresswall.Packet.{Packet, PacketError, is_tcp, is_udp, parse}
use egresswall.Dns.{Cache, Answer, Found, lookup, record_answer, purge}
use egresswall.Dns.Message
use egresswall.Dns.Message.{DnsMessage, DnsError, second}
use egresswall.Policy.{Verdict, deny, allow, Dest, Decision, RuleSet, CompiledRule}
use egresswall.Policy.Evaluate.{evaluate, rules_view}
use egresswall.Alert.{Event}
use egresswall.Nft.Plan.{Plan}
use egresswall.Nft.Exprs.{Handle, CgroupStat, inode, absent, unreadable}
use egresswall.Nft.Apply.{System, apply, add_addrs, missing}
use egresswall.Enforce.{feed, learn_min_ttl}

-- The options -dry-run and -verbose, and whether alerts have a webhook.
pub record Options : Type 0 where
  pub dry_run : Bool
  pub verbose : Bool
  pub webhook : Bool

pub data Read : Type 0 where
  timed_out read_failed : Read
  frame : List ℕ → Bool → Read

-- What a round is given: the time, the frame, the cgroup that owns a local port, the addresses that the
-- resolver has for a name, and what the kernel answers.
pub record World : Type 0 where
  pub now : ℕ
  pub read : Read
  pub owner : Addr → ℕ → Text → Text
  pub resolve : Text → Option (List Addr)
  pub system : System

pub data Line : Type 0 where
  reported adding_failed inactive seed_failed : Text → Line
  reload_failed reloaded : Line

pub record Daemon : Type 0 where
  pub dns : Cache
  pub handle : Option Handle
  pub seen : List (Text × ℕ)
  pub alerts : List Event
  pub lines : List Line
  pub last_sweep : ℕ
  pub last_check : ℕ

abbrev pub say : Line → Daemon → Daemon
say line d = record d { lines = d.lines ++ (line ∷ []) }

unfoldable pub dest_text : Text → Text → ℕ → Text → Text
dest_text ip name port proto =
    if is_nil name
    then ip ++ (codes ":" ++ (itoa port ++ (codes " " ++ proto)))
    else ip ++ (codes " (" ++ (name ++ (codes "):" ++ (itoa port ++ (codes " " ++ proto)))))

abbrev pub name_of : Option Text → Text
name_of none = []
name_of (some name) = name

-- The destination that `report` has of a packet.
unfoldable pub report_dest : World → Cache → Packet → Dest
report_dest w dns p =
    let proto = if is_udp p then codes "udp" else codes "tcp" in
    record {
      domain = name_of (lookup dns p.dst w.now);
      ip = p.dst;
      port = p.dst_port;
      proto = proto;
      cgroup = w.owner p.src p.src_port proto;
    }

unfoldable pub seen_key : Dest → Text
seen_key d = addr_text d.ip ++ (codes ":" ++ (itoa d.port ++ (codes "/" ++ d.proto)))

abbrev pub report_window : ℕ
report_window = 10 * second

unfoldable pub is_recent : Option ℕ → ℕ → Bool
is_recent none now = false
is_recent (some last) now = ltb (now - last) report_window

abbrev pub is_denied : Verdict → Bool
is_denied deny = true
is_denied allow = false

unfoldable pub alert_of : ℕ → Dest → Decision → Event
alert_of now d dec = record {
  at = now;
  rule = dec.rule;
  host = d.domain;
  ip = d.ip;
  port = d.port;
  proto = d.proto;
  cgroup = d.cgroup;
}

unfoldable pub report_line : Options → Dest → Decision → Text
report_line o d dec =
    (if is_denied dec.verdict
      then (if o.dry_run then codes "would deny" else codes "deny ")
      else codes "allow")
    ++ (codes "  "
        ++ (dest_text (addr_text d.ip) d.domain d.port d.proto
            ++ (codes "  "
                ++ (dec.reason
                    ++ (if not (is_nil d.cgroup)
                          && not (has_suffix dec.reason (codes " from " ++ d.cgroup))
                        then codes "  from " ++ d.cgroup
                        else [])))))

-- `report`, behind the test of the last report of the same destination.
unfoldable pub report_fresh : Options → ℕ → Dest → Decision → Daemon → Daemon
report_fresh o now dest dec d =
    let noted = record d { seen = put (seen_key dest) now d.seen } in
    let sent =
      if is_denied dec.verdict && (o.dry_run && o.webhook)
      then record noted { alerts = noted.alerts ++ (alert_of now dest dec ∷ []) }
      else noted in
    if not (is_denied dec.verdict) && not o.verbose
    then sent
    else say (reported (report_line o dest dec)) sent

unfoldable pub report : Options → RuleSet → World → Packet → Daemon → Daemon
report o s w p d =
    let dest = report_dest w d.dns p in
    if is_recent (get (seen_key dest) d.seen) w.now
    then d
    else report_fresh o w.now dest (evaluate s dest) d

-- `feed` on the handle: an error is only printed.
unfoldable pub feed_handle : RuleSet → World → Answer → Handle → Daemon → Daemon
feed_handle s w a h d = elim (add_addrs w.system h (feed s a)) [
  | ok after ↦ record d { handle = some after }
  | err e ↦ say (adding_failed a.name) d
]

unfoldable pub feed_daemon : RuleSet → World → Answer → Daemon → Daemon
feed_daemon s w a d = elim d.handle [ none ↦ d | some h ↦ feed_handle s w a h d ]

unfoldable pub on_answer : RuleSet → World → Answer × Option DnsError → Daemon → Daemon
on_answer s w (a, some e) d = d
on_answer s w (a, none) d =
    if is_nil a.name then d else feed_daemon s w a (record d { dns = record_answer d.dns a w.now })

unfoldable pub seed_name : RuleSet → World → Daemon → Text → Daemon
seed_name s w d name = elim (w.resolve name) [
  | none ↦ say (seed_failed name) d
  | some ips ↦
      (let a : Answer = record {
        name = name;
        addrs = map (λ ip. record { ip = unmap ip; ttl = learn_min_ttl }) ips;
      } in
        feed_daemon s w a (record d { dns = record_answer d.dns a w.now }))
]

unfoldable pub seed_names : RuleSet → World → List Text → Daemon → Daemon
seed_names s w [] d = d
seed_names s w (name ∷ names) d = seed_names s w names (seed_name s w d name)

unfoldable pub seed_rules : RuleSet → World → List CompiledRule → Daemon → Daemon
seed_rules s w [] d = d
seed_rules s w (r ∷ rs) d = seed_rules s w rs (seed_names s w r.exact d)

unfoldable pub seed : RuleSet → World → Daemon → Daemon
seed s w d = seed_rules s w (rules_view s) d

unfoldable pub warn_missing : List Text → Daemon → Daemon
warn_missing [] d = d
warn_missing (cg ∷ rest) d = warn_missing rest (say (inactive cg) d)

-- `CgroupExists` of internal/nft/apply_linux.go
unfoldable pub cgroup_exists : CgroupStat → Bool
cgroup_exists (inode n) = true
cgroup_exists absent = false
cgroup_exists unreadable = false

unfoldable pub appeared : System → List Text → Bool
appeared sys names = any (λ cg. cgroup_exists (sys.stat cg)) names

unfoldable pub reload : RuleSet → Plan → World → Daemon → Daemon
reload s plan w d = elim (apply w.system plan) [
  | err e ↦ say reload_failed d
  | ok fresh ↦
      seed s w (warn_missing (missing fresh) (say reloaded (record d { handle = some fresh })))
]

unfoldable pub check_cgroups : RuleSet → Plan → World → Daemon → Daemon
check_cgroups s plan w d = elim d.handle [
  | none ↦ d
  | some h ↦
      (let checked : Daemon = record d { last_check = w.now } in
        if not (ltb (5 * second) (w.now - d.last_check))
        then d
        else if appeared w.system (missing h)
        then reload s plan w checked
        else checked)
]

unfoldable pub sweep : World → Daemon → Daemon
sweep w d =
    if ltb (30 * second) (w.now - d.last_sweep)
    then record d { dns = purge d.dns w.now; last_sweep = w.now }
    else d

abbrev pub is_reported : Packet → Bool → Bool
is_reported p outgoing =
    outgoing && (((is_tcp p && (p.syn && not p.ack)) || is_udp p) && not (is_loopback p.dst))

module _ (dns : DnsMessage) where
  unfoldable pub on_packet : Options → RuleSet → Plan → World → Packet → Bool → Daemon → Daemon
  on_packet o s plan w p outgoing d =
      if not outgoing && (is_udp p && p.src_port == 53)
      then on_answer s w (Message.parse dns p.payload) d
      else check_cgroups s plan w (sweep w (if is_reported p outgoing then report o s w p d else d))

  -- One round of the loop; none where the loop returns.
  unfoldable pub round : Options → RuleSet → Plan → World → Daemon → Option Daemon
  round o s plan w d = elim w.read [
    | timed_out ↦ some d
    | read_failed ↦ none
    | frame bytes outgoing ↦ elim (parse bytes) [
      | ok p ↦ some (on_packet o s plan w p outgoing d)
      | err e ↦ some d
    ]
  ]

  -- The rounds up to where the loop returns.
  unfoldable pub rounds : Options → RuleSet → Plan → List World → Daemon → Daemon
  rounds o s plan [] d = d
  rounds o s plan (w ∷ ws) d = elim (round o s plan w d) [
    | none ↦ d
    | some after ↦ rounds o s plan ws after
  ]
