-- ===== src/Nft/Apply/Tests.antt =====
-- The sample policy, loaded, and instances of the theorems on what is loaded.
use egresswall.Common.{
  ℕ, Bool, true, false, ◌&&◌, List, [], ◌∷◌, ◌++◌, map, any, All, none, some, ◌≡◌, ◌≢◌, ◌↔◌, inl,
  inr, refl, arith, if◌then◌else◌, ok, err, each_ok, take, length,
}
use egresswall.Text.{Text, codes, split, text_eq, lower, itoa, trim_both}
use egresswall.Netip.{v4, is4, unmap, masked}
use egresswall.Netip.Bytes.{bytes, as_slice}
use egresswall.Policy.{Dest, allow}
use egresswall.Policy.Domain.{cgroup_within}
use egresswall.Policy.Evaluate.{rules_view, rule_view, insert_sorted, sort_texts}
use egresswall.Policy.Tests.{sample, sample_set, compile-sample}
use egresswall.Nft.Plan.{
  Atom, ipv4, blank_atom, build, set_name, build_rules, rule_sets, rule_atoms, emit_prefixes, emit,
  emit_sets, family_of, in_chain, log_prefix,
}
use egresswall.Nft.Kernel.{SetState, flow_of, atom_hits}
use egresswall.Nft.Exprs.{
  Expr, network, transport, Message, add_anonymous_set, inode, absent, Handle, Kernel, native_bytes,
  be16, cgroup_level, atom_exprs, cgroup_exprs, address_exprs, proto_exprs, anon_name, cgroup_id,
  daddr_load, established_accept, family_exprs, loopback_accept, mask_of, oif_prefix_accept, or_at,
  port_exprs, prefix_exprs, refuse, set_exprs, tcp_or_udp, verdict_exprs,
}
use egresswall.Nft.Exprs.Machine.{Traffic, Carries, Loaded, run}
use egresswall.Nft.Exprs.Guards.{length-native_bytes}
use egresswall.Nft.Exprs.Faithful.{ending_of}
use egresswall.Nft.Exprs.Sendable.{IsPrefix, build-IsSendable}
use egresswall.Nft.Apply.{
  System, apply, forward_chain, delete_own, define_set, output_rules, chain_body, housekeeping_step,
  add_missing, atom_rule, atom_step, bridge_rules, flush, forward_rules, own_tables, rule,
}
use egresswall.Nft.Apply.Chains.{fate}
use egresswall.Nft.Apply.Ends.{forward_end}
use egresswall.Nft.Apply.Decides.{apply-forward_end}
use egresswall.Nft.Exprs.Faithful.{run-atom_exprs}
use egresswall.Common.Maps.{get, put}
use egresswall.Netip.{Addr, v6, is_mapped}
use egresswall.Nft.Plan.{Add}
use egresswall.Nft.Exprs.{unreadable}
use egresswall.Nft.Apply.{add_addrs, group_step, send_step}
use egresswall.Nft.Apply.{missing}
use egresswall.Nft.Apply.Lost.{lost, missing-apply}
use egresswall.Nft.Apply.Succeeds.{IsWilling, apply-succeeds}
use egresswall.Nft.Apply.Elements.{sends, wants, add_addrs-sends}
use egresswall.Common.{◌≢◌}
use egresswall.Nft.Apply.Evaluated.{plan_of}

abbrev app : Text
app = codes "system.slice/app.service"

-- The cgroup of the sample_packet and its parents exist, each with its level as its inode.
abbrev system : System
system = record {
  stat = λ path. if cgroup_within app path then inode (length (split b'/' path)) else absent;
  connects = true;
  tables = some (codes "filter" ∷ codes "egresswall" ∷ []);
  refuses = λ m. false;
  flushes = λ ms. true;
  order = λ names. names;
}

abbrev internal : Dest
internal = record {
  domain = [];
  ip = v4 0x0a010203;
  port = 8080;
  proto = codes "tcp";
  cgroup = codes "/system.slice/app.service";
}

abbrev sample_packet : Traffic
sample_packet = record {
  interface = codes "eth0" ++ (0 ∷ 0 ∷ 0 ∷ 0 ∷ 0 ∷ 0 ∷ 0 ∷ 0 ∷ 0 ∷ 0 ∷ 0 ∷ 0 ∷ []);
  family = 2;
  protocol = 6;
  state = 8 ∷ 0 ∷ 0 ∷ 0 ∷ [];
  cgroup_at = λ level. some (native_bytes 8 level);
  header = λ base at n. elim base [ network ↦ 10 ∷ 1 ∷ 2 ∷ 3 ∷ [] | transport ↦ 31 ∷ 144 ∷ [] ];
  holds = λ name key.
      text_eq (take 2 name) (codes "__") && any (text_eq key) ((6 ∷ []) ∷ (17 ∷ []) ∷ []);
}

abbrev none_held : SetState
none_held name ip = false

abbrev handle_of : Kernel Handle → Handle
handle_of (ok h) = h
handle_of (err e) = record { sets = []; anon = 0; missing = []; messages = [] }

-- The anonymous sets among the messages hold their elements.
abbrev Filled : Traffic → List Message → Type 0
Filled t [] = Unit
Filled t (add_anonymous_set name elements ∷ ms) =
    ((key : List ℕ) → t.holds name key ≡ any (text_eq key) elements) × Filled t ms
Filled t (m ∷ ms) = Filled t ms

Filled-Loaded : (t : Traffic) (ms : List Message) → Filled t ms → Loaded ms t
Filled-Loaded t [] h name elements there key = absurd there
Filled-Loaded t (add_anonymous_set n es ∷ ms) h name elements (inl e) key = ground (arith, h.0 key)
Filled-Loaded t (add_anonymous_set n es ∷ ms) h name elements (inr e) key =
    Filled-Loaded t ms h.1 name elements e key
Filled-Loaded t (m ∷ ms) h name elements (inl e) key = absurd (ground arith)
Filled-Loaded t (m ∷ ms) h name elements (inr there) key =
    Filled-Loaded t ms h name elements there key

abbrev loaded_sample : Kernel Handle
loaded_sample = apply system (plan_of sample_set true)

abbrev is_ok : Kernel Handle → Bool
is_ok (ok h) = true
is_ok (err e) = false

ok-handle_of : (r : Kernel Handle) → is_ok r ≡ true → r ≡ ok (handle_of r)
ok-handle_of (ok h) e = refl
ok-handle_of (err x) e = cc

sample_loads : is_ok loaded_sample ≡ true
unfolding apply delete_own each_ok build build_rules rules_view rule_sets define_set output_rules
    chain_body housekeeping_step atom_exprs cgroup_exprs address_exprs proto_exprs rule_atoms
    emit_prefixes emit as_slice bytes is4 masked add_missing atom_rule atom_step bridge_rules flush
    forward_rules own_tables rule anon_name be16 cgroup_id cgroup_level split daddr_load
    established_accept family_exprs loopback_accept mask_of native_bytes oif_prefix_accept or_at
    port_exprs prefix_exprs refuse set_exprs tcp_or_udp verdict_exprs emit_sets family_of in_chain
    log_prefix set_name insert_sorted rule_view sort_texts itoa cgroup_within
sample_loads = refl

sample-Filled : Filled sample_packet (handle_of loaded_sample).messages
unfolding apply delete_own each_ok build build_rules rules_view rule_sets define_set output_rules
    chain_body housekeeping_step atom_exprs cgroup_exprs address_exprs proto_exprs rule_atoms
    emit_prefixes emit as_slice bytes is4 masked add_missing atom_rule atom_step bridge_rules flush
    forward_rules own_tables rule anon_name be16 cgroup_id cgroup_level split daddr_load
    established_accept family_exprs loopback_accept mask_of native_bytes oif_prefix_accept or_at
    port_exprs prefix_exprs refuse set_exprs tcp_or_udp verdict_exprs emit_sets family_of in_chain
    log_prefix set_name insert_sorted rule_view sort_texts itoa cgroup_within
sample-Filled = (λ k. refl, (λ k. refl, (λ k. refl, (λ k. refl, tt))))

flow_cgroup : (flow_of internal).cgroup ≡ app
unfolding flow_of trim_both
flow_cgroup = refl

sample_packet-Carries :
    Carries
      (map (λ e. e.name) (build sample_set).sets)
      none_held
      system.stat
      (flow_of internal)
      sample_packet
unfolding flow_of lower unmap be16 bytes as_slice
sample_packet-Carries = record {
  address = inl (0x0a010203, refl, omega arith, refl, refl);
  transport = inl (refl, refl);
  port = refl;
  port_range = omega arith;
  cgroup = λ path n named known. ground (arith, flow_cgroup);
  cgroup_size = λ level id same. ground (arith, length-native_bytes 8 level);
  members = λ name there. ground arith;
}

sample_prefixes : All (λ r. All IsPrefix r.prefixes) sample_set.rules
unfolding family_of is4
sample_prefixes = (
  (inl (0xa9fea9fe, refl, refl, omega arith, omega arith), tt),
  (tt, ((inl (0x0a000000, refl, refl, omega arith, omega arith), tt), (tt, tt))),
)

apply-forward_end_example :
    fate sample_packet forward_chain (handle_of loaded_sample).messages
    ≡ forward_end system sample_packet none_held (flow_of internal) (plan_of sample_set true)
apply-forward_end_example =
    apply-forward_end system (plan_of sample_set true) none_held (flow_of internal) sample_packet
      (handle_of loaded_sample) (ok-handle_of loaded_sample sample_loads)
      (build-IsSendable sample sample_set compile-sample sample_prefixes) sample_packet-Carries
      (Filled-Loaded sample_packet (handle_of loaded_sample).messages sample-Filled) refl

abbrev internal_atom : Atom
internal_atom = record (blank_atom ipv4) {
  proto = codes "tcp";
  port = record { lo = 8000; hi = 8100 };
  prefix = some (record { addr = v4 0x0a000000; bits = 8 });
  cgroup = app;
  verdict = allow;
  rule = codes "internal";
}

abbrev sample_handle : Handle
sample_handle = record {
  sets = map (λ e. e.name) (build sample_set).sets;
  anon = 0;
  missing = [];
  messages = [];
}

abbrev internal_exprs : Kernel (Handle × List Expr)
internal_exprs = atom_exprs system.stat system.refuses sample_handle internal_atom

abbrev exprs_of : Kernel (Handle × List Expr) → List Expr
exprs_of (ok r) = r.1
exprs_of (err e) = []

run-atom_exprs_example : run sample_packet (exprs_of internal_exprs) [] none ≡ (
    if atom_hits none_held (flow_of internal) internal_atom
    then some (ending_of allow (codes "internal"))
    else none)
unfolding atom_exprs cgroup_exprs cgroup_id cgroup_within address_exprs proto_exprs
run-atom_exprs_example =
    run-atom_exprs system.stat system.refuses sample_handle sample_handle internal_atom
      (exprs_of internal_exprs) none_held (flow_of internal) sample_packet
      (record {
        proto = inr (inl refl);
        ports = (omega arith, omega arith);
        address = inl (0x0a000000, refl, refl, omega arith, omega arith);
      })
      sample_packet-Carries (Filled-Loaded sample_packet [] tt) refl

willing : IsWilling system
willing = record {
  connects = refl;
  lists = (codes "filter" ∷ codes "egresswall" ∷ [], refl);
  takes = λ m. refl;
  flushes = λ ms. refl;
  stats = λ path e. unreadable_never (cgroup_within app path) (length (split b'/' path)) e;
}
  where
    unreadable_never : (b : Bool) (n : ℕ) → (if b then inode n else absent) ≢ unreadable
    unreadable_never true n e = cc
    unreadable_never false n e = cc

apply-succeeds_example : (h : Handle) × (apply system (plan_of sample_set true) ≡ ok h)
apply-succeeds_example = apply-succeeds system willing sample_set true

abbrev address : Addr → Add
address ip = record { set = codes "r1_v4"; ip = ip; ttl = 300 }

abbrev two_added : Kernel Handle
two_added = add_addrs system sample_handle (address (v4 1) ∷ address (v6 0xffff00000002 []) ∷ [])

add_addrs-sends_example :
    sends (handle_of two_added).messages (codes "r1_v4") (0 ∷ 0 ∷ 0 ∷ 2 ∷ [])
    ≡ wants
        (address (v4 1) ∷ address (v6 0xffff00000002 []) ∷ [])
        (codes "r1_v4")
        (0 ∷ 0 ∷ 0 ∷ 2 ∷ [])
unfolding add_addrs each_ok group_step send_step flush get put as_slice bytes unmap is_mapped build
    build_rules rules_view rule_sets set_name itoa rule_view insert_sorted sort_texts
add_addrs-sends_example =
    add_addrs-sends system sample_handle (handle_of two_added) (address (v4 1))
      (address (v6 0xffff00000002 []) ∷ []) (codes "r1_v4") (0 ∷ 0 ∷ 0 ∷ 2 ∷ []) (λ names. refl)
      refl

missing-apply_example :
    (any (text_eq app) (missing (handle_of loaded_sample)) ≡ true)
    ↔ (any (lost system.stat app) (plan_of sample_set true).atoms ≡ true)
missing-apply_example =
    missing-apply system app (plan_of sample_set true) (handle_of loaded_sample)
      (ok-handle_of loaded_sample sample_loads)
