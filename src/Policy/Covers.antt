-- ===== src/Policy/Covers.antt =====
-- internal/policy/policy.go: what the comments on `Rule` say about when a rule covers a destination,
-- without the code's loops, and that `match` and the loop body of `Evaluate` test exactly that.
use egresswall.Common.{
  ℕ, true, false, List, [], ◌∷◌, ◌++◌, none, ◌≡◌, ◌≢◌, ◌↔◌, ◌⊎◌, arith, ◌≤◌, any, Any, any_iff,
  is_nil,
}
use egresswall.Text.{Text, text_eq, text_eq_iff, lower}
use egresswall.Text.Laws.{EndsIn, BeginsWith, has_suffix_iff, has_prefix_iff}
use egresswall.Netip.{Addr, Prefix, is_valid, unmap, contains}
use egresswall.Policy.{Dest, PortRange, CompiledRule}
use egresswall.Policy.Domain.{normalize_domain, cgroup_within, trim_slashes}
use egresswall.Policy.Evaluate.{
  proto_differs, port_hit, find_suffix, find_prefix, match_ip, match_host, match, rule_reason,
  reason_for,
}

-- One of the exact names, or a wildcard's suffix at the end.
abbrev pub NameCovered : CompiledRule → Text → Type 0
NameCovered r name = Any (λ x. name ≡ x) r.exact ⊎ Any (EndsIn name) r.suffixes

abbrev pub AddrCovered : CompiledRule → Addr → Type 0
AddrCovered r ip = (is_valid ip ≡ true) × Any (λ p. contains p (unmap ip) ≡ true) r.prefixes

abbrev pub HostCovered : CompiledRule → Text → Addr → Type 0
HostCovered r name ip = (r.any_host ≡ true) ⊎ ((name ≢ []) × NameCovered r name) ⊎ AddrCovered r ip

abbrev pub PortCovered : CompiledRule → ℕ → Type 0
PortCovered r port = (r.ports ≡ []) ⊎ Any (λ q. (q.lo ≤ port) × (port ≤ q.hi)) r.ports

-- An unknown protocol of the destination meets every rule.
abbrev pub ProtoCovered : CompiledRule → Text → Type 0
ProtoCovered r proto = (r.proto ≡ []) ⊎ (proto ≡ []) ⊎ (r.proto ≡ proto)

-- The same cgroup, or a path below it.
abbrev pub Within : Text → Text → Type 0
Within child parent = (child ≡ parent) ⊎ BeginsWith child (parent ++ b'/' ∷ [])

abbrev pub CgroupCovered : CompiledRule → Text → Type 0
CgroupCovered r cgroup = (r.cgroup ≡ []) ⊎ Within cgroup r.cgroup

pub record Covers (d : Dest) (r : CompiledRule) : Type 0 where
  pub cgroup : CgroupCovered r (trim_slashes d.cgroup)
  pub proto : ProtoCovered r (lower d.proto)
  pub port : PortCovered r d.port
  pub host : HostCovered r (normalize_domain d.domain) d.ip

pub is_nil_iff : {A : Type 0} (xs : List A) → (is_nil xs ≡ true) ↔ (xs ≡ [])
is_nil_iff [] = ground arith
is_nil_iff (x ∷ xs) = ground arith

pub cgroup_within_iff :
    (child parent : Text) → (cgroup_within child parent ≡ true) ↔ Within child parent
unfolding cgroup_within
cgroup_within_iff child parent =
    ground (arith, text_eq_iff child parent, has_prefix_iff child (parent ++ b'/' ∷ []))

port_hit_iff :
    (port : ℕ) (rs : List PortRange)
    → (port_hit port rs ≡ true) ↔ Any (λ q. (q.lo ≤ port) × (port ≤ q.hi)) rs
unfolding port_hit
port_hit_iff port [] = ground arith
port_hit_iff port (r ∷ rs) = ground (arith, port_hit_iff port rs)

find_suffix-ne-none_iff :
    (name : Text) (sufs : List Text) → (find_suffix name sufs ≢ none) ↔ Any (EndsIn name) sufs
unfolding find_suffix
find_suffix-ne-none_iff name [] = ground arith
find_suffix-ne-none_iff name (s ∷ sufs) =
    ground (arith, has_suffix_iff name s, find_suffix-ne-none_iff name sufs)

find_prefix-ne-none_iff :
    (ip : Addr) (ps : List Prefix) → (find_prefix ip ps ≢ none) ↔ Any (λ p. contains p ip ≡ true) ps
unfolding find_prefix
find_prefix-ne-none_iff ip [] = ground arith
find_prefix-ne-none_iff ip (p ∷ ps) = ground (arith, find_prefix-ne-none_iff ip ps)

match_ip-ne-none_iff : (r : CompiledRule) (ip : Addr) → (match_ip r ip ≢ none) ↔ AddrCovered r ip
unfolding match_ip
match_ip-ne-none_iff r ip = ground (arith, find_prefix-ne-none_iff (unmap ip) r.prefixes)

any_exact_iff :
    (name : Text) (xs : List Text) → (any (text_eq name) xs ≡ true) ↔ Any (λ x. name ≡ x) xs
any_exact_iff name = any_iff (λ x. name ≡ x) (text_eq name) (text_eq_iff name)

match_host-ne-none_iff :
    (r : CompiledRule) (name : Text) (ip : Addr)
    → (match_host r name ip ≢ none) ↔ (((name ≢ []) × NameCovered r name) ⊎ AddrCovered r ip)
unfolding match_host
match_host-ne-none_iff r name ip = ground (
  arith,
  is_nil_iff name,
  any_exact_iff name r.exact,
  find_suffix-ne-none_iff name r.suffixes,
  match_ip-ne-none_iff r ip,
)

proto_differs_iff :
    (r : CompiledRule) (proto : Text) → (proto_differs r proto ≡ false) ↔ ProtoCovered r proto
unfolding proto_differs
proto_differs_iff r proto =
    ground (arith, is_nil_iff r.proto, is_nil_iff proto, text_eq_iff r.proto proto)

-- `match` returns true exactly when protocol, port and host are covered.
match-ne-none_iff :
    (r : CompiledRule) (name : Text) (ip : Addr) (port : ℕ) (proto : Text)
    → (match r name ip port proto ≢ none)
      ↔ (ProtoCovered r proto × PortCovered r port × HostCovered r name ip)
unfolding match
match-ne-none_iff r name ip port proto = ground (
  arith,
  proto_differs_iff r proto,
  is_nil_iff r.ports,
  port_hit_iff port r.ports,
  match_host-ne-none_iff r name ip,
)

-- The body of the loop of `Evaluate` decides exactly on the destinations that the rule covers.
pub reason_for_iff : (d : Dest) (r : CompiledRule) → (reason_for d r ≢ none) ↔ Covers d r
unfolding rule_reason
reason_for_iff d r = ground (
  arith,
  is_nil_iff r.cgroup,
  cgroup_within_iff (trim_slashes d.cgroup) r.cgroup,
  match-ne-none_iff r (normalize_domain d.domain) d.ip d.port (lower d.proto),
)
