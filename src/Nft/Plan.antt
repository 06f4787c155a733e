-- ===== src/Nft/Plan.antt =====
-- internal/nft/plan.go: `Plan`, `Build`, `SetFor` and `LogPrefix`.
use egresswall.Common.{
  ℕ, ◌+◌, ◌-◌, Bool, true, false, not, ◌&&◌, ◌||◌, List, [], ◌∷◌, ◌++◌, map, Option, none, some,
  ltb, if◌then◌else◌, is_nil, length, take,
}
use egresswall.Text.{Text, codes, itoa}
use egresswall.Netip.{Addr, Prefix, is4, unmap}
use egresswall.Policy.{Verdict, deny, allow, PortRange, CompiledRule, RuleSet}
use egresswall.Policy.Evaluate.{rules_view}

-- One address that goes into one set, for `ttl` nanoseconds.
pub record Add : Type 0 where
  pub set : Text
  pub ip : Addr
  pub ttl : ℕ

pub data Family : Type 0 where
  any_family ipv4 ipv6 : Family

-- `port.hi` is 0 where any port matches, `prefix` is `none` where no cidr is matched, and `set` is
-- empty where no set is.
pub record Atom : Type 0 where
  pub family : Family
  pub proto : Text
  pub port : PortRange
  pub prefix : Option Prefix
  pub set : Text
  pub cgroup : Text
  pub verdict : Verdict
  pub rule : Text

pub record SetDef : Type 0 where
  pub name : Text
  pub family : Family
  pub rule : ℕ

pub record Plan : Type 0 where
  pub sets : List SetDef
  pub atoms : List Atom
  pub default_deny : Bool
  pub forward : Bool

-- `fmt.Sprintf("r%d_v6", rule)`, and the same with v4 for the other families.
unfoldable pub set_name : ℕ → Family → Text
unfolding itoa
set_name i ipv6 = codes "r" ++ (itoa i ++ codes "_v6")
set_name i f = codes "r" ++ (itoa i ++ codes "_v4")

unfoldable pub set_for : ℕ → Addr → Text
unfolding set_name unmap is4
set_for i ip = if is4 (unmap ip) then set_name i ipv4 else set_name i ipv6

abbrev pub no_port : PortRange
no_port = record { lo = 0; hi = 0 }

-- A rule with no port range is written once, with no port.
abbrev pub port_choices : List PortRange → List PortRange
port_choices [] = no_port ∷ []
port_choices (q ∷ qs) = q ∷ qs

-- What `emit` fills in over the base atom.
abbrev pub complete : CompiledRule → Atom → PortRange → Atom
complete r base port = record base {
  proto = r.proto;
  port = port;
  verdict = r.verdict;
  rule = r.name;
  cgroup = r.cgroup;
}

-- `emit`: one atom for each port range.
unfoldable pub emit : CompiledRule → Atom → List Atom
emit r base = map (complete r base) (port_choices r.ports)

abbrev pub blank_atom : Family → Atom
blank_atom f = record {
  family = f;
  proto = [];
  port = no_port;
  prefix = none;
  set = [];
  cgroup = [];
  verdict = deny;
  rule = [];
}

unfoldable pub family_of : Prefix → Family
unfolding is4
family_of p = if is4 p.addr then ipv4 else ipv6

abbrev pub prefix_atom : Prefix → Atom
prefix_atom p = record (blank_atom (family_of p)) { prefix = some p }

abbrev pub set_atom : ℕ → Family → Atom
set_atom i f = record (blank_atom f) { set = set_name i f }

unfoldable pub emit_prefixes : CompiledRule → List Prefix → List Atom
emit_prefixes r [] = []
emit_prefixes r (p ∷ ps) = emit r (prefix_atom p) ++ emit_prefixes r ps

abbrev pub has_domains : CompiledRule → Bool
has_domains r = not (is_nil r.exact) || not (is_nil r.suffixes)

unfoldable pub emit_sets : ℕ → CompiledRule → List Atom
emit_sets i r = emit r (set_atom i ipv4) ++ emit r (set_atom i ipv6)

-- The atoms that one round of the loop of `Build` appends.
unfoldable pub rule_atoms : ℕ → CompiledRule → List Atom
rule_atoms i r =
    if r.any_host
    then emit r (blank_atom any_family)
    else emit_prefixes r r.prefixes ++ (if has_domains r then emit_sets i r else [])

unfoldable pub rule_sets : ℕ → CompiledRule → List SetDef
unfolding set_name
rule_sets i r =
    if has_domains r
    then record { name = set_name i ipv4; family = ipv4; rule = i }
      ∷ record { name = set_name i ipv6; family = ipv6; rule = i }
      ∷ []
    else []

-- The loop of `Build`.
unfoldable pub build_rules : ℕ → List CompiledRule → Plan → Plan
build_rules i [] p = p
build_rules i (r ∷ rs) p =
    build_rules (i + 1) rs
      (record p { sets = p.sets ++ rule_sets i r; atoms = p.atoms ++ rule_atoms i r })

abbrev pub is_deny : Verdict → Bool
is_deny deny = true
is_deny allow = false

unfoldable pub build : RuleSet → Plan
build s =
    build_rules 0 (rules_view s)
      (record { sets = []; atoms = []; default_deny = is_deny s.default; forward = false })

abbrev pub max_prefix : ℕ
max_prefix = 120

unfoldable pub log_prefix : Text → Text
log_prefix rule =
    let p =
      if is_nil rule
      then codes "egresswall default-deny: "
      else codes "egresswall deny[" ++ (rule ++ codes "]: ") in
    if ltb max_prefix (length p) then take (max_prefix - 3) p ++ codes "..: " else p

-- Forwarded packets have no local socket, so cgroup atoms are left out of that chain.
unfoldable pub in_chain : Atom → Bool → Bool
in_chain a forward = not (forward && not (is_nil a.cgroup))
