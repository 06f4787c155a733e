-- ===== src/Nft/Kernel.antt =====
-- What the rules of a plan mean to the kernel, as `Atom` and the nft syntax of `Atom.text` in
-- internal/nft/plan.go document it: an atom matches when all of its parts do, and the first atom that
-- matches decides. This is the specification that `Build` is held to, and no code of the repository.
use egresswall.Common.{
  ℕ, Bool, true, false, ◌&&◌, ◌||◌, List, [], ◌∷◌, Option, none, some, if◌then◌else◌, is_nil, leb,
  ◌==◌,
}
use egresswall.Text.{Text, codes, text_eq, lower}
use egresswall.Netip.{Addr, v4, v6, Prefix, contains, unmap}
use egresswall.Policy.{Verdict, deny, allow, PortRange, Dest}
use egresswall.Policy.Domain.{cgroup_within, trim_slashes}
use egresswall.Nft.Plan.{Family, any_family, ipv4, ipv6, Atom, Plan}

-- The first packet of a connection: where it goes, and the cgroup path of its socket.
pub record Flow : Type 0 where
  pub dst : Addr
  pub port : ℕ
  pub proto : Text
  pub cgroup : Text

-- Which addresses the named sets hold.
abbrev pub SetState : Type 0
SetState = Text → Addr → Bool

abbrev pub family_hits : Family → Addr → Bool
family_hits any_family ip = true
family_hits ipv4 (v4 a) = true
family_hits ipv6 (v6 a z) = true
family_hits _ _ = false

-- `ip daddr 10.0.0.0/8`, `ip daddr @r0_v4`, or nothing.
abbrev pub address_hits : SetState → Option Prefix → Text → Addr → Bool
address_hits sets (some p) set ip = contains p ip
address_hits sets none set ip = if is_nil set then true else sets set ip

-- `tcp dport 443`, `meta l4proto udp`, `meta l4proto { tcp, udp } th dport 53`, or nothing.
abbrev pub transport_hits : Text → PortRange → Flow → Bool
transport_hits proto q f =
    (is_nil proto || text_eq proto f.proto)
    && (q.hi == 0
        || ((text_eq f.proto (codes "tcp") || text_eq f.proto (codes "udp"))
            && (leb q.lo f.port && leb f.port q.hi)))

unfoldable pub atom_hits : SetState → Flow → Atom → Bool
atom_hits sets f a =
    (is_nil a.cgroup || cgroup_within f.cgroup a.cgroup)
    && (family_hits a.family f.dst
        && (address_hits sets a.prefix a.set f.dst && transport_hits a.proto a.port f))

-- The first atom that matches, if one does.
unfoldable pub first_hit : SetState → Flow → List Atom → Option Atom
unfolding atom_hits
first_hit sets f [] = none
first_hit sets f (a ∷ rest) =
    let later = first_hit sets f rest in if atom_hits sets f a then some a else later

-- The verdict on a flow, and the name of the rule that gave it: empty for the chain's policy.
unfoldable pub outcome : Verdict → Option Atom → Verdict × Text
outcome default none = (default, [])
outcome default (some a) = (a.verdict, a.rule)

unfoldable pub kernel_decision : Plan → SetState → Flow → Verdict × Text
unfolding outcome
kernel_decision p sets f =
    outcome (if p.default_deny then deny else allow) (first_hit sets f p.atoms)

-- The flow of a destination as `Evaluate` normalises it.
unfoldable pub flow_of : Dest → Flow
flow_of d = record {
  dst = unmap d.ip;
  port = d.port;
  proto = lower d.proto;
  cgroup = trim_slashes d.cgroup;
}
