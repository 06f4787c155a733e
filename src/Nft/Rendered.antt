-- ===== src/Nft/Rendered.antt =====
-- internal/nft/plan.go, `Text`: the plan in nft syntax, as `egresswall enforce -print` shows it.
-- `quote` is strconv.Quote, which the verb %q prints with.
mod Tests
use egresswall.Common.{
  ℕ, Bool, true, false, not, ◌&&◌, List, [], ◌∷◌, ◌++◌, Option, none, some, ◌≡◌, refl, ◌==◌,
  if◌then◌else◌, is_nil,
}
use egresswall.Text.{Text, codes, itoa, join}
use egresswall.Netip.{Addr, Prefix, bit_len}
use egresswall.Netip.Show.{addr_text, prefix_text}
use egresswall.Policy.{Verdict, deny, allow, PortRange}
use egresswall.Nft.Plan.{
  Family, any_family, ipv4, ipv6, Atom, SetDef, Plan, family_of, in_chain, log_prefix,
}
use egresswall.Nft.Exprs.{cgroup_level}
use egresswall.Nft.Apply.{housekeeping, bridge_prefixes, table_name, chain_name, forward_chain}

unfoldable pub family_word : Family → Text
family_word ipv6 = codes "ip6"
family_word f = codes "ip"

-- `prefixText`
unfoldable pub short_prefix : Prefix → Text
short_prefix p = if p.bits == bit_len p.addr then addr_text p.addr else prefix_text p

unfoldable pub port_text : PortRange → Text
port_text q = if q.lo == q.hi then itoa q.lo else itoa q.lo ++ (codes "-" ++ itoa q.hi)

unfoldable pub address_part : Family → Option Prefix → Text → List Text
address_part f (some p) set = (family_word f ++ (codes " daddr " ++ short_prefix p)) ∷ []
address_part f none set =
    if is_nil set then [] else (family_word f ++ (codes " daddr @" ++ set)) ∷ []

unfoldable pub transport_part : Text → PortRange → List Text
transport_part proto q =
    if not (is_nil proto) && not (q.hi == 0)
    then (proto ++ (codes " dport " ++ port_text q)) ∷ []
    else if not (is_nil proto)
    then (codes "meta l4proto " ++ proto) ∷ []
    else if not (q.hi == 0)
    then (codes "meta l4proto { tcp, udp } th dport " ++ port_text q) ∷ []
    else []

module _ (quote : Text → Text) where
  unfoldable pub refuse_text : Text → Text
  refuse_text name =
      codes "log prefix "
      ++ (quote (log_prefix name) ++ codes " reject with icmpx type admin-prohibited")

  unfoldable pub verdict_part : Verdict → Text → Text
  verdict_part allow name = codes "accept"
  verdict_part deny name = refuse_text name

  unfoldable pub cgroup_part : Text → List Text
  cgroup_part cgroup =
      if is_nil cgroup
      then []
      else (codes "socket cgroupv2 level "
          ++ (itoa (cgroup_level cgroup) ++ (codes " " ++ quote cgroup)))
        ∷ []

  unfoldable pub atom_text : Atom → Text
  atom_text a = join (codes " ") (
      cgroup_part a.cgroup
      ++ (address_part a.family a.prefix a.set
          ++ (transport_part a.proto a.port ++ (verdict_part a.verdict a.rule ∷ []))))

  unfoldable pub housekeeping_lines : List Prefix → Text
  housekeeping_lines [] = []
  housekeeping_lines (p ∷ ps) =
      codes "\t\t"
      ++ (family_word (family_of p)
          ++ (codes " daddr " ++ (prefix_text p ++ (codes " accept\n" ++ housekeeping_lines ps))))

  unfoldable pub atom_lines : Bool → List Atom → Text
  atom_lines fwd [] = []
  atom_lines fwd (a ∷ atoms) =
      let rest = atom_lines fwd atoms in
      if not (in_chain a fwd) then rest else codes "\t\t" ++ (atom_text a ++ (codes "\n" ++ rest))

  unfoldable pub body_text : Plan → Bool → Text
  body_text p fwd =
      codes "\t\tct state established,related accept\n"
      ++ (housekeeping_lines housekeeping
          ++ (atom_lines fwd p.atoms
              ++ ((if p.default_deny then codes "\t\t" ++ (refuse_text [] ++ codes "\n") else [])
                  ++ codes "\t}\n")))

  unfoldable pub set_lines : List SetDef → Text
  set_lines [] = []
  set_lines (d ∷ defs) =
      codes "\tset "
      ++ (d.name
          ++ (codes " {\n\t\ttype "
              ++ (set_type d.family ++ (codes "\n\t\tflags timeout\n\t}\n" ++ set_lines defs))))
    where
      set_type : Family → Text
      set_type ipv6 = codes "ipv6_addr"
      set_type f = codes "ipv4_addr"

  unfoldable pub bridge_lines : List Text → Text
  bridge_lines [] = []
  bridge_lines (pfx ∷ rest) =
      codes "\t\toifname " ++ (quote (pfx ++ codes "*") ++ (codes " accept\n" ++ bridge_lines rest))

  -- The head of a chain, up to its policy.
  unfoldable pub chain_head : Text → Text → Bool → Text
  chain_head name hook denied =
      codes "\tchain "
      ++ (name
          ++ (codes " {\n\t\ttype filter hook "
              ++ (hook
                  ++ (codes " priority filter; policy "
                      ++ ((if denied then codes "drop" else codes "accept") ++ codes ";\n")))))

  unfoldable pub plan_text : Plan → Text
  plan_text p =
      codes "table inet "
      ++ (table_name
          ++ (codes " {\n"
              ++ (set_lines p.sets
                  ++ (chain_head chain_name (codes "output") p.default_deny
                      ++ (codes "\t\toif \"lo\" accept\n"
                          ++ (body_text p false
                              ++ ((if p.forward
                                    then chain_head forward_chain (codes "forward") p.default_deny
                                      ++ (bridge_lines bridge_prefixes ++ body_text p true)
                                    else [])
                                  ++ codes "}\n")))))))
