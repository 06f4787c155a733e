-- ===== src/Nft/Exprs/Sendable.antt =====
-- internal/nft/plan.go, `Build`: its atoms are ones that `atomExprs` sends faithfully.
use egresswall.Common.{
  ℕ, ◌+◌, ◌≤◌, ◌<◌, false, if◌then◌else◌, List, [], ◌∷◌, ◌++◌, map, ◌≡◌, inl, inr, refl, arith, All,
  All-append, ok,
}
use egresswall.Netip.{Prefix}
use egresswall.Policy.{PortRange, Policy, CompiledRule, RuleSet}
use egresswall.Policy.Compile.{compile}
use egresswall.Policy.Compiled.{compile-All-IsWellFormed}
use egresswall.Policy.Evaluate.{rule_view, rules_view}
use egresswall.Policy.WellFormed.{IsRange, IsProto, IsWellFormed}
use egresswall.Nft.Plan.{
  any_family, ipv4, ipv6, Atom, family_of, no_port, port_choices, complete, emit, blank_atom,
  prefix_atom, set_atom, emit_prefixes, emit_sets, has_domains, rule_atoms, build, is_deny,
}
use egresswall.Nft.Refines.{All-if, atoms_from, build_rules-atoms}
use egresswall.Nft.Exprs.Machine.{OfFamily, SoundAddress, IsSendable}

abbrev pub IsPrefix : Prefix → Type 0
IsPrefix p = OfFamily (family_of p) p

module _ (r : CompiledRule) (ports : All IsRange r.ports) (proto : IsProto r.proto)
    (prefixes : All IsPrefix r.prefixes) where
  complete-IsSendable :
      (b : Atom) (q : PortRange)
      → SoundAddress b.family b.prefix b.set
      → (q.lo ≤ q.hi) × (q.hi < 65536)
      → IsSendable (complete r b q)
  complete-IsSendable b q sound range = record { proto = proto; ports = range; address = sound }

  choices-IsSendable :
      (b : Atom) (qs : List PortRange)
      → SoundAddress b.family b.prefix b.set
      → All IsRange qs
      → All IsSendable (map (complete r b) qs)
  choices-IsSendable b [] sound h = tt
  choices-IsSendable b (q ∷ qs) sound (range, h) = (
    complete-IsSendable b q sound (range.ordered, ground (arith, range.bounded)),
    choices-IsSendable b qs sound h,
  )

  emit-IsSendable : (b : Atom) → SoundAddress b.family b.prefix b.set → All IsSendable (emit r b)
  unfolding emit
  emit-IsSendable b sound = by_ports r.ports ports
    where
      by_ports :
          (qs : List PortRange)
          → All IsRange qs
          → All IsSendable (map (complete r b) (port_choices qs))
      by_ports [] h = (complete-IsSendable b no_port sound (omega arith, omega arith), tt)
      by_ports (q ∷ qs) h = choices-IsSendable b (q ∷ qs) sound h

  emit_prefixes-IsSendable :
      (ps : List Prefix) → All IsPrefix ps → All IsSendable (emit_prefixes r ps)
  unfolding emit_prefixes
  emit_prefixes-IsSendable [] h = tt
  emit_prefixes-IsSendable (p ∷ ps) (k, h) =
      All-append IsSendable (emit r (prefix_atom p)) (emit_prefixes r ps)
        (emit-IsSendable (prefix_atom p) k) (emit_prefixes-IsSendable ps h)

  emit_sets-IsSendable : (i : ℕ) → All IsSendable (emit_sets i r)
  unfolding emit_sets
  emit_sets-IsSendable i =
      All-append IsSendable (emit r (set_atom i ipv4)) (emit r (set_atom i ipv6))
        (emit-IsSendable (set_atom i ipv4) (inr (inl refl)))
        (emit-IsSendable (set_atom i ipv6) (inr (inr refl)))

  rule_atoms-IsSendable : (i : ℕ) → All IsSendable (rule_atoms i r)
  unfolding rule_atoms
  rule_atoms-IsSendable i =
      let sets : List Atom = if has_domains r then emit_sets i r else [] in
      All-if IsSendable r.any_host (emit r (blank_atom any_family))
        (emit_prefixes r r.prefixes ++ sets) (emit-IsSendable (blank_atom any_family) (inl refl))
        (All-append IsSendable (emit_prefixes r r.prefixes) sets
          (emit_prefixes-IsSendable r.prefixes prefixes)
          (All-if IsSendable (has_domains r) (emit_sets i r) [] (emit_sets-IsSendable i) tt))

atoms_from-IsSendable :
    (i : ℕ) (rs : List CompiledRule)
    → All (λ r. IsWellFormed r.verdict r) rs
    → All (λ r. All IsPrefix r.prefixes) rs
    → All IsSendable (atoms_from i (map rule_view rs))
unfolding rule_view
atoms_from-IsSendable i [] wf ps = tt
atoms_from-IsSendable i (r ∷ rs) (w, wf) (p, ps) =
    All-append IsSendable (rule_atoms i (rule_view r)) (atoms_from (i + 1) (map rule_view rs))
      (rule_atoms-IsSendable (rule_view r) w.ports w.proto p i)
      (atoms_from-IsSendable (i + 1) rs wf ps)

-- Every atom of the plan of an accepted policy has a known protocol, a range of ports, and an address
-- test of its family, where the prefixes of the rules are valid.
pub build-IsSendable :
    (p : Policy) (s : RuleSet)
    → compile p ≡ ok s
    → All (λ r. All IsPrefix r.prefixes) s.rules
    → All IsSendable (build s).atoms
unfolding build rules_view
build-IsSendable p s accepted prefixes =
    let (atoms, _) =
      build_rules-atoms 0 (map rule_view s.rules)
        (record { sets = []; atoms = []; default_deny = is_deny s.default; forward = false }) in
    rw atoms (atoms_from-IsSendable 0 s.rules (compile-All-IsWellFormed p s accepted) prefixes)
