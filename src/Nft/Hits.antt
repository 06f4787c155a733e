-- ===== src/Nft/Hits.antt =====
-- internal/nft/plan.go, `Build`: the atoms of one rule match exactly the flows that the rule covers.
use egresswall.Common.{
  ℕ, ◌≤◌, Bool, true, ◌||◌, List, [], ◌∷◌, ◌++◌, map, ◌≡◌, ◌≢◌, ◌↔◌, ◌⊎◌, inl, inr, refl, arith,
  any, Any, All, if◌then◌else◌,
}
use egresswall.Text.{Text, codes, text_eq_iff}
use egresswall.Netip.{Addr, invalid, v4, v6, Prefix, is4, is_valid, unmap, contains}
use egresswall.Policy.{PortRange, CompiledRule}
use egresswall.Policy.Covers.{
  CgroupCovered, ProtoCovered, PortCovered, HostCovered, NameCovered, is_nil_iff, cgroup_within_iff,
}
use egresswall.Policy.WellFormed.{IsRange}
use egresswall.Nft.Plan.{
  Family, any_family, ipv4, ipv6, Atom, set_name, set_for, no_port, port_choices, complete, emit,
  blank_atom, prefix_atom, set_atom, family_of, emit_prefixes, has_domains, emit_sets, rule_atoms,
}
use egresswall.Nft.Kernel.{Flow, SetState, family_hits, address_hits, atom_hits}

-- Some atom of the list matches.
abbrev pub hits : SetState → Flow → List Atom → Bool
hits sets f = any (atom_hits sets f)

pub any-append {ℓ} :
    {A : Type ℓ} (p : A → Bool) (xs ys : List A) → any p (xs ++ ys) ≡ (any p xs || any p ys)
any-append p [] ys = refl
any-append p (x ∷ xs) ys = ground (arith, any-append p xs ys)

module _ (sets : SetState) (f : Flow)
    (known : (f.proto ≡ codes "tcp") ⊎ (f.proto ≡ codes "udp")) where
  -- What the atoms of a rule have in common, and what the base atom adds.
  abbrev Common : CompiledRule → Atom → Type 0
  Common r b =
      CgroupCovered r f.cgroup
      × (family_hits b.family f.dst ≡ true)
      × (address_hits sets b.prefix b.set f.dst ≡ true)
      × ProtoCovered r f.proto

  complete_iff :
      (r : CompiledRule) (b : Atom) (q : PortRange)
      → (atom_hits sets f (complete r b q) ≡ true)
        ↔ (Common r b × ((q.hi ≡ 0) ⊎ ((q.lo ≤ f.port) × (f.port ≤ q.hi))))
  unfolding atom_hits
  complete_iff r b q = ground (
    arith,
    is_nil_iff r.cgroup,
    cgroup_within_iff f.cgroup r.cgroup,
    is_nil_iff r.proto,
    text_eq_iff r.proto f.proto,
    text_eq_iff f.proto (codes "tcp"),
    text_eq_iff f.proto (codes "udp"),
  )

  choices_iff :
      (r : CompiledRule) (b : Atom) (qs : List PortRange)
      → All IsRange qs
      → (hits sets f (map (complete r b) qs) ≡ true)
        ↔ (Common r b × Any (λ q. (q.lo ≤ f.port) × (f.port ≤ q.hi)) qs)
  choices_iff r b [] h = (λ e. cc, λ e. absurd e.1)
  choices_iff r b (q ∷ qs) (k, h) = ground (arith, complete_iff r b q, choices_iff r b qs h)

  emit_ports_iff :
      (r : CompiledRule) (b : Atom) (qs : List PortRange)
      → All IsRange qs
      → (hits sets f (map (complete r b) (port_choices qs)) ≡ true)
        ↔ (Common r b × ((qs ≡ []) ⊎ Any (λ q. (q.lo ≤ f.port) × (f.port ≤ q.hi)) qs))
  emit_ports_iff r b [] h = ground (arith, complete_iff r b no_port)
  emit_ports_iff r b (q ∷ qs) h =
      let (to, from) = choices_iff r b (q ∷ qs) h in
      (λ e. ((to e).0, inr (to e).1), λ (c, p). from (c, elim p [ inl e ↦ cc | inr a ↦ a ]))

  emit_iff :
      (r : CompiledRule) (b : Atom)
      → All IsRange r.ports
      → (hits sets f (emit r b) ≡ true) ↔ (Common r b × PortCovered r f.port)
  unfolding emit
  emit_iff r b h = emit_ports_iff r b r.ports h

  contains_family :
      (p : Prefix) (ip : Addr) → contains p ip ≡ true → family_hits (family_of p) ip ≡ true
  unfolding contains family_of is4
  contains_family p (v4 a) h = ground arith
  contains_family p (v6 a z) h = ground arith
  contains_family p invalid h = ground arith

  emit_prefixes_iff :
      (r : CompiledRule) (ps : List Prefix)
      → All IsRange r.ports
      → (hits sets f (emit_prefixes r ps) ≡ true) ↔ (
          CgroupCovered r f.cgroup
          × ProtoCovered r f.proto
          × PortCovered r f.port
          × Any (λ p. contains p f.dst ≡ true) ps)
  unfolding emit_prefixes
  emit_prefixes_iff r [] h = ground arith
  emit_prefixes_iff r (p ∷ ps) h =
      let b : Atom = prefix_atom p in
      ground (
        arith,
        any-append (atom_hits sets f) (emit r b) (emit_prefixes r ps),
        emit_iff r b h,
        contains_family p f.dst,
        emit_prefixes_iff r ps h,
      )

  set_iff :
      (i : ℕ) (r : CompiledRule) (fam : Family)
      → All IsRange r.ports
      → (hits sets f (emit r (set_atom i fam)) ≡ true) ↔ (
          CgroupCovered r f.cgroup
          × (family_hits fam f.dst ≡ true)
          × (sets (set_name i fam) f.dst ≡ true)
          × ProtoCovered r f.proto
          × PortCovered r f.port)
  unfolding set_name
  set_iff i r any_family h = ground (arith, emit_iff r (set_atom i any_family) h)
  set_iff i r ipv4 h = ground (arith, emit_iff r (set_atom i ipv4) h)
  set_iff i r ipv6 h = ground (arith, emit_iff r (set_atom i ipv6) h)

  emit_sets_iff :
      (i : ℕ) (r : CompiledRule)
      → All IsRange r.ports
      → is_valid f.dst ≡ true
      → unmap f.dst ≡ f.dst
      → (hits sets f (emit_sets i r) ≡ true) ↔ (
          CgroupCovered r f.cgroup
          × ProtoCovered r f.proto
          × PortCovered r f.port
          × (sets (set_for i f.dst) f.dst ≡ true))
  unfolding emit_sets set_for is_valid is4
  emit_sets_iff i r h ok plain = rw plain (
      ground (
        arith,
        any-append (atom_hits sets f) (emit r (set_atom i ipv4)) (emit r (set_atom i ipv6)),
        set_iff i r ipv4 h,
        set_iff i r ipv6 h,
      ))

  -- The sets of rule `i` hold the destination exactly when the name known for it is covered.
  abbrev pub SetsAgree : Text → ℕ → CompiledRule → Type 0
  SetsAgree name i r = (sets (set_for i f.dst) f.dst ≡ true) ↔ ((name ≢ []) × NameCovered r name)

  domains_iff :
      (i : ℕ) (r : CompiledRule) (name : Text)
      → All IsRange r.ports
      → is_valid f.dst ≡ true
      → unmap f.dst ≡ f.dst
      → SetsAgree name i r
      → (hits sets f (if has_domains r then emit_sets i r else []) ≡ true) ↔ (
          CgroupCovered r f.cgroup
          × ProtoCovered r f.proto
          × PortCovered r f.port
          × ((name ≢ []) × NameCovered r name))
  domains_iff i r name h ok plain agree =
      ground (arith, emit_sets_iff i r h ok plain, is_nil_iff r.exact, is_nil_iff r.suffixes)

  pub rule_atoms_iff :
      (i : ℕ) (r : CompiledRule) (name : Text)
      → All IsRange r.ports
      → is_valid f.dst ≡ true
      → unmap f.dst ≡ f.dst
      → SetsAgree name i r
      → (hits sets f (rule_atoms i r) ≡ true) ↔ (
          CgroupCovered r f.cgroup
          × ProtoCovered r f.proto
          × PortCovered r f.port
          × HostCovered r name f.dst)
  unfolding rule_atoms
  rule_atoms_iff i r name h ok plain agree = rw plain (
      ground (
        arith,
        emit_iff r (blank_atom any_family) h,
        any-append (atom_hits sets f) (emit_prefixes r r.prefixes)
            (if has_domains r then emit_sets i r else []),
        emit_prefixes_iff r r.prefixes h,
        domains_iff i r name h ok plain agree,
      ))
