-- ===== src/Nft/Refines.antt =====
-- internal/nft/plan.go, `Build`: the plan of a policy decides as `Evaluate` does.
use egresswall.Common.{
  ℕ, ◌+◌, Bool, true, false, List, [], ◌∷◌, ◌++◌, map, some, ◌≡◌, ◌≢◌, ◌↔◌, ◌⊎◌, inl, inr, refl, ap,
  sym, ◌∙◌, arith, if◌then◌else◌, Any, All, All-append, Bool-cases, Option-cases, ok, append_assoc,
  append-nil,
}
use egresswall.Text.{Text, codes, lower}
use egresswall.Netip.{Addr, v6, Prefix, is_valid, unmap}
use egresswall.Policy.{Verdict, deny, allow, Policy, Dest, PortRange, CompiledRule, RuleSet}
use egresswall.Policy.Compile.{compile}
use egresswall.Policy.Compiled.{compile-All-IsWellFormed}
use egresswall.Policy.Covers.{Covers, NameCovered, HostCovered, reason_for_iff}
use egresswall.Policy.Domain.{normalize_domain}
use egresswall.Policy.Evaluate.{
  insert_sorted, sort_texts, rule_view, rules_view, first_match, reason_for, evaluate,
}
use egresswall.Policy.WellFormed.{IsRange, IsWellFormed}
use egresswall.Nft.Hits.{hits, rule_atoms_iff}
use egresswall.Nft.Kernel.{Flow, SetState, atom_hits, first_hit, outcome, kernel_decision, flow_of}
use egresswall.Nft.Plan.{
  any_family, ipv4, ipv6, Atom, Plan, blank_atom, prefix_atom, set_atom, set_for, emit, complete,
  emit_prefixes, emit_sets, has_domains, rule_atoms, rule_sets, build_rules, build, is_deny,
}

Any-insert_sorted :
    (P : Text → Type 0) (x : Text) (xs : List Text) → Any P (insert_sorted x xs) ↔ (P x ⊎ Any P xs)
unfolding insert_sorted
Any-insert_sorted P x [] = ground arith
Any-insert_sorted P x (y ∷ ys) = ground (arith, Any-insert_sorted P x ys)

pub Any-sort_texts : (P : Text → Type 0) (xs : List Text) → Any P (sort_texts xs) ↔ Any P xs
unfolding sort_texts
Any-sort_texts P [] = ground arith
Any-sort_texts P (x ∷ xs) =
    ground (arith, Any-insert_sorted P x (sort_texts xs), Any-sort_texts P xs)

NameCovered-rule_view :
    (r : CompiledRule) (name : Text) → NameCovered (rule_view r) name ↔ NameCovered r name
unfolding rule_view
NameCovered-rule_view r name = ground (arith, Any-sort_texts (λ x. name ≡ x) r.exact)

pub unmap_idem : (a : Addr) → unmap (unmap a) ≡ unmap a
unfolding unmap
unmap_idem (v6 a z) = ground arith
unmap_idem _ = refl

is_valid-unmap : (a : Addr) → is_valid (unmap a) ≡ is_valid a
unfolding unmap is_valid
is_valid-unmap (v6 a z) = ground arith
is_valid-unmap _ = refl

-- Every atom of a rule has the rule's verdict and name.
abbrev Stamped : CompiledRule → Atom → Type 0
Stamped r a = (a.verdict ≡ r.verdict) × (a.rule ≡ r.name)

map-complete-Stamped :
    (r : CompiledRule) (b : Atom) (qs : List PortRange) → All (Stamped r) (map (complete r b) qs)
map-complete-Stamped r b [] = tt
map-complete-Stamped r b (q ∷ qs) = ((refl, refl), map-complete-Stamped r b qs)

emit-Stamped : (r : CompiledRule) (b : Atom) → All (Stamped r) (emit r b)
unfolding emit
emit-Stamped r b = map-complete-Stamped r b _

emit_prefixes-Stamped : (r : CompiledRule) (ps : List Prefix) → All (Stamped r) (emit_prefixes r ps)
unfolding emit_prefixes
emit_prefixes-Stamped r [] = tt
emit_prefixes-Stamped r (p ∷ ps) =
    All-append (Stamped r) (emit r (prefix_atom p)) (emit_prefixes r ps)
      (emit-Stamped r (prefix_atom p)) (emit_prefixes-Stamped r ps)

emit_sets-Stamped : (i : ℕ) (r : CompiledRule) → All (Stamped r) (emit_sets i r)
unfolding emit_sets
emit_sets-Stamped i r =
    All-append (Stamped r) (emit r (set_atom i ipv4)) (emit r (set_atom i ipv6))
      (emit-Stamped r (set_atom i ipv4)) (emit-Stamped r (set_atom i ipv6))

pub All-if {ℓ} :
    {A : Type ℓ} (P : A → Type 0) (b : Bool) (xs ys : List A)
    → All P xs
    → All P ys
    → All P (if b then xs else ys)
All-if P true xs ys h k = h
All-if P false xs ys h k = k

rule_atoms-Stamped : (i : ℕ) (r : CompiledRule) → All (Stamped r) (rule_atoms i r)
unfolding rule_atoms
rule_atoms-Stamped i r =
    let sets : List Atom = if has_domains r then emit_sets i r else [] in
    All-if (Stamped r) r.any_host (emit r (blank_atom any_family))
      (emit_prefixes r r.prefixes ++ sets) (emit-Stamped r (blank_atom any_family))
      (All-append (Stamped r) (emit_prefixes r r.prefixes) sets (emit_prefixes-Stamped r r.prefixes)
        (All-if (Stamped r) (has_domains r) (emit_sets i r) [] (emit_sets-Stamped i r) tt))

-- The atoms of the rules one after the other, the first rule with index `i`.
abbrev pub atoms_from : ℕ → List CompiledRule → List Atom
atoms_from i [] = []
atoms_from i (r ∷ rs) = rule_atoms i r ++ atoms_from (i + 1) rs

pub build_rules-atoms :
    (i : ℕ) (rs : List CompiledRule) (p : Plan)
    → ((build_rules i rs p).atoms ≡ p.atoms ++ atoms_from i rs)
      × ((build_rules i rs p).default_deny ≡ p.default_deny)
unfolding build_rules
build_rules-atoms i [] p = (sym (append-nil p.atoms), refl)
build_rules-atoms i (r ∷ rs) p =
    let (atoms, default) =
      build_rules-atoms (i + 1) rs
        (record p { sets = p.sets ++ rule_sets i r; atoms = p.atoms ++ rule_atoms i r }) in
    (atoms ∙ append_assoc p.atoms (rule_atoms i r) (atoms_from (i + 1) rs), default)

module _ (sets : SetState) (f : Flow) where
  first_hit_miss :
      (xs ys : List Atom)
      → hits sets f xs ≡ false
      → first_hit sets f (xs ++ ys) ≡ first_hit sets f ys
  unfolding first_hit
  first_hit_miss [] ys h = refl
  first_hit_miss (x ∷ xs) ys h = ground (arith, first_hit_miss xs ys)

  first_hit-All :
      (P : Atom → Type 0) (xs ys : List Atom)
      → All P xs
      → hits sets f xs ≡ true
      → (a : Atom) × (first_hit sets f (xs ++ ys) ≡ some a) × P a
  unfolding first_hit
  first_hit-All P [] ys all h = cc
  first_hit-All P (x ∷ xs) ys (p, all) h = elim (Bool-cases (atom_hits sets f x)) [
    | inl hit ↦ (x, rw hit, p)
    | inr miss ↦ rw miss (first_hit-All P xs ys all (ground arith))
  ]

HostCovered-rule_view :
    (r : CompiledRule) (name : Text) (ip : Addr)
    → HostCovered (rule_view r) name (unmap ip) ↔ HostCovered r name ip
unfolding rule_view
HostCovered-rule_view r name ip =
    rw (unmap_idem ip, is_valid-unmap ip) (ground (arith, NameCovered-rule_view r name))

not-true→false : {b : Bool} → b ≢ true → b ≡ false
not-true→false h = ground arith

-- For each rule, its sets hold the destination exactly when the rule covers the known name.
abbrev pub Fed : SetState → Dest → ℕ → List CompiledRule → Type 0
Fed sets d i [] = Unit
Fed sets d i (r ∷ rs) =
    ((sets (set_for i (unmap d.ip)) (unmap d.ip) ≡ true)
      ↔ ((normalize_domain d.domain ≢ []) × NameCovered r (normalize_domain d.domain)))
    × Fed sets d (i + 1) rs

is_deny_lem : (v : Verdict) → (if is_deny v then deny else allow) ≡ v
is_deny_lem deny = refl
is_deny_lem allow = refl

module _ (sets : SetState) (d : Dest)
    (known : (lower d.proto ≡ codes "tcp") ⊎ (lower d.proto ≡ codes "udp"))
    (valid : is_valid d.ip ≡ true) where
  rule_hits_iff :
      (i : ℕ) (r : CompiledRule)
      → All IsRange r.ports
      → Fed sets d i (r ∷ [])
      → (hits sets (flow_of d) (rule_atoms i (rule_view r)) ≡ true) ↔ Covers d r
  unfolding rule_view flow_of
  rule_hits_iff i r h (agree, _) =
      let name : Text = normalize_domain d.domain in
      let view = NameCovered-rule_view r name in
      let host = HostCovered-rule_view r name d.ip in
      let (to, from) =
        rule_atoms_iff sets (flow_of d) known i (rule_view r) name h (is_valid-unmap d.ip ∙ valid)
          (unmap_idem d.ip)
          (λ e. let (ne, c) = agree.0 e in (ne, view.1 c), λ (ne, c). agree.1 (ne, view.0 c)) in
      (
        λ e.
            let (cgroup, proto, port, covered) = to e in
            record { cgroup = cgroup; proto = proto; port = port; host = host.0 covered },
        λ c. from (c.cgroup, c.proto, c.port, host.1 c.host),
      )

  -- The rules from `i` on decide alike in the kernel and in `Evaluate`.
  atoms_from-first_match :
      (i : ℕ) (rs : List CompiledRule) (default : Verdict)
      → All (λ r. IsWellFormed r.verdict r) rs
      → Fed sets d i rs
      → outcome default (first_hit sets (flow_of d) (atoms_from i (map rule_view rs))) ≡ (
        (first_match rs default (reason_for d)).verdict,
        (first_match rs default (reason_for d)).rule,
      )
  unfolding outcome first_match rule_view
  atoms_from-first_match i [] default wf fed = unfold first_hit in refl
  atoms_from-first_match i (r ∷ rs) default (w, wf) (agree, fed) =
      let iff = rule_hits_iff i r w.ports (agree, tt) in
      let atoms : List Atom = rule_atoms i (rule_view r) in
      let rest : List Atom = atoms_from (i + 1) (map rule_view rs) in
      elim (Option-cases (reason_for d r)) [
        | inl missed ↦
            rw (missed, first_match)
              (ap (outcome default) (
                  first_hit_miss sets (flow_of d) atoms rest
                    (not-true→false (λ e. (reason_for_iff d r).1 (iff.0 e) missed)))
                ∙ atoms_from-first_match (i + 1) rs default wf fed)
        | inr (why, hit) ↦
            let found = iff.1 ((reason_for_iff d r).0 (λ e. cc)) in
            let (a, e, stamp) =
              first_hit-All sets (flow_of d) (Stamped (rule_view r)) atoms rest
                (rule_atoms-Stamped i (rule_view r)) found in
            rw (hit, first_match, e) (λ k. (stamp.0 k, stamp.1 k))
      ]

-- For an accepted policy and a destination with an address, over tcp or udp, whose address sets hold
-- its address exactly where the rule covers its name: the kernel with the plan of `Build` gives the
-- verdict and the rule name that `Evaluate` gives.
pub build-evaluate :
    (sets : SetState) (d : Dest) (p : Policy) (s : RuleSet)
    → (lower d.proto ≡ codes "tcp") ⊎ (lower d.proto ≡ codes "udp")
    → is_valid d.ip ≡ true
    → compile p ≡ ok s
    → Fed sets d 0 s.rules
    → kernel_decision (build s) sets (flow_of d) ≡ ((evaluate s d).verdict, (evaluate s d).rule)
unfolding kernel_decision build rules_view evaluate
build-evaluate sets d p s known valid e fed =
    let (atoms, default) =
      build_rules-atoms 0 (map rule_view s.rules)
        (record { sets = []; atoms = []; default_deny = is_deny s.default; forward = false }) in
    rw (atoms, default)
      (ap (λ v. outcome v (first_hit sets (flow_of d) (atoms_from 0 (map rule_view s.rules))))
          (is_deny_lem s.default)
        ∙ atoms_from-first_match sets d known valid 0 s.rules s.default
            (compile-All-IsWellFormed p s e) fed)
