-- ===== src/Nft/Sets.antt =====
-- internal/nft/plan.go, `Build` and `SetFor`: every address set that an atom looks up, or that an
-- answer is put into, is defined by the plan.
use egresswall.Common.{
  ℕ, zero, suc, ◌+◌, true, false, List, [], ◌∷◌, ◌++◌, map, ◌≡◌, refl, sym, ◌∙◌, arith, Any,
  Any-append_left, Any-append_right, is_nil, append_assoc, append-nil,
}
use egresswall.Text.{Text}
use egresswall.Netip.{Addr}
use egresswall.Policy.{CompiledRule, RuleSet}
use egresswall.Policy.Covers.{NameCovered, is_nil_iff}
use egresswall.Policy.Domain.{normalize_domain}
use egresswall.Policy.Evaluate.{rule_view, rules_view, domain_rules, sort_texts, insert_sorted}
use egresswall.Policy.Names.{Listed, CoversAt, domain_rules_lem}
use egresswall.Nft.Refines.{All-if, atoms_from, build_rules-atoms}
use egresswall.Netip.{Prefix}
use egresswall.Policy.{PortRange}
use egresswall.Common.{◌⊎◌, inl, inr, All, All-append, All-implies, Bool-cases, if◌then◌else◌}
use egresswall.Nft.Plan.{
  Atom, port_choices, complete, emit, emit_prefixes, emit_sets, prefix_atom, set_atom, blank_atom,
  any_family, ipv4, ipv6, SetDef, Plan, set_for, has_domains, rule_atoms, rule_sets, build_rules,
  build, is_deny,
}

-- A set of this name is defined.
abbrev pub Defined : Text → List SetDef → Type 0
Defined name = Any (λ s. s.name ≡ name)

abbrev pub sets_from : ℕ → List CompiledRule → List SetDef
sets_from i [] = []
sets_from i (r ∷ rs) = rule_sets i r ++ sets_from (i + 1) rs

pub build_rules-sets :
    (i : ℕ) (rs : List CompiledRule) (p : Plan)
    → (build_rules i rs p).sets ≡ p.sets ++ sets_from i rs
unfolding build_rules
build_rules-sets i [] p = sym (append-nil p.sets)
build_rules-sets i (r ∷ rs) p =
    build_rules-sets (i + 1) rs
      (record p { sets = p.sets ++ rule_sets i r; atoms = p.atoms ++ rule_atoms i r })
    ∙ append_assoc p.sets (rule_sets i r) (sets_from (i + 1) rs)

has_domains-NameCovered :
    (r : CompiledRule) (name : Text) → NameCovered r name → has_domains r ≡ true
has_domains-NameCovered r name h = ground (arith, is_nil_iff r.exact, is_nil_iff r.suffixes)

is_nil-insert_sorted : (x : Text) (xs : List Text) → is_nil (insert_sorted x xs) ≡ false
unfolding insert_sorted
is_nil-insert_sorted x [] = refl
is_nil-insert_sorted x (y ∷ ys) = ground arith

is_nil-sort_texts : (xs : List Text) → is_nil (sort_texts xs) ≡ is_nil xs
unfolding sort_texts
is_nil-sort_texts [] = refl
is_nil-sort_texts (x ∷ xs) = is_nil-insert_sorted x (sort_texts xs)

has_domains-rule_view : (r : CompiledRule) → has_domains (rule_view r) ≡ has_domains r
unfolding rule_view
has_domains-rule_view r = rw (is_nil-sort_texts r.exact)

rule_sets-set_for :
    (i : ℕ) (r : CompiledRule) (ip : Addr)
    → has_domains r ≡ true
    → Defined (set_for i ip) (rule_sets i r)
unfolding rule_sets set_for
rule_sets-set_for i r ip h = rw h (ground arith)

CoversAt-Defined :
    (k m i : ℕ) (name : Text) (ip : Addr) (rs : List CompiledRule)
    → i ≡ k + m
    → CoversAt name rs m
    → Defined (set_for i ip) (sets_from k (map rule_view rs))
CoversAt-Defined k m i name ip [] e h = absurd h
CoversAt-Defined k zero i name ip (r ∷ rs) e h =
    let at : i ≡ k = omega arith in
    rw at (
      Any-append_left _ (rule_sets k (rule_view r)) (sets_from (k + 1) (map rule_view rs)) (
        rule_sets-set_for k (rule_view r) ip
          (has_domains-rule_view r ∙ has_domains-NameCovered r name h)))
CoversAt-Defined k (suc m) i name ip (r ∷ rs) e h =
    Any-append_right _ (rule_sets k (rule_view r)) (sets_from (k + 1) (map rule_view rs))
      (CoversAt-Defined (k + 1) m i name ip rs (omega arith) h)

-- For each rule that `DomainRules` gives for a name, the set that `SetFor` names for an address of
-- either family is defined by the plan of `Build`.
pub set_for-Defined :
    (s : RuleSet) (name : Text) (i : ℕ) (ip : Addr)
    → Listed i (domain_rules s name)
    → Defined (set_for i ip) (build s).sets
unfolding build rules_view
set_for-Defined s name i ip h =
    rw
      (build_rules-sets 0 (map rule_view s.rules)
        (record { sets = []; atoms = []; default_deny = is_deny s.default; forward = false }))
      (CoversAt-Defined 0 i i (normalize_domain name) ip s.rules (omega arith)
        (((domain_rules_lem s name).1 i).0 h))

-- The atom looks no set up, or one of these.
abbrev pub LooksUp : List SetDef → Atom → Type 0
LooksUp defs a = (a.set ≡ []) ⊎ Defined a.set defs

emit-LooksUp :
    (defs : List SetDef) (r : CompiledRule) (b : Atom)
    → LooksUp defs b
    → All (LooksUp defs) (emit r b)
unfolding emit
emit-LooksUp defs r b h = every (port_choices r.ports)
  where
    every : (qs : List PortRange) → All (LooksUp defs) (map (complete r b) qs)
    every [] = tt
    every (q ∷ qs) = (h, every qs)

emit_prefixes-LooksUp :
    (defs : List SetDef) (r : CompiledRule) (ps : List Prefix)
    → All (LooksUp defs) (emit_prefixes r ps)
unfolding emit_prefixes
emit_prefixes-LooksUp defs r [] = tt
emit_prefixes-LooksUp defs r (p ∷ ps) =
    All-append (LooksUp defs) (emit r (prefix_atom p)) (emit_prefixes r ps)
      (emit-LooksUp defs r (prefix_atom p) (inl refl)) (emit_prefixes-LooksUp defs r ps)

set_atom-LooksUp :
    (i : ℕ) (r : CompiledRule)
    → has_domains r ≡ true
    → LooksUp (rule_sets i r) (set_atom i ipv4) × LooksUp (rule_sets i r) (set_atom i ipv6)
unfolding rule_sets
set_atom-LooksUp i r h = rw h (inr (inl refl), inr (inr (inl refl)))

emit_sets-LooksUp :
    (i : ℕ) (r : CompiledRule)
    → has_domains r ≡ true
    → All (LooksUp (rule_sets i r)) (emit_sets i r)
unfolding emit_sets
emit_sets-LooksUp i r h =
    let defs : List SetDef = rule_sets i r in
    let (four, six) = set_atom-LooksUp i r h in
    All-append (LooksUp defs) (emit r (set_atom i ipv4)) (emit r (set_atom i ipv6))
      (emit-LooksUp defs r (set_atom i ipv4) four) (emit-LooksUp defs r (set_atom i ipv6) six)

rule_atoms-LooksUp : (i : ℕ) (r : CompiledRule) → All (LooksUp (rule_sets i r)) (rule_atoms i r)
unfolding rule_atoms
rule_atoms-LooksUp i r =
    let defs : List SetDef = rule_sets i r in
    let sets : List Atom = if has_domains r then emit_sets i r else [] in
    let known : All (LooksUp defs) sets = elim (Bool-cases (has_domains r)) [
      | inl some_names ↦ rw some_names (emit_sets-LooksUp i r some_names)
      | inr no_names ↦ rw no_names tt
    ] in
    All-if (LooksUp defs) r.any_host (emit r (blank_atom any_family))
      (emit_prefixes r r.prefixes ++ sets) (emit-LooksUp defs r (blank_atom any_family) (inl refl))
      (All-append (LooksUp defs) (emit_prefixes r r.prefixes) sets
        (emit_prefixes-LooksUp defs r r.prefixes) known)

LooksUp-append :
    (xs ys : List SetDef) (a : Atom)
    → (LooksUp xs a → LooksUp (xs ++ ys) a) × (LooksUp ys a → LooksUp (xs ++ ys) a)
LooksUp-append xs ys a = (
  λ h. elim h [ inl e ↦ inl e | inr d ↦ inr (Any-append_left _ xs ys d) ],
  λ h. elim h [ inl e ↦ inl e | inr d ↦ inr (Any-append_right _ xs ys d) ],
)

atoms_from-LooksUp :
    (i : ℕ) (rs : List CompiledRule) → All (LooksUp (sets_from i rs)) (atoms_from i rs)
atoms_from-LooksUp i [] = tt
atoms_from-LooksUp i (r ∷ rs) =
    let here : List SetDef = rule_sets i r in
    let later : List SetDef = sets_from (i + 1) rs in
    All-append _ (rule_atoms i r) (atoms_from (i + 1) rs)
      (All-implies (LooksUp here) _ (rule_atoms i r) (λ a. (LooksUp-append here later a).0)
        (rule_atoms-LooksUp i r))
      (All-implies (LooksUp later) _ (atoms_from (i + 1) rs) (λ a. (LooksUp-append here later a).1)
        (atoms_from-LooksUp (i + 1) rs))

-- Every set that an atom of the plan of Build looks up is defined by the plan.
pub build-LooksUp : (s : RuleSet) → All (LooksUp (build s).sets) (build s).atoms
unfolding build
build-LooksUp s =
    let start : Plan = record {
      sets = [];
      atoms = [];
      default_deny = is_deny s.default;
      forward = false;
    } in
    rw (build_rules-sets 0 (rules_view s) start, (build_rules-atoms 0 (rules_view s) start).0)
      (atoms_from-LooksUp 0 (rules_view s))
