-- ===== src/Policy/Names.antt =====
-- internal/policy/policy.go: names. `DomainRules` against the meaning of the patterns, and the case of
-- names and protocols.
use egresswall.Common.{
  ℕ, zero, suc, ◌+◌, ◌≤◌, ◌<◌, true, List, [], ◌∷◌, ◌≡◌, ◌↔◌, inl, inr, refl, ap, fun_ext, arith,
  Any, any_iff, is_nil, map,
}
use mathlib.Core.Path.{ap₂}
use egresswall.Text.{
  Text, text_eq, text_eq_iff, has_suffix, lower, lower_byte, is_space, trim_start, trim_end,
  trim_both, trim_space,
}
use egresswall.Text.Laws.{EndsIn, has_suffix_iff}
use egresswall.Policy.{Dest, CompiledRule, RuleSet}
use egresswall.Policy.Covers.{NameCovered}
use egresswall.Policy.Domain.{normalize_domain, trim_slashes}
use egresswall.Policy.Evaluate.{
  covers_name, covering_from, domain_rules, evaluate, first_match, reason_for, rule_reason,
}

abbrev pub Listed : ℕ → List ℕ → Type 0
Listed i = Any (λ j. j ≡ i)

pub covers_name_iff :
    (name : Text) (r : CompiledRule) → (covers_name name r ≡ true) ↔ NameCovered r name
unfolding covers_name
covers_name_iff name r = ground (
  arith,
  any_iff (λ x. name ≡ x) (text_eq name) (text_eq_iff name) r.exact,
  any_iff (EndsIn name) (λ suf. has_suffix name suf) (has_suffix_iff name) r.suffixes,
)

-- Strictly ascending, and all from `k` on.
abbrev pub AscendsFrom : ℕ → List ℕ → Type 0
AscendsFrom k [] = Unit
AscendsFrom k (i ∷ is) = (k ≤ i) × AscendsFrom (i + 1) is

AscendsFrom-le : (k m : ℕ) (is : List ℕ) → k ≤ m → AscendsFrom m is → AscendsFrom k is
AscendsFrom-le k m [] h a = tt
AscendsFrom-le k m (i ∷ is) h (p, a) = (omega arith, a)

covering_from-AscendsFrom :
    (k : ℕ) (name : Text) (rs : List CompiledRule) → AscendsFrom k (covering_from k name rs)
unfolding covering_from
covering_from-AscendsFrom k name [] = tt
covering_from-AscendsFrom k name (r ∷ rs) =
    let rest = covering_from-AscendsFrom (k + 1) name rs in
    ground (arith, AscendsFrom-le k (k + 1) (covering_from (k + 1) name rs))

not-Listed : (i k : ℕ) (is : List ℕ) → AscendsFrom k is → i < k → ¬ Listed i is
not-Listed i k [] a h l = l
not-Listed i k (j ∷ is) (p, a) h (inl e) = omega arith
not-Listed i k (j ∷ is) (p, a) h (inr l) = not-Listed i (j + 1) is a (omega arith) l

-- Rule `m` of the list is there and its patterns cover the name.
abbrev pub CoversAt : Text → List CompiledRule → ℕ → Type 0
CoversAt name [] m = ⊥
CoversAt name (r ∷ rs) zero = NameCovered r name
CoversAt name (r ∷ rs) (suc m) = CoversAt name rs m

covering_from_iff :
    (k m i : ℕ) (name : Text) (rs : List CompiledRule)
    → i ≡ k + m
    → Listed i (covering_from k name rs) ↔ CoversAt name rs m
unfolding covering_from
covering_from_iff k m i name [] e = ground arith
covering_from_iff k zero i name (r ∷ rs) e = ground (
  arith,
  covers_name_iff name r,
  not-Listed i (k + 1) (covering_from (k + 1) name rs) (covering_from-AscendsFrom (k + 1) name rs),
)
covering_from_iff k (suc m) i name (r ∷ rs) e =
    ground (arith, covering_from_iff (k + 1) m i name rs (omega arith))

-- `DomainRules` lists, in ascending order, the indexes of exactly the rules whose exact names or
-- wildcards cover the normalised name.
pub domain_rules_lem :
    (s : RuleSet) (name : Text)
    → AscendsFrom 0 (domain_rules s name)
      × ((i : ℕ) → Listed i (domain_rules s name) ↔ CoversAt (normalize_domain name) s.rules i)
unfolding domain_rules
domain_rules_lem s name = (
  covering_from-AscendsFrom 0 (normalize_domain name) s.rules,
  λ i. covering_from_iff 0 i i (normalize_domain name) s.rules (omega arith),
)

lower_byte_idem : (c : ℕ) → lower_byte (lower_byte c) ≡ lower_byte c
unfolding lower_byte
lower_byte_idem c = ground arith

is_space-lower_byte : (c : ℕ) → is_space (lower_byte c) ≡ is_space c
unfolding is_space lower_byte
is_space-lower_byte c = ground arith

lower_idem : (s : Text) → lower (lower s) ≡ lower s
unfolding lower
lower_idem [] = refl
lower_idem (c ∷ s) = cc (lower_byte_idem c, lower_idem s)

trim_start-lower : (s : Text) → trim_start is_space (lower s) ≡ lower (trim_start is_space s)
unfolding trim_start lower
trim_start-lower [] = refl
trim_start-lower (c ∷ s) = ground (arith, is_space-lower_byte c, trim_start-lower s)

is_nil-map : (f : ℕ → ℕ) (s : Text) → is_nil (map f s) ≡ is_nil s
is_nil-map f [] = refl
is_nil-map f (c ∷ s) = refl

trim_end-lower : (s : Text) → trim_end is_space (lower s) ≡ lower (trim_end is_space s)
unfolding trim_end lower
trim_end-lower [] = refl
trim_end-lower (c ∷ s) =
    ground
      (arith, is_space-lower_byte c, trim_end-lower s, is_nil-map lower_byte (trim_end is_space s))

normalize_domain-lower : (s : Text) → normalize_domain (lower s) ≡ normalize_domain s
unfolding normalize_domain trim_space trim_both
normalize_domain-lower s = simp (trim_start-lower, trim_end-lower, lower_idem)

abbrev lowered : Dest → Dest
lowered d = record d { domain = lower d.domain; proto = lower d.proto }

reason_for-lower : (d : Dest) (r : CompiledRule) → reason_for (lowered d) r ≡ reason_for d r
reason_for-lower d r =
    ap₂ (λ n p. rule_reason r n p (trim_slashes d.cgroup) d.ip d.port)
      (normalize_domain-lower d.domain) (lower_idem d.proto)

-- `Evaluate` gives one decision for a destination and for the same with its name and protocol in
-- lower case: reason, rule and verdict.
pub evaluate-lower :
    (s : RuleSet) (d : Dest)
    → evaluate s (record d { domain = lower d.domain; proto = lower d.proto }) ≡ evaluate s d
unfolding evaluate
evaluate-lower s d = ap (first_match s.rules s.default) (fun_ext (reason_for-lower d))
