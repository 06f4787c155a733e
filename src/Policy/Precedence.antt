-- ===== src/Policy/Precedence.antt =====
-- internal/policy/policy.go: the order of the rules. `Evaluate` takes the first rule that covers the
-- destination; `Compile` puts the deny rules in front.
use egresswall.Common.{
  List, [], ◌∷◌, ◌++◌, Option, none, some, ◌≡◌, inl, inr, refl, ◌∙◌, Any, All, Option-cases, subst,
}
use egresswall.Text.{Text}
use egresswall.Policy.{Verdict, deny, allow, Dest, Decision, CompiledRule, RuleSet}
use egresswall.Policy.Covers.{Covers, reason_for_iff}
use egresswall.Policy.Evaluate.{first_match, reason_for, evaluate}

-- The first rule of the list that covers the destination, if one does.
pub data FirstCovering (d : Dest) : List CompiledRule → Option CompiledRule → Type 0 where
  nowhere : FirstCovering d [] none
  here :
      {r : CompiledRule} {rs : List CompiledRule} → Covers d r → FirstCovering d (r ∷ rs) (some r)
  later :
      {r : CompiledRule} {rs : List CompiledRule} {o : Option CompiledRule}
      → ¬ Covers d r
      → FirstCovering d rs o
      → FirstCovering d (r ∷ rs) o

abbrev pub verdict_of : Verdict → Option CompiledRule → Verdict
verdict_of default none = default
verdict_of default (some r) = r.verdict

-- The name that a decision carries: empty when the default decided.
abbrev pub name_of : Option CompiledRule → Text
name_of none = []
name_of (some r) = r.name

pub record Decides (d : Dest) (rs : List CompiledRule) (default : Verdict) (x : Decision)
    : Type 0 where
  pub chosen : Option CompiledRule
  pub first : FirstCovering d rs chosen
  pub verdict : x.verdict ≡ verdict_of default chosen
  pub rule : x.rule ≡ name_of chosen

first_match-Decides :
    (d : Dest) (rs : List CompiledRule) (default : Verdict)
    → Decides d rs default (first_match rs default (reason_for d))
unfolding first_match
first_match-Decides d [] default = record {
  chosen = none;
  first = nowhere;
  verdict = refl;
  rule = refl;
}
first_match-Decides d (r ∷ rs) default = elim (Option-cases (reason_for d r)) [
  | inl missed ↦
      let rest = first_match-Decides d rs default in
      let shut : ¬ Covers d r = λ c. (reason_for_iff d r).1 c missed in
      record {
        chosen = rest.chosen;
        first = later shut rest.first;
        verdict = rw (missed, first_match) rest.verdict;
        rule = rw (missed, first_match) rest.rule;
      }
  | inr (why, hit) ↦ record {
    chosen = some r;
    first = here ((reason_for_iff d r).0 (λ e. cc));
    verdict = rw (hit, first_match);
    rule = rw (hit, first_match);
  }
]

-- `Evaluate` gives the verdict and the name of the first rule, in the order of the set, that covers
-- the destination; where none does it gives the default and an empty name.
pub evaluate-Decides : (s : RuleSet) (d : Dest) → Decides d s.rules s.default (evaluate s d)
unfolding evaluate
evaluate-Decides s d = first_match-Decides d s.rules s.default

abbrev pub AllVerdict : Verdict → List CompiledRule → Type 0
AllVerdict v = All (λ r. r.verdict ≡ v)

-- Deny rules first, then allow rules.
pub record IsDenyFirst (rs : List CompiledRule) : Type 0 where
  pub denies : List CompiledRule
  pub allows : List CompiledRule
  pub splits : rs ≡ denies ++ allows
  pub denies_deny : AllVerdict deny denies
  pub allows_allow : AllVerdict allow allows

-- Some deny rule of the list covers the destination.
abbrev pub DenyCovers : Dest → List CompiledRule → Type 0
DenyCovers d = Any (λ r. (r.verdict ≡ deny) × Covers d r)

not-DenyCovers : (d : Dest) (rs : List CompiledRule) → AllVerdict allow rs → ¬ DenyCovers d rs
not-DenyCovers d [] all h = h
not-DenyCovers d (r ∷ rs) (e, all) (inl (e', c)) = cc
not-DenyCovers d (r ∷ rs) (e, all) (inr h) = not-DenyCovers d rs all h

FirstCovering-DenyCovers :
    (d : Dest) (xs ys : List CompiledRule) {o : Option CompiledRule} (default : Verdict)
    → AllVerdict deny xs
    → AllVerdict allow ys
    → DenyCovers d (xs ++ ys)
    → FirstCovering d (xs ++ ys) o
    → verdict_of default o ≡ deny
FirstCovering-DenyCovers d [] ys default p q h f = absurd (not-DenyCovers d ys q h)
FirstCovering-DenyCovers d (x ∷ xs) ys default (e, p) q h (here c) = e
FirstCovering-DenyCovers d (x ∷ xs) ys default (e, p) q (inl (_, c)) (later n f) = absurd (n c)
FirstCovering-DenyCovers d (x ∷ xs) ys default (e, p) q (inr h) (later n f) =
    FirstCovering-DenyCovers d xs ys default p q h f

pub evaluate_deny_first :
    (s : RuleSet) (d : Dest)
    → IsDenyFirst s.rules
    → DenyCovers d s.rules
    → (evaluate s d).verdict ≡ deny
evaluate_deny_first s d f h =
    let x = evaluate-Decides s d in
    x.verdict
    ∙ FirstCovering-DenyCovers d f.denies f.allows s.default f.denies_deny f.allows_allow
        (subst (DenyCovers d) f.splits h)
        (subst (λ rs. FirstCovering d rs x.chosen) f.splits x.first)
