-- ===== src/Policy/Compiled.antt =====
-- internal/policy/policy.go: what `Compile` returns, for every policy file. Each loop keeps the place
-- of a rule in the file: rules that compile are listed in order, and so are the errors of the others.
use egresswall.Common.{
  ℕ, ◌+◌, List, [], ◌∷◌, ◌++◌, map, some, ◌≡◌, ◌≢◌, ◌↔◌, inl, inr, refl, ap, sym, ◌∙◌, arith, All,
  All-append, Result, ok, err, append_assoc, append-nil, subst, Result-cases,
}
use egresswall.Text.{Text}
use egresswall.Policy.{Verdict, deny, allow, Rule, Policy, Dest, CompiledRule, RuleSet}
use egresswall.Policy.Compile.{
  RuleError, bad_rules, compile_rule, position, Progress, note, compile_rules, compile,
  default_verdict, conclude, no_progress,
}
use egresswall.Policy.Covers.{is_nil_iff}
use egresswall.Policy.Evaluate.{evaluate}
use egresswall.Policy.WellFormed.{IsWellFormed, compile_rule-IsWellFormed}
use egresswall.Policy.Precedence.{IsDenyFirst, DenyCovers, evaluate_deny_first}

-- The outcome of each rule of a section, in file order.
abbrev pub outcomes : Verdict → ℕ → List Rule → List (Result RuleError CompiledRule)
outcomes v i [] = []
outcomes v i (r ∷ rs) = compile_rule r v (position v i) ∷ outcomes v (i + 1) rs

abbrev pub successes : List (Result RuleError CompiledRule) → List CompiledRule
successes [] = []
successes (ok c ∷ xs) = c ∷ successes xs
successes (err e ∷ xs) = successes xs

abbrev pub failures : List (Result RuleError CompiledRule) → List RuleError
failures [] = []
failures (ok c ∷ xs) = failures xs
failures (err e ∷ xs) = e ∷ failures xs

abbrev gather : Progress → List (Result RuleError CompiledRule) → Progress
gather p xs = record { rules = p.rules ++ successes xs; errors = p.errors ++ failures xs }

note_lem :
    (p : Progress) (x : Result RuleError CompiledRule) (xs : List (Result RuleError CompiledRule))
    → gather (note p x) xs ≡ gather p (x ∷ xs)
unfolding note
note_lem p (ok c) xs = simp append_assoc
note_lem p (err e) xs = simp append_assoc

compile_rules_lem :
    (v : Verdict) (i : ℕ) (rs : List Rule) (p : Progress)
    → compile_rules v i rs p ≡ gather p (outcomes v i rs)
unfolding compile_rules
compile_rules_lem v i [] p = simp append-nil
compile_rules_lem v i (r ∷ rs) p =
    compile_rules_lem v (i + 1) rs (note p (compile_rule r v (position v i)))
    ∙ note_lem p (compile_rule r v (position v i)) (outcomes v (i + 1) rs)

abbrev pub all_outcomes : Policy → List (Result RuleError CompiledRule)
all_outcomes p = outcomes deny 0 p.deny_rules ++ outcomes allow 0 p.allow_rules

successes-append :
    (xs ys : List (Result RuleError CompiledRule))
    → successes (xs ++ ys) ≡ successes xs ++ successes ys
successes-append [] ys = refl
successes-append (ok c ∷ xs) ys = ap (◌∷◌ c) (successes-append xs ys)
successes-append (err e ∷ xs) ys = successes-append xs ys

failures-append :
    (xs ys : List (Result RuleError CompiledRule))
    → failures (xs ++ ys) ≡ failures xs ++ failures ys
failures-append [] ys = refl
failures-append (ok c ∷ xs) ys = failures-append xs ys
failures-append (err e ∷ xs) ys = ap (◌∷◌ e) (failures-append xs ys)

-- Both loops together.
abbrev both_loops : Policy → Progress
both_loops p = compile_rules allow 0 p.allow_rules (compile_rules deny 0 p.deny_rules no_progress)

both_loops_lem : (p : Policy) → both_loops p ≡ gather no_progress (all_outcomes p)
both_loops_lem p = simp (
  compile_rules_lem,
  successes-append (outcomes deny 0 p.deny_rules) (outcomes allow 0 p.allow_rules),
  failures-append (outcomes deny 0 p.deny_rules) (outcomes allow 0 p.allow_rules),
)

failures-eq-nil :
    (xs : List (Result RuleError CompiledRule)) → failures xs ≡ [] → map ok (successes xs) ≡ xs
failures-eq-nil [] h = refl
failures-eq-nil (ok c ∷ xs) h = ap (◌∷◌ (ok c)) (failures-eq-nil xs h)
failures-eq-nil (err e ∷ xs) h = cc

failures-map-ok : (cs : List CompiledRule) → failures (map ok cs) ≡ []
failures-map-ok [] = refl
failures-map-ok (c ∷ cs) = failures-map-ok cs

successes-map-ok : (cs : List CompiledRule) → successes (map ok cs) ≡ cs
successes-map-ok [] = refl
successes-map-ok (c ∷ cs) = ap (◌∷◌ c) (successes-map-ok cs)

accepted_lem :
    (p : Policy) (s : RuleSet)
    → compile p ≡ ok s
    → (p.version ≡ some 1)
      × (default_verdict p.default ≡ some s.default)
      × (conclude s.default (both_loops p) ≡ ok s)
unfolding compile
accepted_lem p s e = ground arith

conclude-eq-ok :
    (v : Verdict) (q : Progress) (s : RuleSet) (xs : List (Result RuleError CompiledRule))
    → q ≡ gather no_progress xs
    → conclude v q ≡ ok s
    → (failures xs ≡ []) × (s.rules ≡ successes xs)
conclude-eq-ok v q s xs e h = ground (arith, is_nil_iff q.errors)

-- A policy is accepted, with the set `s`, exactly when its version is 1, its default is known, and
-- the rules of `s` are what every rule of the file compiles to, the deny section first.
pub compile-eq-ok_iff :
    (p : Policy) (s : RuleSet)
    → (compile p ≡ ok s) ↔ (
        (p.version ≡ some 1)
        × (default_verdict p.default ≡ some s.default)
        × (map ok s.rules ≡ all_outcomes p))
unfolding compile
compile-eq-ok_iff p s = (
  λ e.
      let (version, default, concluded) = accepted_lem p s e in
      let (none_failed, rules) =
        conclude-eq-ok s.default _ s (all_outcomes p) (both_loops_lem p) concluded in
      (version, default, ap (map ok) rules ∙ failures-eq-nil (all_outcomes p) none_failed),
  λ (version, default, rules). rw (
    version,
    default,
    both_loops_lem p,
    ← rules,
    failures-map-ok s.rules,
    successes-map-ok s.rules,
  ),
)

-- With version 1 and a known default, the error is the list of all the rules' errors, the deny
-- section first and each in file order; it is given exactly when that list is not empty.
pub compile-eq-bad_rules_iff :
    (p : Policy) (v : Verdict) (es : List RuleError)
    → p.version ≡ some 1
    → default_verdict p.default ≡ some v
    → (compile p ≡ err (bad_rules es)) ↔ ((es ≡ failures (all_outcomes p)) × (es ≢ []))
unfolding compile
compile-eq-bad_rules_iff p v es e h =
    rw (e, h, both_loops_lem p) (ground (arith, is_nil_iff (failures (all_outcomes p))))

-- A property of the results of `compileRule` holds of each that succeeded.
successes-All :
    (P : CompiledRule → Type 0) (v : Verdict) (i : ℕ) (rs : List Rule)
    → ((r : Rule) (pos : Text) (c : CompiledRule) → compile_rule r v pos ≡ ok c → P c)
    → All P (successes (outcomes v i rs))
successes-All P v i [] h = tt
successes-All P v i (r ∷ rs) h = elim (Result-cases (compile_rule r v (position v i))) [
  | inl (c, e) ↦ rw e (h r (position v i) c e, successes-All P v (i + 1) rs h)
  | inr (x, e) ↦ rw e (successes-All P v (i + 1) rs h)
]

rules_lem :
    (p : Policy) (s : RuleSet)
    → compile p ≡ ok s
    → s.rules
      ≡ successes (outcomes deny 0 p.deny_rules) ++ successes (outcomes allow 0 p.allow_rules)
rules_lem p s e =
    let (_, _, rules) = (compile-eq-ok_iff p s).0 e in
    sym (successes-map-ok s.rules)
    ∙ ap successes rules
    ∙ successes-append (outcomes deny 0 p.deny_rules) (outcomes allow 0 p.allow_rules)

-- Every rule of an accepted policy is well formed, with the verdict of its section, and the deny
-- rules stand in front.
pub compile-IsDenyFirst : (p : Policy) (s : RuleSet) → compile p ≡ ok s → IsDenyFirst s.rules
compile-IsDenyFirst p s e = record {
  denies = successes (outcomes deny 0 p.deny_rules);
  allows = successes (outcomes allow 0 p.allow_rules);
  splits = rules_lem p s e;
  denies_deny =
      successes-All _ deny 0 p.deny_rules
        (λ r pos c h. (compile_rule-IsWellFormed r deny pos c h).verdict);
  allows_allow =
      successes-All _ allow 0 p.allow_rules
        (λ r pos c h. (compile_rule-IsWellFormed r allow pos c h).verdict);
}

pub compile-All-IsWellFormed :
    (p : Policy) (s : RuleSet) → compile p ≡ ok s → All (λ c. IsWellFormed c.verdict c) s.rules
compile-All-IsWellFormed p s e =
    let wf =
      λ (v : Verdict) (r : Rule) (pos : Text) (c : CompiledRule) (h : compile_rule r v pos ≡ ok c).
        let w = compile_rule-IsWellFormed r v pos c h in
        subst (λ u. IsWellFormed u c) (sym w.verdict) w in
    subst (All _) (sym (rules_lem p s e)) (
      All-append _ _ _ (successes-All _ deny 0 p.deny_rules (wf deny))
        (successes-All _ allow 0 p.allow_rules (wf allow)))

-- In an accepted policy a deny rule that covers the destination decides, whatever the allow rules
-- and the default say.
pub compile-evaluate_deny :
    (p : Policy) (s : RuleSet) (d : Dest)
    → compile p ≡ ok s
    → DenyCovers d s.rules
    → (evaluate s d).verdict ≡ deny
compile-evaluate_deny p s d e h = evaluate_deny_first s d (compile-IsDenyFirst p s e) h
