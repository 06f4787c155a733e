-- ===== src/Enforce/Decision.antt =====
-- cmd/egresswall/enforce.go, `feed`, with `AddAddrs` of internal/nft/apply_linux.go: after an answer the
-- kernel decides as the policy does.
use egresswall.Common.{
  ℕ, suc, ◌+◌, ◌*◌, Bool, true, false, ◌&&◌, List, [], ◌∷◌, ◌++◌, drop, any, Any, ◌≡◌, ◌≢◌, ◌↔◌,
  ◌⊎◌, inl, inr, refl, ap, subst, arith, ok,
}
use egresswall.Text.{Text, codes, text_eq, text_eq_iff, lower}
use egresswall.Text.Decimal.{value, value-itoa}
use egresswall.Netip.{Addr, addr_eq, addr_eq_iff, unmap, is_valid}
use egresswall.Policy.{Policy, Dest, RuleSet, CompiledRule}
use egresswall.Policy.Compile.{compile}
use egresswall.Policy.Domain.{normalize_domain}
use egresswall.Policy.Evaluate.{domain_rules, evaluate}
use egresswall.Policy.Names.{Listed, CoversAt, domain_rules_lem}
use egresswall.Nft.Plan.{build, set_for, set_name, Family, any_family, ipv4, ipv6}
use egresswall.Nft.Kernel.{SetState, kernel_decision, flow_of}
use egresswall.Nft.Refines.{Fed, unmap_idem, build-evaluate}
use egresswall.Dns.{Found, Answer}
use egresswall.Nft.Plan.{Add}
use egresswall.Enforce.{adds_for, adds_of, feed, add_addrs}

set_name-value :
    (i : ℕ) (f : Family)
    → (value 0 (drop 1 (set_name i f)) ≡ ((i * 10 + 47) * 10 + 70) * 10 + 4)
      ⊎ (value 0 (drop 1 (set_name i f)) ≡ ((i * 10 + 47) * 10 + 70) * 10 + 6)
unfolding set_name value
set_name-value i ipv6 = inr (value-itoa i (codes "_v6"))
set_name-value i ipv4 = inl (value-itoa i (codes "_v4"))
set_name-value i any_family = inl (value-itoa i (codes "_v4"))

set_name_injective : (i j : ℕ) (f : Family) → set_name i f ≡ set_name j f → i ≡ j
set_name_injective i j f h =
    let same : value 0 (drop 1 (set_name i f)) ≡ value 0 (drop 1 (set_name j f)) =
      ap (λ t. value 0 (drop 1 t)) h in
    ground (arith, set_name-value i f, set_name-value j f)

set_for_injective : (i j : ℕ) (ip : Addr) → set_for i ip ≡ set_for j ip → i ≡ j
unfolding set_for
set_for_injective i j ip h =
    ground (arith, set_name_injective i j ipv4, set_name_injective i j ipv6)

abbrev in_sets : List Add → Text → Addr → Bool
in_sets adds name ip = any (λ a. text_eq a.set name && addr_eq (unmap a.ip) ip) adds

any-append_iff :
    (p : Add → Bool) (xs ys : List Add)
    → (any p (xs ++ ys) ≡ true) ↔ ((any p xs ≡ true) ⊎ (any p ys ≡ true))
any-append_iff p [] ys = ground arith
any-append_iff p (x ∷ xs) ys = ground (arith, any-append_iff p xs ys)

set_for-unmap : (i : ℕ) (a b : Addr) → unmap a ≡ unmap b → set_for i a ≡ set_for i b
unfolding set_for
set_for-unmap i a b h = rw h refl

adds_for_iff :
    (i : ℕ) (ad : Found) (ip : Addr) (rules : List ℕ)
    → (in_sets (adds_for ad rules) (set_for i ip) (unmap ip) ≡ true)
      ↔ ((unmap ad.ip ≡ unmap ip) × Listed i rules)
unfolding adds_for
adds_for_iff i ad ip [] = ground arith
adds_for_iff i ad ip (j ∷ rules) = ground (
  arith,
  adds_for_iff i ad ip rules,
  text_eq_iff (set_for j ad.ip) (set_for i ip),
  addr_eq_iff (unmap ad.ip) (unmap ip),
  set_for-unmap j ad.ip ip,
  set_for_injective j i ip,
)

adds_of_iff :
    (i : ℕ) (ads : List Found) (ip : Addr) (rules : List ℕ)
    → (in_sets (adds_of rules ads) (set_for i ip) (unmap ip) ≡ true)
      ↔ (Any (λ ad. unmap ad.ip ≡ unmap ip) ads × Listed i rules)
unfolding adds_of
adds_of_iff i [] ip rules = ground arith
adds_of_iff i (ad ∷ ads) ip rules = ground (
  arith,
  adds_of_iff i ads ip rules,
  adds_for_iff i ad ip rules,
  any-append_iff (λ a. text_eq a.set (set_for i ip) && addr_eq (unmap a.ip) (unmap ip))
      (adds_for ad rules) (adds_of rules ads),
)

Fed-from :
    (sets : SetState) (d : Dest) (k : ℕ) (rs : List CompiledRule)
    → normalize_domain d.domain ≢ []
    → ((i m : ℕ)
        → i ≡ k + m
        → (sets (set_for i (unmap d.ip)) (unmap d.ip) ≡ true)
          ↔ CoversAt (normalize_domain d.domain) rs m)
    → Fed sets d k rs
Fed-from sets d k [] named agree = tt
Fed-from sets d k (r ∷ rs) named agree = (
  (let (to, from) = agree k 0 (omega arith) in (λ e. (named, to e), λ (ne, c). from c)),
  Fed-from sets d (k + 1) rs named (λ i m e. agree i (suc m) (omega (arith, e))),
)

abbrev pub empty_sets : SetState
empty_sets name ip = false

in_feed_iff :
    (s : RuleSet) (a : Answer) (d : Dest) (i : ℕ)
    → (in_sets (feed s a) (set_for i (unmap d.ip)) (unmap d.ip) ≡ true)
      ↔ (Any (λ ad. unmap ad.ip ≡ unmap d.ip) a.addrs × Listed i (domain_rules s a.name))
unfolding feed
in_feed_iff s a d i =
    let rules : List ℕ = domain_rules s a.name in
    subst
      (λ u.
        (in_sets (adds_of rules a.addrs) (set_for i (unmap d.ip)) u ≡ true)
        ↔ (Any (λ ad. unmap ad.ip ≡ u) a.addrs × Listed i rules))
      (unmap_idem d.ip) (adds_of_iff i a.addrs (unmap d.ip) rules)

CoversAt-same :
    (s : RuleSet) (a : Answer) (d : Dest) (i m : ℕ)
    → a.name ≡ d.domain
    → i ≡ m
    → CoversAt (normalize_domain a.name) s.rules i ↔ CoversAt (normalize_domain d.domain) s.rules m
CoversAt-same s a d i m same at = rw (same, at) ((λ c. c), λ c. c)

feed-Fed :
    (s : RuleSet) (a : Answer) (d : Dest)
    → a.name ≡ d.domain
    → normalize_domain d.domain ≢ []
    → Any (λ ad. unmap ad.ip ≡ unmap d.ip) a.addrs
    → Fed (add_addrs (feed s a) empty_sets) d 0 s.rules
unfolding add_addrs feed
feed-Fed s a d same named answered =
    Fed-from (add_addrs (feed s a) empty_sets) d 0 s.rules named (λ i m e.
      let at : i ≡ m = omega (arith, e) in
      let (into, back) = in_feed_iff s a d i in
      let (to, from) = (domain_rules_lem s a.name).1 i in
      let (there, here) = CoversAt-same s a d i m same at in
      (λ h. there (to (into h).1), λ c. back (answered, from (here c))))

-- When the sets start empty and `feed` has added an answer for the name of the destination that holds
-- its address, the kernel with the plan of an accepted policy gives the verdict and the rule name that
-- Evaluate gives, over tcp or udp.
pub feed-evaluate :
    (p : Policy) (s : RuleSet) (a : Answer) (d : Dest)
    → compile p ≡ ok s
    → (lower d.proto ≡ codes "tcp") ⊎ (lower d.proto ≡ codes "udp")
    → is_valid d.ip ≡ true
    → a.name ≡ d.domain
    → normalize_domain d.domain ≢ []
    → Any (λ ad. unmap ad.ip ≡ unmap d.ip) a.addrs
    → kernel_decision (build s) (add_addrs (feed s a) empty_sets) (flow_of d)
      ≡ ((evaluate s d).verdict, (evaluate s d).rule)
feed-evaluate p s a d accepted known valid same named answered =
    build-evaluate (add_addrs (feed s a) empty_sets) d p s known valid accepted
      (feed-Fed s a d same named answered)
