-- ===== src/Policy/Evaluate.antt =====
-- internal/policy/policy.go: `Evaluate`, `match`, `DomainRules` and `Rules`.
use egresswall.Common.{
  ℕ, ◌+◌, Bool, false, not, ◌&&◌, ◌||◌, List, [], ◌∷◌, ◌++◌, map, Option, none, some, any, leb,
  if◌then◌else◌, is_nil,
}
use egresswall.Text.{Text, codes, text_eq, text_lt, lower, has_suffix}
use egresswall.Netip.{Addr, Prefix, is_valid, unmap, contains}
use egresswall.Netip.Show.{addr_text, prefix_text}
use egresswall.Policy.{Verdict, verdict_text, Dest, Decision, PortRange, CompiledRule, RuleSet}
use egresswall.Policy.Domain.{normalize_domain, cgroup_within, trim_slashes}

unfoldable pub proto_differs : CompiledRule → Text → Bool
proto_differs r proto = not (is_nil r.proto) && not (is_nil proto) && not (text_eq r.proto proto)

unfoldable pub in_range : ℕ → PortRange → Bool
in_range port r = leb r.lo port && leb port r.hi

unfoldable pub port_hit : ℕ → List PortRange → Bool
unfolding in_range
port_hit port [] = false
port_hit port (r ∷ rs) = in_range port r || port_hit port rs

-- The first suffix of the list that the name ends in.
unfoldable pub find_suffix : Text → List Text → Option Text
find_suffix name [] = none
find_suffix name (suf ∷ sufs) = if has_suffix name suf then some suf else find_suffix name sufs

unfoldable pub find_prefix : Addr → List Prefix → Option Prefix
find_prefix ip [] = none
find_prefix ip (p ∷ ps) = if contains p ip then some p else find_prefix ip ps

-- The address part of `match`, reached when no name matched.
unfoldable pub match_ip : CompiledRule → Addr → Option Text
unfolding find_prefix
match_ip r ip =
    if is_valid ip
    then (elim (find_prefix (unmap ip) r.prefixes) [
      | none ↦ none
      | some p ↦ some (codes "ip " ++ (addr_text (unmap ip) ++ (codes " in " ++ prefix_text p)))
    ])
    else none

unfoldable pub match_host : CompiledRule → Text → Addr → Option Text
unfolding find_suffix match_ip
match_host r domain ip =
    if is_nil domain
    then match_ip r ip
    else if any (text_eq domain) r.exact
    then some (codes "domain " ++ domain)
    else elim (find_suffix domain r.suffixes) [
      | none ↦ match_ip r ip
      | some suf ↦ some (codes "domain " ++ (domain ++ (codes " matches *" ++ suf)))
    ]

-- `match`: the reason, or `none` for false.
unfoldable pub match : CompiledRule → Text → Addr → ℕ → Text → Option Text
unfolding proto_differs port_hit match_host
match r domain ip port proto =
    if proto_differs r proto
    then none
    else if not (is_nil r.ports) && not (port_hit port r.ports)
    then none
    else if r.any_host
    then some (codes "any host")
    else match_host r domain ip

-- The body of the loop of `Evaluate`: the reason of the rule, if it decides.
unfoldable pub rule_reason : CompiledRule → Text → Text → Text → Addr → ℕ → Option Text
unfolding match cgroup_within
rule_reason r domain proto cgroup ip port =
    if not (is_nil r.cgroup) && not (cgroup_within cgroup r.cgroup)
    then none
    else elim (match r domain ip port proto) [
      | none ↦ none
      | some why ↦ some (if is_nil r.cgroup then why else why ++ (codes " from " ++ r.cgroup))
    ]

unfoldable pub first_match : List CompiledRule → Verdict → (CompiledRule → Option Text) → Decision
first_match [] default reason = record {
  verdict = default;
  rule = [];
  reason = codes "no rule matched, default " ++ verdict_text default;
}
first_match (r ∷ rs) default reason =
    let rest = first_match rs default reason in
    elim (reason r) [
      | none ↦ rest
      | some why ↦ record { verdict = r.verdict; rule = r.name; reason = why }
    ]

-- What `Evaluate` asks of each rule, after it has normalised the destination.
abbrev pub reason_for : Dest → CompiledRule → Option Text
reason_for d r =
    rule_reason r (normalize_domain d.domain) (lower d.proto) (trim_slashes d.cgroup) d.ip d.port

unfoldable pub evaluate : RuleSet → Dest → Decision
unfolding first_match
evaluate s d = first_match s.rules s.default (reason_for d)

-- A rule's domain patterns cover a name.
unfoldable pub covers_name : Text → CompiledRule → Bool
covers_name name r = any (text_eq name) r.exact || any (has_suffix name) r.suffixes

unfoldable pub covering_from : ℕ → Text → List CompiledRule → List ℕ
unfolding covers_name
covering_from i name [] = []
covering_from i name (r ∷ rs) =
    let rest = covering_from (i + 1) name rs in if covers_name name r then i ∷ rest else rest

unfoldable pub domain_rules : RuleSet → Text → List ℕ
unfolding covering_from
domain_rules s name = covering_from 0 (normalize_domain name) s.rules

-- `sort.Strings`, and the view of a rule that `Rules` returns.
unfoldable pub insert_sorted : Text → List Text → List Text
unfolding text_lt
insert_sorted x [] = x ∷ []
insert_sorted x (y ∷ ys) =
    let rest = insert_sorted x ys in if text_lt y x then y ∷ rest else x ∷ y ∷ ys

unfoldable pub sort_texts : List Text → List Text
unfolding insert_sorted
sort_texts [] = []
sort_texts (x ∷ xs) = insert_sorted x (sort_texts xs)

-- `RuleView` has the fields of a compiled rule, with the exact names sorted.
unfoldable pub rule_view : CompiledRule → CompiledRule
unfolding sort_texts
rule_view r = record r { exact = sort_texts r.exact }

unfoldable pub rules_view : RuleSet → List CompiledRule
unfolding rule_view
rules_view s = map rule_view s.rules
