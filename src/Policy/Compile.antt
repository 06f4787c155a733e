-- ===== src/Policy/Compile.antt =====
-- internal/policy/policy.go: `Compile`, `compileRule` and `parsePortRange`.
-- The decoding of YAML in front of `Compile` is a library's (`Parse` has it as an argument).
use egresswall.Common.{
  ℕ, ◌+◌, Bool, false, ◌&&◌, ◌||◌, List, [], ◌∷◌, ◌++◌, Option, none, some, any, ltb, ◌==◌,
  if◌then◌else◌, is_nil, drop, Result, ok, err, ◌>>=◌, each_ok,
}
use egresswall.Text.{
  Text, codes, text_eq, lower, trim_space, has_prefix, contains_byte, cut, parse_uint, itoa,
}
use egresswall.Netip.{Prefix, masked, single}
use egresswall.Netip.Parse.{parse_addr, parse_prefix}
use egresswall.Policy.{Verdict, deny, allow, Rule, Policy, PortRange, CompiledRule, RuleSet}
use egresswall.Policy.Domain.{normalize_domain, normalize_cgroup, CgroupError}

-- Each error of a rule begins with the rule's place in the file.
pub data RuleError : Type 0 where
  not_a_domain bad_wildcard bad_cidr bad_port bad_port_range bad_proto : Text → Text → RuleError
  bad_cgroup : Text → CgroupError → RuleError

pub data PolicyError : Type 0 where
  bad_yaml : PolicyError
  bad_version : Option ℕ → PolicyError
  bad_default : Text → PolicyError
  bad_rules : List RuleError → PolicyError

-- `strconv.ParseUint(strings.TrimSpace(s), 10, 16)`, with 0 refused.
unfoldable pub port_number : Text → Option ℕ
unfolding trim_space parse_uint
port_number s = elim (parse_uint 10 65535 (trim_space s)) [
  | none ↦ none
  | some a ↦ if a == 0 then none else some a
]

-- The range from `a` to the text after the dash, if there is one.
unfoldable pub range_to : Text → Text → ℕ → Option Text → Result RuleError PortRange
unfolding port_number
range_to pos s a none = ok (record { lo = a; hi = a })
range_to pos s a (some hi) = elim (port_number hi) [
  | none ↦ err (bad_port_range pos s)
  | some b ↦ if ltb b a then err (bad_port_range pos s) else ok (record { lo = a; hi = b })
]

abbrev pub dash_parts : Text → Text × Option Text
dash_parts s = elim (cut (codes "-") s) [ none ↦ (s, none) | some (lo, hi) ↦ (lo, some hi) ]

unfoldable pub parse_port_range : Text → Text → Result RuleError PortRange
parse_port_range pos s =
    let (lo, hi) = dash_parts (trim_space s) in
    elim (port_number lo) [ none ↦ err (bad_port pos s) | some a ↦ range_to pos s a hi ]

-- `c.exact[d] = struct{}{}`
unfoldable pub add_exact : Text → List Text → List Text
add_exact d names = if any (text_eq d) names then names else names ++ d ∷ []

unfoldable pub domain_step : Text → CompiledRule → Text → Result RuleError CompiledRule
unfolding add_exact has_prefix contains_byte
domain_step pos c raw =
    let d = normalize_domain raw in
    if is_nil d || text_eq d (codes "*")
    then err (not_a_domain pos d)
    else if has_prefix d (codes "*.")
    then (if contains_byte b'*' (drop 2 d)
        then err (bad_wildcard pos d)
        else ok (record c { suffixes = c.suffixes ++ drop 1 d ∷ [] }))
    else if contains_byte b'*' d
    then err (bad_wildcard pos d)
    else ok (record c { exact = add_exact d c.exact })

-- A prefix, or else one address with all its bits.
unfoldable pub parse_cidr : Text → Option Prefix
unfolding parse_prefix parse_addr single
parse_cidr s = elim (parse_prefix s) [
  | some p ↦ some p
  | none ↦ elim (parse_addr s) [ none ↦ none | some a ↦ some (single a) ]
]

unfoldable pub cidr_step : Text → CompiledRule → Text → Result RuleError CompiledRule
unfolding masked
cidr_step pos c s = elim (parse_cidr s) [
  | none ↦ err (bad_cidr pos s)
  | some p ↦ ok (record c { prefixes = c.prefixes ++ masked p ∷ [] })
]

unfoldable pub port_step : Text → CompiledRule → Text → Result RuleError CompiledRule
port_step pos c s = parse_port_range pos s >>= λ r. ok (record c { ports = c.ports ++ r ∷ [] })

unfoldable pub set_proto : Text → Text → CompiledRule → Result RuleError CompiledRule
unfolding lower
set_proto pos proto c =
    let p = lower proto in
    if is_nil p || text_eq p (codes "tcp") || text_eq p (codes "udp")
    then ok (record c { proto = p })
    else err (bad_proto pos proto)

unfoldable pub set_cgroup : Text → Text → CompiledRule → Result RuleError CompiledRule
set_cgroup pos path c = if is_nil path then ok c else elim (normalize_cgroup path) [
  | ok p ↦ ok (record c { cgroup = p })
  | err e ↦ err (bad_cgroup pos e)
]

abbrev pub set_any_host : CompiledRule → CompiledRule
set_any_host c = record c { any_host = is_nil c.exact && is_nil c.suffixes && is_nil c.prefixes }

abbrev pub blank_rule : Text → Verdict → CompiledRule
blank_rule name v = record {
  name = name;
  verdict = v;
  exact = [];
  suffixes = [];
  prefixes = [];
  ports = [];
  proto = [];
  cgroup = [];
  any_host = false;
}

unfoldable pub compile_rule : Rule → Verdict → Text → Result RuleError CompiledRule
unfolding each_ok
compile_rule r v pos = do
  c ← each_ok (domain_step pos) (blank_rule (if is_nil r.name then pos else r.name) v) r.domains
  c ← each_ok (cidr_step pos) c r.cidrs
  c ← each_ok (port_step pos) c r.ports
  c ← set_proto pos r.proto c
  c ← set_cgroup pos r.cgroup c
  ok (set_any_host c)

-- `fmt.Sprintf("deny[%d]", i)`, and the same with "allow".
unfoldable pub position : Verdict → ℕ → Text
unfolding itoa
position deny i = codes "deny[" ++ (itoa i ++ codes "]")
position allow i = codes "allow[" ++ (itoa i ++ codes "]")

-- What a loop of `Compile` has so far.
pub record Progress : Type 0 where
  pub rules : List CompiledRule
  pub errors : List RuleError

unfoldable pub note : Progress → Result RuleError CompiledRule → Progress
note p (ok c) = record p { rules = p.rules ++ c ∷ [] }
note p (err e) = record p { errors = p.errors ++ e ∷ [] }

unfoldable pub compile_rules : Verdict → ℕ → List Rule → Progress → Progress
unfolding note
compile_rules v i [] p = p
compile_rules v i (r ∷ rs) p = compile_rules v (i + 1) rs (note p (compile_rule r v (position v i)))

unfoldable pub default_verdict : Text → Option Verdict
default_verdict s =
    if text_eq s (codes "deny")
    then some deny
    else if text_eq s (codes "allow")
    then some allow
    else none

abbrev pub is_version_one : Option ℕ → Bool
is_version_one none = false
is_version_one (some n) = n == 1

abbrev pub conclude : Verdict → Progress → Result PolicyError RuleSet
conclude v p =
    if is_nil p.errors
    then ok (record { rules = p.rules; default = v })
    else err (bad_rules p.errors)

abbrev pub no_progress : Progress
no_progress = record { rules = []; errors = [] }

unfoldable pub compile : Policy → Result PolicyError RuleSet
compile p =
    if is_version_one p.version
    then elim (default_verdict p.default) [
      | none ↦ err (bad_default p.default)
      | some v ↦
          conclude v
            (compile_rules allow 0 p.allow_rules (compile_rules deny 0 p.deny_rules no_progress))
    ]
    else err (bad_version p.version)

-- `Parse`, over the YAML decoder with known fields only.
unfoldable pub parse : (Text → Option Policy) → Text → Result PolicyError RuleSet
parse decode raw = elim (decode raw) [ none ↦ err bad_yaml | some p ↦ compile p ]
