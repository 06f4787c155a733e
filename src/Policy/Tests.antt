-- ===== src/Policy/Tests.antt =====
-- The sample policy of internal/policy/policy_test.go, run, and instances of the theorems on it.
use Prim.Native.String.{String}
use egresswall.Common.{
  ℕ, true, false, [], ◌∷◌, none, some, ◌≡◌, ◌≢◌, map, refl, ◌↔◌, inl, inr, ok, err, All,
}
use egresswall.Text.{codes, lower, cut, trim_both, has_prefix}
use egresswall.Netip.{Addr, v4, v6, invalid, unmap, is_valid, contains}
use egresswall.Netip.Show.{addr_text, prefix_text}
use egresswall.Policy.{deny, allow, Rule, Policy, Dest, RuleSet}
use egresswall.Policy.Compile.{
  blank_rule, bad_rules, compile, compile_rules, compile_rule, default_verdict, domain_step,
  cidr_step, port_step, set_proto, set_cgroup, parse_cidr, parse_port_range, port_number, range_to,
  position, bad_cidr, bad_port,
}
use egresswall.Policy.Covers.{Covers, reason_for_iff}
use egresswall.Policy.Precedence.{Decides, DenyCovers, evaluate-Decides}
use egresswall.Policy.Compiled.{
  all_outcomes, failures, compile-eq-ok_iff, compile-eq-bad_rules_iff, compile-evaluate_deny,
  compile-All-IsWellFormed,
}
use egresswall.Policy.WellFormed.{IsRange, IsWellFormed, parse_port_range-IsRange}
use egresswall.Policy.Names.{AscendsFrom, Listed, CoversAt, domain_rules_lem, evaluate-lower}
use egresswall.Policy.Evaluate.{reason_for, evaluate, rule_reason, domain_rules}
use egresswall.Policy.Domain.{normalize_domain, normalize_cgroup, cgroup_within}

abbrev pub blank : Rule
blank = record {
  name = [];
  domains = [];
  cidrs = [];
  ports = [];
  proto = [];
  cgroup = [];
  comment = [];
}

abbrev pub sample : Policy
sample = record {
  version = some 1;
  default = codes "deny";
  deny_rules =
      record blank { name = codes "no-metadata"; cidrs = codes "169.254.169.254" ∷ [] } ∷ [];
  allow_rules =
      record blank {
        name = codes "package-registries";
        domains = codes "registry.npmjs.org" ∷ codes "*.pypi.org" ∷ [];
        ports = codes "443" ∷ [];
      }
      ∷ record blank {
        name = codes "internal";
        cidrs = codes "10.0.0.0/8" ∷ [];
        cgroup = codes "/system.slice/app.service/";
      }
      ∷ record blank { ports = codes "53" ∷ []; proto = codes "UDP" }
      ∷ [];
}

abbrev pub dest : String → Addr → ℕ → String → Dest
dest name ip port proto = record {
  domain = codes name;
  ip = ip;
  port = port;
  proto = codes proto;
  cgroup = [];
}

-- What the sample compiles to.
abbrev pub sample_set : RuleSet
sample_set = record {
  rules =
      record {
        name = codes "no-metadata";
        verdict = deny;
        exact = [];
        suffixes = [];
        prefixes = record { addr = v4 0xa9fea9fe; bits = 32 } ∷ [];
        ports = [];
        proto = [];
        cgroup = [];
        any_host = false;
      }
      ∷ record {
        name = codes "package-registries";
        verdict = allow;
        exact = codes "registry.npmjs.org" ∷ [];
        suffixes = codes ".pypi.org" ∷ [];
        prefixes = [];
        ports = record { lo = 443; hi = 443 } ∷ [];
        proto = [];
        cgroup = [];
        any_host = false;
      }
      ∷ record {
        name = codes "internal";
        verdict = allow;
        exact = [];
        suffixes = [];
        prefixes = record { addr = v4 0x0a000000; bits = 8 } ∷ [];
        ports = [];
        proto = [];
        cgroup = codes "system.slice/app.service";
        any_host = false;
      }
      ∷ record {
        name = codes "allow[2]";
        verdict = allow;
        exact = [];
        suffixes = [];
        prefixes = [];
        ports = record { lo = 53; hi = 53 } ∷ [];
        proto = codes "udp";
        cgroup = [];
        any_host = true;
      }
      ∷ [];
  default = deny;
}

pub compile-sample : compile sample ≡ ok sample_set
unfolding compile compile_rules compile_rule default_verdict domain_step cidr_step port_step
    set_proto set_cgroup parse_port_range port_number range_to position cut parse_cidr
    normalize_cgroup normalize_domain
compile-sample = refl

verdicts :
    ((evaluate sample_set (dest "registry.npmjs.org" invalid 443 "tcp")).verdict ≡ allow)
    × ((evaluate sample_set (dest "Registry.NPMJS.org." invalid 443 "")).rule
        ≡ codes "package-registries")
    × ((evaluate sample_set (dest "files.pypi.org" invalid 443 "")).reason
        ≡ codes "domain files.pypi.org matches *.pypi.org")
    × ((evaluate sample_set (dest "pypi.org" invalid 443 "")).verdict ≡ deny)
    × ((evaluate sample_set (dest "evilpypi.org" invalid 443 "")).verdict ≡ deny)
    × ((evaluate sample_set (dest "registry.npmjs.org" invalid 80 "")).verdict ≡ deny)
    × ((evaluate sample_set (dest "" (v4 0x0a141e28) 5432 "")).verdict ≡ deny)
    × ((evaluate sample_set (dest "github.com" (v4 0xa9fea9fe) 443 "")).rule ≡ codes "no-metadata")
    × ((evaluate sample_set (dest "" (v4 0x01010101) 53 "udp")).verdict ≡ allow)
    × ((evaluate sample_set (dest "" (v4 0x01010101) 53 "tcp")).verdict ≡ deny)
unfolding evaluate rule_reason normalize_domain trim_both cgroup_within is_valid contains unmap
    has_prefix addr_text prefix_text
verdicts = (refl, refl, refl, refl, refl, refl, refl, refl, refl, refl)

cgroup_verdicts :
    ((evaluate sample_set (record (dest "" (v6 0xffff0a010101 []) 80 "") {
      cgroup = codes "/system.slice/app.service/worker-3";
    })).reason
      ≡ codes "ip 10.1.1.1 in 10.0.0.0/8 from system.slice/app.service")
    × ((evaluate sample_set (record (dest "" (v4 0x0a010101) 80 "") {
      cgroup = codes "system.slice/app.service-canary";
    })).verdict
        ≡ deny)
unfolding evaluate rule_reason normalize_domain trim_both cgroup_within is_valid contains unmap
    has_prefix addr_text prefix_text
cgroup_verdicts = (refl, refl)

abbrev broken : Policy
broken = record sample {
  allow_rules =
      record blank { cidrs = codes "x" ∷ [] } ∷ record blank { ports = codes "0" ∷ [] } ∷ [];
}

compile-broken :
    compile broken
    ≡ err (
        bad_rules
          (bad_cidr (codes "allow[0]") (codes "x") ∷ bad_port (codes "allow[1]") (codes "0") ∷ []))
unfolding compile compile_rules compile_rule default_verdict domain_step cidr_step port_step
    set_proto set_cgroup parse_port_range port_number range_to position cut parse_cidr
    normalize_cgroup normalize_domain
compile-broken = refl

evaluate-Decides_example :
    Decides
      (dest "files.pypi.org" invalid 443 "tcp")
      sample_set.rules
      deny
      (evaluate sample_set (dest "files.pypi.org" invalid 443 "tcp"))
evaluate-Decides_example = evaluate-Decides sample_set (dest "files.pypi.org" invalid 443 "tcp")

reason_for_iff_example :
    (reason_for (dest "pypi.org" invalid 443 "") (blank_rule (codes "r") deny) ≢ none)
    ↔ Covers (dest "pypi.org" invalid 443 "") (blank_rule (codes "r") deny)
reason_for_iff_example =
    reason_for_iff (dest "pypi.org" invalid 443 "") (blank_rule (codes "r") deny)

metadata-DenyCovers : DenyCovers (dest "github.com" (v4 0xa9fea9fe) 443 "tcp") sample_set.rules
unfolding unmap is_valid contains
metadata-DenyCovers = inl (
  refl,
  record {
    cgroup = inl refl;
    proto = inl refl;
    port = inl refl;
    host = inr (inr (refl, inl refl));
  },
)

compile-evaluate_deny_example :
    (evaluate sample_set (dest "github.com" (v4 0xa9fea9fe) 443 "tcp")).verdict ≡ deny
compile-evaluate_deny_example =
    compile-evaluate_deny sample sample_set (dest "github.com" (v4 0xa9fea9fe) 443 "tcp")
      compile-sample metadata-DenyCovers

compile-eq-ok_iff_example : (compile sample ≡ ok sample_set) ↔ (
    (sample.version ≡ some 1)
    × (default_verdict sample.default ≡ some deny)
    × (map ok sample_set.rules ≡ all_outcomes sample))
compile-eq-ok_iff_example = compile-eq-ok_iff sample sample_set

compile-eq-bad_rules_iff_example :
    (compile broken ≡ err (bad_rules (bad_cidr [] [] ∷ [])))
    ↔ (((bad_cidr [] [] ∷ []) ≡ failures (all_outcomes broken)) × ((bad_cidr [] [] ∷ []) ≢ []))
unfolding default_verdict
compile-eq-bad_rules_iff_example =
    compile-eq-bad_rules_iff broken deny (bad_cidr [] [] ∷ []) refl refl

compile-All-IsWellFormed_example : All (λ c. IsWellFormed c.verdict c) sample_set.rules
compile-All-IsWellFormed_example = compile-All-IsWellFormed sample sample_set compile-sample

parse_port_range-IsRange_example : IsRange (record { lo = 8000; hi = 9000 })
unfolding parse_port_range port_number range_to cut
parse_port_range-IsRange_example =
    parse_port_range-IsRange [] (codes " 8000-9000 ") (record { lo = 8000; hi = 9000 }) refl

domain_rules_lem_example :
    AscendsFrom 0 (domain_rules sample_set (codes "files.pypi.org"))
    × ((i : ℕ)
        → Listed i (domain_rules sample_set (codes "files.pypi.org"))
          ↔ CoversAt (normalize_domain (codes "files.pypi.org")) sample_set.rules i)
domain_rules_lem_example = domain_rules_lem sample_set (codes "files.pypi.org")

evaluate-lower_example :
    evaluate sample_set (dest "files.pypi.org" invalid 443 "tcp")
    ≡ evaluate sample_set (dest "Files.PyPI.org" invalid 443 "TCP")
unfolding lower
evaluate-lower_example = evaluate-lower sample_set (dest "Files.PyPI.org" invalid 443 "TCP")
