-- ===== src/Policy.antt =====
-- internal/policy/policy.go: the data of a policy, as written in the file and as compiled.
-- Domain has the normal forms of names and cgroup paths, Compile the checks of a policy file,
-- Evaluate the matcher; the other children are about these.
pub mod Domain
pub mod Compile
pub mod Evaluate
pub mod Covers
pub mod Precedence
pub mod Compiled
pub mod WellFormed
pub mod Names
pub mod Tests
use egresswall.Common.{ℕ, Bool, List, Option, Result}
use egresswall.Text.{Text, codes}
use egresswall.Netip.{Addr, Prefix}

pub data Verdict : Type 0 where
  deny allow : Verdict

-- `Verdict.String`
abbrev pub verdict_text : Verdict → Text
verdict_text allow = codes "allow"
verdict_text deny = codes "deny"

pub record Rule : Type 0 where
  pub name : Text
  pub domains : List Text
  pub cidrs : List Text
  pub ports : List Text
  pub proto : Text
  pub cgroup : Text
  pub comment : Text

-- The version is Go's signed `int`: `none` stands for a negative one.
pub record Policy : Type 0 where
  pub version : Option ℕ
  pub default : Text
  pub allow_rules : List Rule
  pub deny_rules : List Rule

pub record Dest : Type 0 where
  pub domain : Text
  pub ip : Addr
  pub port : ℕ
  pub proto : Text
  pub cgroup : Text

pub record Decision : Type 0 where
  pub verdict : Verdict
  pub rule : Text
  pub reason : Text

pub record PortRange : Type 0 where
  pub lo : ℕ
  pub hi : ℕ

-- `exact` is the set of names, without repetition.
pub record CompiledRule : Type 0 where
  pub name : Text
  pub verdict : Verdict
  pub exact : List Text
  pub suffixes : List Text
  pub prefixes : List Prefix
  pub ports : List PortRange
  pub proto : Text
  pub cgroup : Text
  pub any_host : Bool

-- `policy.Set`
pub record RuleSet : Type 0 where
  pub rules : List CompiledRule
  pub default : Verdict
