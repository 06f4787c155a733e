-- ===== src/Nft/Apply/Evaluated.antt =====
-- internal/nft/apply_linux.go, internal/nft/plan.go and internal/policy/policy.go together: the ruleset
-- that is loaded for a policy does with a packet what `Evaluate` says of its destination.
use egresswall.Common.{Bool, false, any, Option, none, some, ◌≡◌, if◌then◌else◌, is_nil}
use egresswall.Text.{Text}
use egresswall.Netip.{contains}
use egresswall.Policy.{Policy, RuleSet}
use egresswall.Policy.Domain.{cgroup_within}
use egresswall.Nft.Plan.{Plan, build}
use egresswall.Nft.Kernel.{Flow}
use egresswall.Nft.Exprs.{CgroupStat, absent, native_bytes}
use egresswall.Nft.Exprs.Machine.{Traffic, Ending, accepted, at_start}
use egresswall.Nft.Apply.{housekeeping}
use egresswall.Nft.Apply.Ends.{loopback}

-- The plan of a policy, with the forward chain where it is asked for.
abbrev pub plan_of : RuleSet → Bool → Plan
plan_of s fwd = record (build s) { forward = fwd }

-- A chain with the policy accept lets through what no rule ends; one with drop says nothing of it.
abbrev pub left_over : Plan → Option Ending
left_over p = if p.default_deny then none else some accepted

-- The packet starts a connection that the chain does not let through unseen.
pub record IsJudged (f : Flow) (t : Traffic) : Type 0 where
  pub new : t.state ≡ native_bytes 4 8
  pub outside : at_start t.interface loopback ≡ false
  pub routed : any (λ q. contains q f.dst) housekeeping ≡ false

-- A flow is in no cgroup that does not exist.
abbrev pub Present : (Text → CgroupStat) → Flow → Type 0
Present stat f =
    (path : Text) → is_nil path ≡ false → stat path ≡ absent → cgroup_within f.cgroup path ≡ false
