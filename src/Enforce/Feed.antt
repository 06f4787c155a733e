-- ===== src/Enforce/Feed.antt =====
-- cmd/egresswall/enforce.go, `feed`, against `Build` of internal/nft/plan.go.
use egresswall.Common.{ℕ, ◌≤◌, List, [], ◌∷◌, ◌++◌, refl, inl, inr, arith, All}
use egresswall.Text.{Text}
use egresswall.Policy.{RuleSet}
use egresswall.Policy.Evaluate.{domain_rules}
use egresswall.Policy.Names.{Listed}
use egresswall.Nft.Plan.{build, SetDef}
use egresswall.Nft.Sets.{Defined, set_for-Defined}
use egresswall.Dns.{Found, Answer}
use egresswall.Nft.Plan.{Add}
use egresswall.Enforce.{adds_for, adds_of, feed, learn_min_ttl}

-- The set is defined by the plan, and the time to live is at least the least one.
abbrev pub IsSound : List SetDef → Add → Type 0
IsSound sets a = Defined a.set sets × (learn_min_ttl ≤ a.ttl)

All-append-right : (P : Add → Type 0) (xs ys : List Add) → All P xs → All P ys → All P (xs ++ ys)
All-append-right P [] ys h k = k
All-append-right P (x ∷ xs) ys (h, hs) k = (h, All-append-right P xs ys hs k)

adds_for-All :
    (s : RuleSet) (name : Text) (ad : Found) (rules : List ℕ)
    → ((i : ℕ) → Listed i rules → Listed i (domain_rules s name))
    → All (IsSound (build s).sets) (adds_for ad rules)
unfolding adds_for
adds_for-All s name ad [] sub = tt
adds_for-All s name ad (i ∷ rules) sub = (
  (set_for-Defined s name i ad.ip (sub i (inl refl)), ground arith),
  adds_for-All s name ad rules (λ j h. sub j (inr h)),
)

adds_of-All :
    (s : RuleSet) (name : Text) (ads : List Found)
    → All (IsSound (build s).sets) (adds_of (domain_rules s name) ads)
unfolding adds_of
adds_of-All s name [] = tt
adds_of-All s name (ad ∷ ads) =
    All-append-right (IsSound (build s).sets) (adds_for ad (domain_rules s name))
      (adds_of (domain_rules s name) ads) (adds_for-All s name ad (domain_rules s name) (λ i h. h))
      (adds_of-All s name ads)

-- Every address that `feed` adds for an answer goes into a set that the plan of the policy defines, for
-- at least the least time to live.
pub feed-All : (s : RuleSet) (a : Answer) → All (IsSound (build s).sets) (feed s a)
unfolding feed
feed-All s a = adds_of-All s a.name a.addrs
