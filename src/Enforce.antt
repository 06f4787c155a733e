-- ===== src/Enforce.antt =====
-- cmd/egresswall/enforce.go: what a DNS answer puts into the address sets.
pub mod Feed
pub mod Decision
pub mod Loop
mod Tests
use egresswall.Common.{ℕ, ◌*◌, ◌&&◌, ◌||◌, any, List, [], ◌∷◌, ◌++◌, ltb, if◌then◌else◌}
use egresswall.Text.{Text, text_eq}
use egresswall.Netip.{Addr, addr_eq, unmap}
use egresswall.Policy.{RuleSet}
use egresswall.Policy.Evaluate.{domain_rules}
use egresswall.Nft.Kernel.{SetState}
use egresswall.Nft.Plan.{Add, set_for}
use egresswall.Dns.{Found, Answer}
use egresswall.Dns.Message.{second}

abbrev pub learn_min_ttl : ℕ
learn_min_ttl = 300 * second

-- The inner loop: one address of the answer, into the set of each rule.
unfoldable pub adds_for : Found → List ℕ → List Add
adds_for ad [] = []
adds_for ad (i ∷ rules) =
    record {
      set = set_for i ad.ip;
      ip = ad.ip;
      ttl = if ltb ad.ttl learn_min_ttl then learn_min_ttl else ad.ttl;
    }
    ∷ adds_for ad rules

unfoldable pub adds_of : List ℕ → List Found → List Add
adds_of rules [] = []
adds_of rules (ad ∷ ads) = adds_for ad rules ++ adds_of rules ads

-- The batch that `feed` hands to AddAddrs; with no rule it is empty and AddAddrs is not called.
unfoldable pub feed : RuleSet → Answer → List Add
feed s a = adds_of (domain_rules s a.name) a.addrs

-- AddAddrs of internal/nft/apply_linux.go on what the sets hold, where every set is defined.
unfoldable pub add_addrs : List Add → SetState → SetState
add_addrs adds sets name ip =
    sets name ip || any (λ a. text_eq a.set name && addr_eq (unmap a.ip) ip) adds
