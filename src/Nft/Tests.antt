-- ===== src/Nft/Tests.antt =====
-- The plan of the sample policy, and instances of the theorems on it.
use egresswall.Common.{[], ◌≡◌, refl, inl, inr, false, true, ◌↔◌, ◌⊎◌}
use egresswall.Text.{codes, text_eq, lower, has_suffix}
use egresswall.Netip.{v4, v6, unmap, is_valid, is4}
use egresswall.Policy.{Dest}
use egresswall.Policy.Domain.{normalize_domain}
use egresswall.Policy.Evaluate.{evaluate, domain_rules}
use egresswall.Policy.Tests.{sample, sample_set, compile-sample, dest}
use egresswall.Nft.Kernel.{SetState, kernel_decision, flow_of}
use egresswall.Nft.Plan.{build, set_for, set_name}
use egresswall.Nft.Refines.{Fed, build-evaluate}
use egresswall.Nft.Sets.{Defined, set_for-Defined}

-- The set of rule 1 for IPv4 holds every address.
abbrev fed_sets : SetState
fed_sets name ip = text_eq name (codes "r1_v4")

abbrev pypi : Dest
pypi = dest "files.pypi.org" (v4 0x97650001) 443 "TCP"

pypi-Fed : Fed fed_sets pypi 0 sample_set.rules
unfolding set_for set_name unmap is4 normalize_domain
pypi-Fed = (
  unnamed,
  ((λ e. ((λ q. cc), inr (inl (codes "files", refl))), λ c. refl), (unnamed, (unnamed, tt))),
)
  where
    unnamed : {A : Type 0} → (false ≡ true) ↔ (A × (⊥ ⊎ ⊥))
    unnamed = ((λ e. cc), λ c. elim c.1 [ inl x ↦ absurd x | inr x ↦ absurd x ])

build-evaluate_example :
    kernel_decision (build sample_set) fed_sets (flow_of pypi)
    ≡ ((evaluate sample_set pypi).verdict, (evaluate sample_set pypi).rule)
unfolding lower is_valid
build-evaluate_example =
    build-evaluate fed_sets pypi sample sample_set (inl refl) refl compile-sample pypi-Fed

set_for-Defined_example : Defined (set_for 1 (v6 1 [])) (build sample_set).sets
unfolding domain_rules normalize_domain has_suffix
set_for-Defined_example = set_for-Defined sample_set (codes "files.pypi.org") 1 (v6 1 []) (inl refl)
