-- ===== src/Enforce/Tests.antt =====
-- An answer for a name of the sample policy.
use egresswall.Common.{inl, [], ◌∷◌, ◌≡◌, refl, All}
use egresswall.Text.{lower, codes, has_suffix, itoa}
use egresswall.Netip.{is_valid, v4, unmap, is4}
use egresswall.Policy.Domain.{normalize_domain}
use egresswall.Policy.Tests.{sample, sample_set, compile-sample, dest}
use egresswall.Policy.{Dest}
use egresswall.Policy.Evaluate.{evaluate}
use egresswall.Nft.Kernel.{kernel_decision, flow_of}
use egresswall.Enforce.Decision.{empty_sets, feed-evaluate}
use egresswall.Nft.Plan.{build, set_for}
use egresswall.Dns.{Answer}
use egresswall.Enforce.{add_addrs, feed, adds_for, adds_of, learn_min_ttl}
use egresswall.Enforce.Feed.{IsSound, feed-All}

abbrev pypi : Answer
pypi = record {
  name = codes "files.pypi.org";
  addrs = record { ip = v4 0x97650001; ttl = 30 } ∷ [];
}

feed-All_example : All (IsSound (build sample_set).sets) (feed sample_set pypi)
feed-All_example = feed-All sample_set pypi

feed_tests :
    feed sample_set pypi
    ≡ record { set = codes "r1_v4"; ip = v4 0x97650001; ttl = learn_min_ttl } ∷ []
unfolding feed adds_for set_for egresswall.Policy.Evaluate.domain_rules normalize_domain has_suffix
    itoa unmap is4 adds_of
feed_tests = refl

abbrev connection : Dest
connection = dest "files.pypi.org" (v4 0x97650001) 443 "TCP"

feed-evaluate_example :
    kernel_decision
      (build sample_set)
      (add_addrs (feed sample_set pypi) empty_sets)
      (flow_of connection)
    ≡ ((evaluate sample_set connection).verdict, (evaluate sample_set connection).rule)
unfolding lower is_valid unmap normalize_domain
feed-evaluate_example =
    feed-evaluate sample sample_set pypi connection compile-sample (inl refl) refl refl (λ e. cc)
      (inl refl)
