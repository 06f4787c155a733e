-- ===== src/Nft/Rendered/Tests.antt =====
-- Lines of the tests of internal/nft/plan_test.go.
use egresswall.Common.{◌++◌, some, ◌≡◌, refl}
use egresswall.Text.{Text, codes, itoa, join, count_byte}
use egresswall.Netip.{v4, bit_len}
use egresswall.Netip.Show.{addr_text, prefix_text}
use egresswall.Policy.{allow}
use egresswall.Nft.Plan.{ipv4, ipv6, any_family, blank_atom, log_prefix}
use egresswall.Nft.Exprs.{cgroup_level}
use egresswall.Nft.Rendered.{
  atom_text, cgroup_part, address_part, transport_part, verdict_part, refuse_text, family_word,
  short_prefix, port_text,
}

abbrev quoted : Text → Text
quoted s = codes "'" ++ (s ++ codes "'")

atom_texts :
    (atom_text quoted (record (blank_atom ipv4) {
      prefix = some (record { addr = v4 0xa9fea9fe; bits = 32 });
      rule = codes "no-metadata";
    })
      ≡ codes
          "ip daddr 169.254.169.254 log prefix 'egresswall deny[no-metadata]: ' reject with icmpx type admin-prohibited")
    × (atom_text quoted (record (blank_atom ipv6) {
      set = codes "r1_v6";
      port = record { lo = 443; hi = 443 };
      verdict = allow;
    })
        ≡ codes "ip6 daddr @r1_v6 meta l4proto { tcp, udp } th dport 443 accept")
    × (atom_text quoted (record (blank_atom any_family) {
      proto = codes "udp";
      port = record { lo = 53; hi = 60 };
      cgroup = codes "system.slice/app.service";
      verdict = allow;
    })
        ≡ codes "socket cgroupv2 level 2 'system.slice/app.service' udp dport 53-60 accept")
unfolding atom_text cgroup_part address_part transport_part verdict_part refuse_text family_word
    short_prefix port_text itoa join log_prefix cgroup_level count_byte bit_len addr_text
    prefix_text
atom_texts = (refl, refl, refl)
