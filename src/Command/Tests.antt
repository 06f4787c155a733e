-- ===== src/Command/Tests.antt =====
-- The cases of cmd/egresswall/main_test.go, and an instance of the theorem.
use egresswall.Common.{[], ◌∷◌, ◌++◌, ◌≡◌, refl, ok, err, arith}
use egresswall.Text.{Text, codes, itoa, contains_byte}
use egresswall.Netip.{invalid, v4, v6}
use egresswall.Netip.Parse.{parse_addr}
use egresswall.Command.{
  no_port, bad_port, bad_ip, cut_last, cut_first, split_host_port, named_dest, asked, with_ip,
  port_of, parse_dest, parse_dest-itoa,
}

abbrev tcp : Text
tcp = codes "tcp"

parse_dest_tests :
    (parse_dest (codes "registry.npmjs.org:443") [] tcp
      ≡ ok (record {
        domain = codes "registry.npmjs.org";
        ip = invalid;
        port = 443;
        proto = tcp;
        cgroup = [];
      }))
    × (parse_dest (codes "10.0.0.5:5432") [] tcp
        ≡ ok (record { domain = []; ip = v4 0x0a000005; port = 5432; proto = tcp; cgroup = [] }))
    × (parse_dest (codes "[2606:4700::1]:443") [] tcp
        ≡ ok (record {
          domain = [];
          ip = v6 0x26064700000000000000000000000001 [];
          port = 443;
          proto = tcp;
          cgroup = [];
        }))
    × (parse_dest (codes "github.com:22") (codes "140.82.121.4") tcp
        ≡ ok (record {
          domain = codes "github.com";
          ip = v4 0x8c527904;
          port = 22;
          proto = tcp;
          cgroup = [];
        }))
    × (parse_dest (codes "github.com") [] tcp ≡ err (no_port (codes "github.com")))
    × (parse_dest (codes "github.com:0") [] tcp ≡ err (bad_port (codes "github.com:0")))
    × (parse_dest (codes "github.com:99999") [] tcp ≡ err (bad_port (codes "github.com:99999")))
    × (parse_dest (codes "github.com:443") (codes "not-an-ip") tcp
        ≡ err (bad_ip (codes "not-an-ip")))
unfolding parse_dest split_host_port cut_last cut_first named_dest with_ip port_of parse_addr
parse_dest_tests = (refl, refl, refl, refl, refl, refl, refl, refl)

parse_dest-itoa_example :
    parse_dest (codes "github.com" ++ (b':' ∷ itoa 443)) [] tcp
    ≡ ok (asked (parse_addr (codes "github.com")) (codes "github.com") 443 tcp)
unfolding contains_byte
parse_dest-itoa_example =
    parse_dest-itoa (codes "github.com") tcp 443 (refl, refl, refl) (omega arith) (omega arith)
