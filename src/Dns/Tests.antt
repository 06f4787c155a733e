-- ===== src/Dns/Tests.antt =====
-- Instances of the theorems, over the parser of Sample.
use egresswall.Common.{
  ℕ, zero, suc, ◌+◌, ◌*◌, ◌<◌, Bool, true, false, List, [], ◌∷◌, Option, none, some, ◌≡◌, ◌≢◌, refl,
  arith, length, ◌==◌, if◌then◌else◌,
}
use egresswall.Common.Maps.{get}
use egresswall.Text.{codes}
use egresswall.Netip.{v4, v6, addr_key, unmap, is_mapped}
use egresswall.Policy.Domain.{normalize_domain}
use egresswall.Dns.{
  Cache, Found, new, record_answer, purge, lookup, live_name, stretch, put_ip, is_expired,
}
use egresswall.Dns.Sample.{decode, toy}
use egresswall.Dns.Lookups.{
  entry_after, last_ttl, IsRemembered, lookup-record_answer, made, recorded, lookup-purge,
}
use egresswall.Dns.Mapped.{lookup-put_ip_mapped}
use egresswall.Dns.Message.{second, no_fuel, parse, observe}
use egresswall.Dns.Loop.{
  reads_end, reads_a, reads_other, IsResponse, parse-ne-no_fuel, lookup-observe,
}

abbrev message : List ℕ
message = 1 ∷ 5 ∷ 60 ∷ 0 ∷ 1 ∷ 2 ∷ 0x01020304 ∷ []

abbrev found : List Found
found = record { ip = v4 0x01020304; ttl = 2 * second } ∷ []

message-IsResponse : IsResponse toy message (codes "API.example.com.") found
message-IsResponse = (
  decode (5 ∷ 60 ∷ 0 ∷ 1 ∷ 2 ∷ 0x01020304 ∷ []),
  decode (5 ∷ 60 ∷ 0 ∷ 1 ∷ 2 ∷ 0x01020304 ∷ []),
  refl,
  refl,
  refl,
  reads_other _ _ 60 found refl refl (reads_a _ _ 2 0x01020304 [] refl refl (reads_end _ refl)),
)

lookup-observe_example :
    IsRemembered
      (last_ttl (unmap (v4 0x01020304)) found)
      (new 0).min_ttl
      (normalize_domain (codes "API.example.com."))
      7
      9
      (lookup (new 0) (v4 0x01020304) 9)
      (lookup (observe toy (new 0) message 7).0 (v4 0x01020304) 9)
unfolding normalize_domain
lookup-observe_example =
    lookup-observe toy (new 0) message 7 (codes "API.example.com.") found (v4 0x01020304) 9
      message-IsResponse refl

parse-ne-no_fuel_example : (parse toy message).1 ≢ some no_fuel
parse-ne-no_fuel_example = parse-ne-no_fuel toy message

abbrev filled : Cache
filled = record_answer (new 5) (record { name = codes "a.example"; addrs = found }) 7

lookup-record_answer_example :
    lookup filled (v6 0xffff01020304 []) 9
    ≡ live_name 9 (
        entry_after
          (new 5).min_ttl
          (codes "a.example")
          7
          (last_ttl (unmap (v6 0xffff01020304 [])) found)
          (get (unmap (v6 0xffff01020304 [])) (new 5).by_ip))
lookup-record_answer_example =
    lookup-record_answer (new 5) (codes "a.example") found 7 (v6 0xffff01020304 []) 9

lookup-purge_example : lookup (purge filled 8) (v4 0x01020304) 9 ≡ lookup filled (v4 0x01020304) 9
lookup-purge_example =
    lookup-purge filled 8 (v4 0x01020304) 9
      (recorded (new 5) (record { name = codes "a.example"; addrs = found }) 7 (made 5))
      (ground arith)

lookup-put_ip_mapped_example :
    lookup (put_ip (new 5) (v6 0xffff01020304 []) (codes "a.example") 99) (v6 0xffff01020304 []) 9
    ≡ lookup (new 5) (v6 0xffff01020304 []) 9
unfolding is_mapped
lookup-put_ip_mapped_example =
    lookup-put_ip_mapped (new 5) 0xffff01020304 (codes "a.example") 99 (v6 0xffff01020304 []) 9 refl

-- A name is found up to the end of its lifetime, under either form of the address.
lifetime_tests :
    (lookup filled (v6 0xffff01020304 []) (7 + 2 * second) ≡ some (codes "a.example"))
    × (lookup filled (v4 0x01020304) (8 + 2 * second) ≡ none)
unfolding lookup record_answer new unmap is_expired stretch put_ip get egresswall.Dns.record_addrs
    egresswall.Common.Maps.put
lifetime_tests = (refl, refl)
