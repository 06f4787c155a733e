-- ===== src/Dns/Mapped.antt =====
-- internal/dnswatch/cache.go: an IPv4 address inside an IPv6 one, as the key of an entry.
use egresswall.Common.{ℕ, true, false, [], ◌≡◌, refl, arith}
use egresswall.Common.Maps.{get-put}
use egresswall.Text.{Text}
use egresswall.Netip.{Addr, v6, v4, invalid, addr_key, addr_eq, unmap, is_mapped}
use egresswall.Dns.{Cache, put_ip, lookup}

unmap_differs : (a : ℕ) (ip : Addr) → is_mapped a ≡ true → addr_eq (v6 a []) (unmap ip) ≡ false
unfolding unmap
unmap_differs a invalid h = refl
unmap_differs a (v4 b) h = refl
unmap_differs a (v6 b z) h = ground arith

-- An entry under an address of the form ::ffff:a.b.c.d is never found: storing it changes no lookup,
-- of the address itself or of any other, for Record keeps the address as it stands in the answer and
-- Lookup asks for its unmapped form.
pub lookup-put_ip_mapped :
    (c : Cache) (a : ℕ) (name : Text) (exp : ℕ) (ip : Addr) (now : ℕ)
    → is_mapped a ≡ true
    → lookup (put_ip c (v6 a []) name exp) ip now ≡ lookup c ip now
unfolding lookup put_ip
lookup-put_ip_mapped c a name exp ip now h =
    rw
      (
        get-put (v6 a []) (unmap ip) (record { name = name; exp = exp }) c.by_ip,
        unmap_differs a ip h,
      )
      refl
