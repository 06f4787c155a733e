-- ===== src/Dns.antt =====
-- internal/dnswatch/cache.go: the map from addresses to the names they were resolved from.
-- Times and lifetimes are natural numbers of nanoseconds.
pub mod Message
pub mod Lookups
pub mod Loop
pub mod Mapped
pub mod Sample
mod Tests
use egresswall.Common.{ℕ, ◌+◌, Bool, List, [], ◌∷◌, Option, none, some, ltb, if◌then◌else◌, length}
use egresswall.Common.Maps.{get, put, delete_if}
use egresswall.Text.{Text}
use egresswall.Netip.{Addr, addr_key, unmap}

pub record Entry : Type 0 where
  pub name : Text
  pub exp : ℕ

pub record Cache : Type 0 where
  pub min_ttl : ℕ
  pub by_ip : List (Addr × Entry)

-- An address of an answer, `Addr` in the source.
pub record Found : Type 0 where
  pub ip : Addr
  pub ttl : ℕ

pub record Answer : Type 0 where
  pub name : Text
  pub addrs : List Found

unfoldable pub new : ℕ → Cache
new min_ttl = record { min_ttl = min_ttl; by_ip = [] }

unfoldable pub put_ip : Cache → Addr → Text → ℕ → Cache
put_ip c ip name exp = record c { by_ip = put ip (record { name = name; exp = exp }) c.by_ip }

-- The lifetime, stretched to the least one of the cache.
unfoldable pub stretch : ℕ → ℕ → ℕ
stretch least ttl = if ltb ttl least then least else ttl

unfoldable pub record_addrs : Cache → Text → ℕ → List Found → Cache
record_addrs c name now [] = c
record_addrs c name now (ad ∷ ads) =
    record_addrs (put_ip c ad.ip name (now + stretch c.min_ttl ad.ttl)) name now ads

unfoldable pub record_answer : Cache → Answer → ℕ → Cache
record_answer c a now = record_addrs c a.name now a.addrs

-- `now.After(e.exp)`
unfoldable pub is_expired : ℕ → Entry → Bool
is_expired now e = ltb e.exp now

abbrev pub live_name : ℕ → Option Entry → Option Text
live_name now none = none
live_name now (some e) = if is_expired now e then none else some e.name

unfoldable pub lookup : Cache → Addr → ℕ → Option Text
lookup c ip now = live_name now (get (unmap ip) c.by_ip)

unfoldable pub purge : Cache → ℕ → Cache
purge c now = record c { by_ip = delete_if (is_expired now) c.by_ip }

unfoldable pub len : Cache → ℕ
len c = length c.by_ip
