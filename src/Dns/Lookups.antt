-- ===== src/Dns/Lookups.antt =====
-- internal/dnswatch/cache.go, `Record`, `Lookup` and `Purge`: what a lookup finds after the others.
use egresswall.Common.{
  inl, inr, ◌⊎◌, Option-cases, ℕ, ◌+◌, ◌<◌, ◌≤◌, subst, sym, List, [], ◌∷◌, Option, none, some, ◌≡◌,
  refl, arith, if◌then◌else◌,
}
use egresswall.Common.Maps.{get, get-put, IsMap, put-IsMap, delete_if-IsMap, get-delete_if}
use egresswall.Text.{Text}
use egresswall.Netip.{Addr, addr_key, addr_eq, unmap}
use egresswall.Dns.{
  Cache, new, Answer, Entry, Found, put_ip, record_addrs, record_answer, lookup, live_name,
  is_expired, stretch, purge,
}

-- The lifetime of the last address of the list that is `ip`.
unfoldable pub last_ttl : Addr → List Found → Option ℕ
last_ttl ip [] = none
last_ttl ip (ad ∷ ads) = elim (last_ttl ip ads) [
  | some ttl ↦ some ttl
  | none ↦ if addr_eq ad.ip ip then some ad.ttl else none
]

-- The entry that an answer leaves for `ip`, where it had `old`.
abbrev pub entry_after : ℕ → Text → ℕ → Option ℕ → Option Entry → Option Entry
entry_after least name now none old = old
entry_after least name now (some ttl) old =
    some (record { name = name; exp = now + stretch least ttl })

get-record_addrs :
    (c : Cache) (name : Text) (now : ℕ) (ads : List Found) (ip : Addr)
    → get ip (record_addrs c name now ads).by_ip
      ≡ entry_after c.min_ttl name now (last_ttl ip ads) (get ip c.by_ip)
unfolding record_addrs put_ip last_ttl
get-record_addrs c name now [] ip = refl
get-record_addrs c name now (ad ∷ ads) ip = ground (
  arith,
  get-put ad.ip ip (record { name = name; exp = now + stretch c.min_ttl ad.ttl }) c.by_ip,
  get-record_addrs (put_ip c ad.ip name (now + stretch c.min_ttl ad.ttl)) name now ads ip,
)

-- After an answer is recorded, a lookup finds the name of the answer until the lifetime of the last
-- address of the answer that is the one looked up, stretched to the least lifetime of the cache, has
-- passed; an address that the answer does not hold is found as before.
pub lookup-record_answer :
    (c : Cache) (name : Text) (ads : List Found) (now : ℕ) (ip : Addr) (later : ℕ)
    → lookup (record_answer c (record { name = name; addrs = ads }) now) ip later
      ≡ live_name later
          (entry_after c.min_ttl name now (last_ttl (unmap ip) ads) (get (unmap ip) c.by_ip))
unfolding lookup record_answer
lookup-record_answer c name ads now ip later = rw (get-record_addrs c name now ads (unmap ip)) refl

-- What a lookup `later` finds after an answer at `now`: with no lifetime what it found `before`; with one
-- the name, up to that lifetime or up to the least one, and nothing once both have passed.
abbrev pub IsRemembered : Option ℕ → ℕ → Text → ℕ → ℕ → Option Text → Option Text → Type 0
IsRemembered none least name now later before found = found ≡ before
IsRemembered (some ttl) least name now later before found =
    ((found ≡ some name) × ((later ≤ now + ttl) ⊎ (later ≤ now + least)))
    ⊎ ((found ≡ none) × ((now + ttl < later) × (now + least < later)))

entry_after-IsRemembered :
    (t : Option ℕ) (least : ℕ) (name : Text) (now later : ℕ) (old : Option Entry)
    → IsRemembered t least name now later
        (live_name later old)
        (live_name later (entry_after least name now t old))
unfolding is_expired stretch
entry_after-IsRemembered none least name now later old = refl
entry_after-IsRemembered (some ttl) least name now later old = ground arith

pub record_answer-IsRemembered :
    (c : Cache) (name : Text) (ads : List Found) (now : ℕ) (ip : Addr) (later : ℕ)
    → IsRemembered
        (last_ttl (unmap ip) ads)
        c.min_ttl
        name
        now
        later
        (lookup c ip later)
        (lookup (record_answer c (record { name = name; addrs = ads }) now) ip later)
unfolding lookup
record_answer-IsRemembered c name ads now ip later =
    subst (IsRemembered (last_ttl (unmap ip) ads) c.min_ttl name now later (lookup c ip later))
      (sym (lookup-record_answer c name ads now ip later))
      (entry_after-IsRemembered (last_ttl (unmap ip) ads) c.min_ttl name now later
        (get (unmap ip) c.by_ip))

record_addrs-IsMap :
    (c : Cache) (name : Text) (now : ℕ) (ads : List Found)
    → IsMap c.by_ip
    → IsMap (record_addrs c name now ads).by_ip
unfolding record_addrs put_ip
record_addrs-IsMap c name now [] one = one
record_addrs-IsMap c name now (ad ∷ ads) one =
    let exp : ℕ = now + stretch c.min_ttl ad.ttl in
    record_addrs-IsMap (put_ip c ad.ip name exp) name now ads
      (put-IsMap ad.ip (record { name = name; exp = exp }) c.by_ip one)

-- The caches that New, Record and Purge make, in any order and at any times.
pub data Reached : Cache → Type 0 where
  made : (least : ℕ) → Reached (new least)
  recorded : (c : Cache) (a : Answer) (now : ℕ) → Reached c → Reached (record_answer c a now)
  purged : (c : Cache) (now : ℕ) → Reached c → Reached (purge c now)

Reached-IsMap : (c : Cache) → Reached c → IsMap c.by_ip
unfolding new record_answer purge IsMap
Reached-IsMap _ (made least) = tt
Reached-IsMap _ (recorded c a now r) = record_addrs-IsMap c a.name now a.addrs (Reached-IsMap c r)
Reached-IsMap _ (purged c now r) = delete_if-IsMap (is_expired now) c.by_ip (Reached-IsMap c r)

-- In any cache that New, Record and Purge make, a purge changes no lookup at its time or later.
pub lookup-purge :
    (c : Cache) (now : ℕ) (ip : Addr) (later : ℕ)
    → Reached c
    → now ≤ later
    → lookup (purge c now) ip later ≡ lookup c ip later
unfolding lookup purge is_expired
lookup-purge c now ip later reached h =
    rw (get-delete_if (unmap ip) (is_expired now) c.by_ip (Reached-IsMap c reached))
      (elim (Option-cases (get (unmap ip) c.by_ip)) [
        | inl e ↦ rw e refl
        | inr (entry, e) ↦ rw e (ground arith)
      ])
