-- ===== src/Learn/Counts.antt =====
-- internal/learn/learn.go, `record`: the three maps of the observer stay in step, and hits add up.
use egresswall.Common.{
  ℕ, suc, ◌+◌, Bool, List, [], ◌∷◌, Option, none, some, ◌≡◌, refl, subst, arith, Option-cases,
  Bool-cases, inl, inr,
}
use egresswall.Common.Maps.{get, put, get-put}
use egresswall.Text.{Text, text_key, text_eq_iff}
use egresswall.Netip.{Addr}
use egresswall.Learn.{
  Observer, Entry, FlowKey, flow_key, flow_eq, flow_eq_iff, count_origin, hit, hit_flow, with_flow,
  new_entry, add_once, record_key,
}

-- How many flows the origins count.
unfoldable pub total : List (Text × ℕ) → ℕ
total [] = 0
total ((origin, n) ∷ m) = n + total m

total-put-none :
    (origin : Text) (n : ℕ) (m : List (Text × ℕ))
    → get origin m ≡ none
    → total (put origin n m) ≡ n + total m
unfolding total get put
total-put-none origin n [] h = refl
total-put-none origin n ((other, k) ∷ m) h =
    ground (arith, total-put-none origin n m, text_eq_iff other origin)

total-put-some :
    (origin : Text) (n : ℕ) (m : List (Text × ℕ))
    → get origin m ≡ some n
    → total (put origin (n + 1) m) ≡ suc (total m)
unfolding total get put
total-put-some origin n [] h = ground arith
total-put-some origin n ((other, k) ∷ m) h =
    ground (arith, total-put-some origin n m, text_eq_iff other origin)

total-count_origin :
    (origin : Text) (m : List (Text × ℕ)) → total (count_origin origin m) ≡ suc (total m)
unfolding count_origin
total-count_origin origin m = elim (Option-cases (get origin m)) [
  | inl h ↦ rw (h, count_origin) (omega (arith, total-put-none origin 1 m h))
  | inr (n, h) ↦ rw (h, count_origin) (total-put-some origin n m h)
]

-- The three maps at a key: nothing anywhere, or an entry of that key with a hit for every origin's.
unfoldable pub InStep :
    FlowKey → Option Entry → Option (List Addr) → Option (List (Text × ℕ)) → Type 0
InStep k none none none = Unit
InStep k (some e) (some seen) (some m) =
    (e.host ≡ k.host) × (e.port ≡ k.port) × (e.proto ≡ k.proto) × (e.hits ≡ total m)
InStep k _ _ _ = ⊥

unfoldable pub IsCounted : Observer → Type 0
IsCounted o = (k : FlowKey) → InStep k (get k o.entries) (get k o.ips) (get k o.origins)

InStep-cases :
    (k : FlowKey) (e : Entry) (ips : Option (List Addr)) (origins : Option (List (Text × ℕ)))
    → InStep k (some e) ips origins
    → (seen : List Addr) × (m : List (Text × ℕ)) × (ips ≡ some seen)
      × (origins ≡ some m)
      × InStep k (some e) (some seen) (some m)
unfolding InStep
InStep-cases k e (some seen) (some m) s = (seen, m, refl, refl, s)
InStep-cases k e (some seen) none s = absurd s
InStep-cases k e none (some m) s = absurd s
InStep-cases k e none none s = absurd s

-- What the maps hold at a key where there is an entry.
InStep-some :
    (o : Observer) (k : FlowKey) (e : Entry)
    → IsCounted o
    → get k o.entries ≡ some e
    → (seen : List Addr) × (m : List (Text × ℕ)) × (get k o.ips ≡ some seen)
      × (get k o.origins ≡ some m)
      × InStep k (some e) (some seen) (some m)
unfolding IsCounted
InStep-some o k e c h =
    InStep-cases k e (get k o.ips) (get k o.origins)
      (subst (λ x. InStep k x (get k o.ips) (get k o.origins)) h (c k))

-- A write at one key of the three maps at once.
put_all : Observer → FlowKey → Entry → List Addr → List (Text × ℕ) → Observer
put_all o k e seen m = record o {
  entries = put k e o.entries;
  ips = put k seen o.ips;
  origins = put k m o.origins;
}

put_all-IsCounted :
    (o : Observer) (k : FlowKey) (e : Entry) (seen : List Addr) (m : List (Text × ℕ))
    → IsCounted o
    → InStep k (some e) (some seen) (some m)
    → IsCounted (put_all o k e seen m)
unfolding IsCounted put_all
put_all-IsCounted o k e seen m c s j =
    rw (get-put k j e o.entries, get-put k j seen o.ips, get-put k j m o.origins)
      (elim (Bool-cases (flow_eq k j)) [
        | inl same ↦
            rw same
              (subst (λ i. InStep i (some e) (some seen) (some m)) ((flow_eq_iff k j).0 same) s)
        | inr differ ↦ rw differ (c j)
      ])

-- The result of a step that does not panic, with the invariant.
abbrev Counted : Option Observer → Type 0
Counted r = (o : Observer) × (r ≡ some o) × IsCounted o

hit_flow-IsCounted :
    (o : Observer) (k : FlowKey) (e : Entry) (ip : Addr) (origin : Text) (now : ℕ)
    → IsCounted o
    → get k o.entries ≡ some e
    → Counted (hit_flow o k e ip origin now)
unfolding hit_flow put_all InStep hit
hit_flow-IsCounted o k e ip origin now c h =
    let (seen, m, a, b, (host, port, proto, hits)) = InStep-some o k e c h in
    (
      put_all o k (hit e now) (add_once ip seen) (count_origin origin m),
      rw (a, b, hit_flow) refl,
      put_all-IsCounted o k (hit e now) (add_once ip seen) (count_origin origin m) c
          (host, port, proto, omega (arith, hits, total-count_origin origin m)),
    )

with_flow-IsCounted :
    (o : Observer) (k : FlowKey) (domain : Bool) (now : ℕ)
    → IsCounted o
    → IsCounted (with_flow o k (new_entry k domain now))
unfolding with_flow put_all new_entry InStep total
with_flow-IsCounted o k domain now c =
    put_all-IsCounted o k (new_entry k domain now) [] [] c (refl, refl, refl, refl)

get-with_flow : (o : Observer) (k : FlowKey) (e : Entry) → get k (with_flow o k e).entries ≡ some e
unfolding with_flow
get-with_flow o k e = ground (arith, get-put k k e o.entries, flow_eq_iff k k)

abbrev pub CountedNew : Option (Observer × Option Entry) → Type 0
CountedNew r = (o : Observer) × (new : Option Entry) × (r ≡ some (o, new)) × IsCounted o

pub record_key-IsCounted :
    (o : Observer) (k : FlowKey) (domain : Bool) (ip : Addr) (origin : Text) (now : ℕ)
    → IsCounted o
    → CountedNew (record_key o k domain ip origin now)
unfolding record_key
record_key-IsCounted o k domain ip origin now c = elim (Option-cases (get k o.entries)) [
  | inl h ↦
      (let e : Entry = new_entry k domain now in
        let (o', done, c') =
          hit_flow-IsCounted (with_flow o k e) k e ip origin now
            (with_flow-IsCounted o k domain now c) (get-with_flow o k e) in
        (o', some (hit e now), rw (h, record_key, done) refl, c'))
  | inr (e, h) ↦
      (let (o', done, c') = hit_flow-IsCounted o k e ip origin now c h in
        (o', none, rw (h, record_key, done) refl, c'))
]
