-- ===== src/Dns/Loop.antt =====
-- internal/dnswatch/cache.go, `Parse` and `Observe`: the loop over the answers ends, and reads them all.
use egresswall.Common.{
  ℕ, zero, suc, ◌*◌, ◌<◌, true, false, List, [], ◌∷◌, ◌++◌, Option, none, some, ◌≡◌, ◌≢◌, ◌⊎◌, refl,
  ap, sym, ◌∙◌, subst, arith, append_assoc, append-nil, is_nil, Option-cases, inl, inr,
}
use egresswall.Text.{Text}
use egresswall.Netip.{Addr, addr_key, v4, v6, unmap}
use egresswall.Policy.Domain.{normalize_domain}
use egresswall.Dns.{Cache, Found, Answer, lookup}
use egresswall.Dns.Lookups.{last_ttl, IsRemembered, record_answer-IsRemembered}
use egresswall.Dns.Message.{
  DnsMessage, RecordType, type_a, type_aaaa, other_type, NextAnswer, section_done, no_header,
  header, DnsError, no_fuel, second, add_addr, Round, more, last_round, round, read_answer,
  read_answers, read_questions, parse, observe, observe_parsed,
}

NextAnswer-cases :
    (h : NextAnswer)
    → (h ≡ section_done) ⊎ ((h ≡ no_header) ⊎ ((t : RecordType) × (ttl : ℕ) × (h ≡ header t ttl)))
NextAnswer-cases section_done = inl refl
NextAnswer-cases no_header = inr (inl refl)
NextAnswer-cases (header t ttl) = inr (inr (t, ttl, refl))

module _ (dns : DnsMessage) where
  -- What a loop that ends without an error reads from a state on: the addresses in their order.
  pub data Reads : dns.State → List Found → Type 0 where
    reads_end : (p : dns.State) → dns.answer_header p ≡ section_done → Reads p []
    reads_a :
        (p q : dns.State) (ttl ip : ℕ) (ads : List Found)
        → dns.answer_header p ≡ header type_a ttl
        → dns.a_resource p ≡ some (ip, q)
        → Reads q ads
        → Reads p (record { ip = v4 ip; ttl = ttl * second } ∷ ads)
    reads_aaaa :
        (p q : dns.State) (ttl ip : ℕ) (ads : List Found)
        → dns.answer_header p ≡ header type_aaaa ttl
        → dns.aaaa_resource p ≡ some (ip, q)
        → Reads q ads
        → Reads p (record { ip = v6 ip []; ttl = ttl * second } ∷ ads)
    reads_other :
        (p q : dns.State) (ttl : ℕ) (ads : List Found)
        → dns.answer_header p ≡ header other_type ttl
        → dns.skip_answer p ≡ some q
        → Reads q ads
        → Reads p ads

  Round-cases :
      (r : Round dns)
      → ((b : Answer) × (e : Option DnsError) × (r ≡ last_round b e))
        ⊎ ((q : dns.State) × (b : Answer) × (r ≡ more q b))
  Round-cases (last_round b e) = inl (b, e, refl)
  Round-cases (more q b) = inr (q, b, refl)

  abbrev whole : Text → List Found → Answer × Option DnsError
  whole name ads = (record { name = name; addrs = ads }, none)

  read_answers-Reads :
      (n : ℕ) (p : dns.State) (a : Answer) (ads : List Found)
      → dns.remaining p < n
      → Reads p ads
      → read_answers dns n p a ≡ whole a.name (a.addrs ++ ads)
  unfolding read_answers round read_answer add_addr
  read_answers-Reads zero p a ads fuel r = ground arith
  read_answers-Reads (suc n) p a _ fuel (reads_end _ h) =
      rw (h, read_answers, round) (ap (whole a.name) (sym (append-nil a.addrs)))
  read_answers-Reads (suc n) p a _ fuel (reads_a _ q ttl ip ads h res r) =
      let found : List Found = record { ip = v4 ip; ttl = ttl * second } ∷ [] in
      rw (h, res, read_answers, round, read_answer)
        (read_answers-Reads n q (add_addr a (v4 ip) ttl) ads (omega (arith, dns.a_less p q ip res))
            r
          ∙ ap (whole a.name) (append_assoc a.addrs found ads))
  read_answers-Reads (suc n) p a _ fuel (reads_aaaa _ q ttl ip ads h res r) =
      let found : List Found = record { ip = v6 ip []; ttl = ttl * second } ∷ [] in
      rw (h, res, read_answers, round, read_answer)
        (read_answers-Reads n q (add_addr a (v6 ip []) ttl) ads
            (omega (arith, dns.aaaa_less p q ip res)) r
          ∙ ap (whole a.name) (append_assoc a.addrs found ads))
  read_answers-Reads (suc n) p a _ fuel (reads_other _ q ttl ads h res r) =
      rw (h, res, read_answers, round, read_answer)
        (read_answers-Reads n q a ads (omega (arith, dns.skip_less p q res)) r)

  read_answer_less :
      (p q : dns.State) (a b : Answer) (t : RecordType) (ttl : ℕ)
      → read_answer dns p a t ttl ≡ more q b
      → dns.remaining q < dns.remaining p
  unfolding read_answer
  read_answer_less p q a b type_a ttl e = elim (Option-cases (dns.a_resource p)) [
    | inl bad ↦ ground arith
    | inr ((ip, r), got) ↦ ground (arith, dns.a_less p r ip got)
  ]
  read_answer_less p q a b type_aaaa ttl e = elim (Option-cases (dns.aaaa_resource p)) [
    | inl bad ↦ ground arith
    | inr ((ip, r), got) ↦ ground (arith, dns.aaaa_less p r ip got)
  ]
  read_answer_less p q a b other_type ttl e = elim (Option-cases (dns.skip_answer p)) [
    | inl bad ↦ ground arith
    | inr (r, got) ↦ ground (arith, dns.skip_less p r got)
  ]

  round_less :
      (p q : dns.State) (a b : Answer)
      → round dns p a ≡ more q b
      → dns.remaining q < dns.remaining p
  unfolding round
  round_less p q a b e = elim (NextAnswer-cases (dns.answer_header p)) [
    | inl done ↦ ground arith
    | inr (inl bad) ↦ ground arith
    | inr (inr (t, ttl, h)) ↦ read_answer_less p q a b t ttl (ground arith)
  ]

  -- A round never ends with the fuel's error.
  round_ends : (p : dns.State) (a b : Answer) → round dns p a ≢ last_round b (some no_fuel)
  unfolding round read_answer
  round_ends p a b e = elim (NextAnswer-cases (dns.answer_header p)) [
    | inl done ↦ ground arith
    | inr (inl bad) ↦ ground arith
    | inr (inr (type_a, ttl, h)) ↦ ground arith
    | inr (inr (type_aaaa, ttl, h)) ↦ ground arith
    | inr (inr (other_type, ttl, h)) ↦ ground arith
  ]

  read_answers-ne-no_fuel :
      (n : ℕ) (p : dns.State) (a : Answer)
      → dns.remaining p < n
      → (read_answers dns n p a).1 ≢ some no_fuel
  unfolding read_answers
  read_answers-ne-no_fuel zero p a fuel = ground arith
  read_answers-ne-no_fuel (suc n) p a fuel = elim (Round-cases (round dns p a)) [
    | inl (b, e, h) ↦ rw (h, read_answers) (λ stuck. round_ends p a b (h ∙ ap (last_round b) stuck))
    | inr (q, b, h) ↦
        rw (h, read_answers) (read_answers-ne-no_fuel n q b (omega (arith, round_less p q a b h)))
  ]

  read_questions-ne-no_fuel : (p : dns.State) → (read_questions dns p).1 ≢ some no_fuel
  unfolding read_questions
  read_questions-ne-no_fuel p = elim (Option-cases (dns.question p)) [
    | inl bad ↦ rw (bad, read_questions) (ground arith)
    | inr (name, asked) ↦ elim (Option-cases (dns.skip_all_questions p)) [
      | inl bad ↦ rw (asked, bad, read_questions) (ground arith)
      | inr (q, skipped) ↦
          rw (asked, skipped, read_questions)
            (read_answers-ne-no_fuel (suc (dns.remaining q)) q
              (record { name = normalize_domain name; addrs = [] }) (omega arith))
    ]
  ]

  -- Parse ends on every message: one round more than the answers that are left after the questions is
  -- enough fuel, so the error of the model's fuel is never its result.
  pub parse-ne-no_fuel : (msg : List ℕ) → (parse dns msg).1 ≢ some no_fuel
  unfolding parse
  parse-ne-no_fuel msg = elim (Option-cases (dns.start msg)) [
    | inl bad ↦ rw (bad, parse) (ground arith)
    | inr ((p, true), e) ↦ rw (e, parse) (read_questions-ne-no_fuel p)
    | inr ((p, false), e) ↦ rw (e, parse) (ground arith)
  ]

  -- A response to a question for `name` whose answers read as `ads` to the end of the section.
  abbrev pub IsResponse : List ℕ → Text → List Found → Type 0
  IsResponse msg name ads =
      (p : dns.State) × (q : dns.State) × (dns.start msg ≡ some (p, true))
      × (dns.question p ≡ some name)
      × (dns.skip_all_questions p ≡ some q)
      × Reads q ads

  parse-IsResponse :
      (msg : List ℕ) (name : Text) (ads : List Found)
      → IsResponse msg name ads
      → parse dns msg ≡ whole (normalize_domain name) ads
  unfolding parse read_questions
  parse-IsResponse msg name ads (p, q, started, asked, skipped, r) =
      rw (started, asked, skipped, parse, read_questions)
        (read_answers-Reads (suc (dns.remaining q)) q
          (record { name = normalize_domain name; addrs = [] }) ads (omega arith) r)

  -- Observing a response with a name that is not empty: where one of its records holds the address looked
  -- up, in its unmapped form, the lookup finds the normalised name that was asked for up to the lifetime of
  -- the last such record or up to the least lifetime of the cache, whichever is longer, and nothing after
  -- both; where no record does, it finds what it found before. A record of an IPv4 address in IPv6 form is
  -- one of no address that is looked up.
  pub lookup-observe :
      (c : Cache) (msg : List ℕ) (now : ℕ) (name : Text) (ads : List Found) (ip : Addr) (later : ℕ)
      → IsResponse msg name ads
      → is_nil (normalize_domain name) ≡ false
      → IsRemembered
          (last_ttl (unmap ip) ads)
          c.min_ttl
          (normalize_domain name)
          now
          later
          (lookup c ip later)
          (lookup (observe dns c msg now).0 ip later)
  unfolding observe observe_parsed
  lookup-observe c msg now name ads ip later response named =
      subst
        (IsRemembered (last_ttl (unmap ip) ads) c.min_ttl (normalize_domain name) now later
          (lookup c ip later))
        (sym (
          ap (λ r. lookup (observe_parsed dns c now r).0 ip later)
            (parse-IsResponse msg name ads response)
          ∙ rw named refl))
        (record_answer-IsRemembered c (normalize_domain name) ads now ip later)
