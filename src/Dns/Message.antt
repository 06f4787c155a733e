-- ===== src/Dns/Message.antt =====
-- internal/dnswatch/cache.go, `Parse` and `Observe`, over the package dnsmessage.
-- The package is a parameter: a parser state, what its calls return, and `remaining`, the number of
-- answers not read yet, which reading or skipping an answer makes smaller.
use egresswall.Common.{
  ℕ, zero, suc, ◌*◌, ◌<◌, Bool, List, [], ◌∷◌, ◌++◌, Option, none, some, ◌≡◌, if◌then◌else◌, length,
  is_nil,
}
use egresswall.Text.{Text}
use egresswall.Netip.{Addr, v4, v6}
use egresswall.Policy.Domain.{normalize_domain}
use egresswall.Dns.{Cache, Answer, record_answer}

pub data RecordType : Type 0 where
  type_a type_aaaa other_type : RecordType

-- The end of the section, an error, or the type and the seconds to live of the next answer.
pub data NextAnswer : Type 0 where
  section_done : NextAnswer
  no_header : NextAnswer
  header : RecordType → ℕ → NextAnswer

pub record DnsMessage : Type 1 where
  pub State : Type 0
  -- The state behind the header, and its response bit.
  pub start : List ℕ → Option (State × Bool)
  pub question : State → Option Text
  pub skip_all_questions : State → Option State
  pub answer_header : State → NextAnswer
  pub a_resource : State → Option (ℕ × State)
  pub aaaa_resource : State → Option (ℕ × State)
  pub skip_answer : State → Option State
  pub remaining : State → ℕ
  pub a_less : (p q : State) (ip : ℕ) → a_resource p ≡ some (ip, q) → remaining q < remaining p
  pub aaaa_less :
      (p q : State) (ip : ℕ) → aaaa_resource p ≡ some (ip, q) → remaining q < remaining p
  pub skip_less : (p q : State) → skip_answer p ≡ some q → remaining q < remaining p

-- An error of the package, the response bit not set, or the fuel of the model at its end.
pub data DnsError : Type 0 where
  bad_message not_response no_fuel : DnsError

abbrev pub second : ℕ
second = 1000000000

unfoldable pub add_addr : Answer → Addr → ℕ → Answer
add_addr a ip seconds = record a {
  addrs = a.addrs ++ (record { ip = ip; ttl = seconds * second } ∷ []);
}

module _ (dns : DnsMessage) where
  -- One round of the loop: the state and the answer behind it, or the end with the error.
  pub data Round : Type 0 where
    more : dns.State → Answer → Round
    last_round : Answer → Option DnsError → Round

  unfoldable pub read_answer : dns.State → Answer → RecordType → ℕ → Round
  read_answer p a type_a ttl = elim (dns.a_resource p) [
    | none ↦ last_round a (some bad_message)
    | some (ip, q) ↦ more q (add_addr a (v4 ip) ttl)
  ]
  read_answer p a type_aaaa ttl = elim (dns.aaaa_resource p) [
    | none ↦ last_round a (some bad_message)
    | some (ip, q) ↦ more q (add_addr a (v6 ip []) ttl)
  ]
  read_answer p a other_type ttl = elim (dns.skip_answer p) [
    | none ↦ last_round a (some bad_message)
    | some q ↦ more q a
  ]

  unfoldable pub round : dns.State → Answer → Round
  unfolding read_answer
  round p a = elim (dns.answer_header p) [
    | section_done ↦ last_round a none
    | no_header ↦ last_round a (some bad_message)
    | header type ttl ↦ read_answer p a type ttl
  ]

  unfoldable pub read_answers : ℕ → dns.State → Answer → Answer × Option DnsError
  read_answers zero p a = (a, some no_fuel)
  read_answers (suc n) p a = elim (round p a) [
    | last_round b e ↦ (b, e)
    | more q b ↦ read_answers n q b
  ]

  abbrev no_answer : Answer
  no_answer = record { name = []; addrs = [] }

  unfoldable pub read_questions : dns.State → Answer × Option DnsError
  read_questions p = elim (dns.question p) [
    | none ↦ (no_answer, some bad_message)
    | some name ↦
        (let a : Answer = record { name = normalize_domain name; addrs = [] } in
          elim (dns.skip_all_questions p) [
            | none ↦ (a, some bad_message)
            | some q ↦ read_answers (suc (dns.remaining q)) q a
          ])
  ]

  unfoldable pub parse : List ℕ → Answer × Option DnsError
  parse msg = elim (dns.start msg) [
    | none ↦ (no_answer, some bad_message)
    | some (p, response) ↦ if response then read_questions p else (no_answer, some not_response)
  ]

  -- The cache after the message, the number of addresses recorded, and the error.
  unfoldable pub observe_parsed : Cache → ℕ → Answer × Option DnsError → Cache × ℕ × Option DnsError
  observe_parsed c now (a, some bad) = (c, 0, some bad)
  observe_parsed c now (a, none) =
      if is_nil a.name then (c, 0, none) else (record_answer c a now, length a.addrs, none)

  unfoldable pub observe : Cache → List ℕ → ℕ → Cache × ℕ × Option DnsError
  observe c msg now = observe_parsed c now (parse msg)
