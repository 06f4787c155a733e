-- ===== src/Dns/Sample.antt =====
-- A parser over a message format of three numbers for an answer: type, lifetime and address.
use egresswall.Common.{
  ℕ, ◌<◌, Bool, List, [], ◌∷◌, Option, none, some, ◌≡◌, arith, length, ◌==◌, if◌then◌else◌,
}
use egresswall.Text.{codes}
use egresswall.Netip.{addr_key}
use egresswall.Dns.Message.{
  DnsMessage, RecordType, type_a, type_aaaa, other_type, NextAnswer, section_done, header,
}

abbrev pub Answers : Type 0
Answers = List (RecordType × ℕ × ℕ)

abbrev type_of : ℕ → RecordType
type_of n = if n == 1 then type_a else if n == 28 then type_aaaa else other_type

abbrev pub decode : List ℕ → Answers
decode (t ∷ ttl ∷ ip ∷ rest) = (type_of t, ttl, ip) ∷ decode rest
decode _ = []

abbrev start_of : List ℕ → Option (Answers × Bool)
start_of [] = none
start_of (flag ∷ rest) = some (decode rest, flag == 1)

abbrev header_of : Answers → NextAnswer
header_of [] = section_done
header_of ((t, ttl, ip) ∷ rest) = header t ttl

abbrev resource_of : Answers → Option (ℕ × Answers)
resource_of [] = none
resource_of ((t, ttl, ip) ∷ rest) = some (ip, rest)

abbrev rest_of : Answers → Option Answers
rest_of [] = none
rest_of (r ∷ rest) = some rest

pub resource_less : (p q : Answers) (ip : ℕ) → resource_of p ≡ some (ip, q) → length q < length p
resource_less [] q ip h = ground arith
resource_less (r ∷ p) q ip h = ground arith

pub rest_less : (p q : Answers) → rest_of p ≡ some q → length q < length p
rest_less [] q h = ground arith
rest_less (r ∷ p) q h = ground arith

abbrev pub toy : DnsMessage
toy = record {
  State = Answers;
  start = start_of;
  question = λ p. some (codes "API.example.com.");
  skip_all_questions = λ p. some p;
  answer_header = header_of;
  a_resource = resource_of;
  aaaa_resource = resource_of;
  skip_answer = rest_of;
  remaining = λ p. length p;
  a_less = resource_less;
  aaaa_less = resource_less;
  skip_less = rest_less;
}
