-- ===== src/Kmsg/Values.antt =====
-- internal/kmsg/kmsg.go, `ParseLine`: the loop over the fields takes the last value of each key.
use egresswall.Common.{
  ℕ, true, List, [], ◌∷◌, Option, none, some, ◌≡◌, refl, ap, ◌∙◌, arith, if◌then◌else◌, inl, inr,
  Option-cases,
}
use egresswall.Text.{Text, codes, text_eq, text_eq_iff, cut, fields, lower, parse_uint}
use egresswall.Netip.{Addr, invalid, is_valid}
use egresswall.Netip.Parse.{parse_addr, parse_addr-is_valid}
use egresswall.Kmsg.{Event, set_field, read_field, read_fields, read_event}

abbrev pub value_or {ℓ} : {A : Type ℓ} → A → Option A → A
value_or a none = a
value_or a (some b) = b

-- What `read` makes of the value in a word `key=value`.
unfoldable pub value_of {ℓ} : {A : Type ℓ} → (Text → Option A) → Text → Text → Option A
value_of read key word = elim (cut (codes "=") word) [
  | none ↦ none
  | some (k, v) ↦ if text_eq k key then read v else none
]

-- The value that the last of the words gives for the key, of those that can be read.
unfoldable pub last_value {ℓ} : {A : Type ℓ} → (Text → Option A) → Text → List Text → Option A
unfolding value_of
last_value read key [] = none
last_value read key (w ∷ ws) = elim (last_value read key ws) [
  | some a ↦ some a
  | none ↦ value_of read key w
]

-- The refusal of a packet with a destination, by the words that the kernel logs of the packet: the last
-- address under DST, the last port under DPT and the last protocol under PROTO, in lower case.
abbrev pub reported : Text → List Text → Option Addr → Option Event
reported rule words none = none
reported rule words (some a) = some (record {
  rule = rule;
  dst = a;
  port = value_or 0 (last_value (parse_uint 10 65535) (codes "DPT") words);
  proto = value_or [] (last_value (λ v. some (lower v)) (codes "PROTO") words);
})

read_field-rule : (ev : Event) (w : Text) → (read_field ev w).rule ≡ ev.rule
unfolding read_field set_field
read_field-rule ev w = elim (Option-cases (cut (codes "=") w)) [
  | inl bare ↦ ground arith
  | inr ((k, v), both) ↦ ground arith
]

read_field-dst :
    (ev : Event) (w : Text)
    → (read_field ev w).dst ≡ value_or ev.dst (value_of parse_addr (codes "DST") w)
unfolding read_field set_field value_of
read_field-dst ev w = elim (Option-cases (cut (codes "=") w)) [
  | inl bare ↦ ground arith
  | inr ((k, v), both) ↦ ground arith
]

read_field-port :
    (ev : Event) (w : Text)
    → (read_field ev w).port ≡ value_or ev.port (value_of (parse_uint 10 65535) (codes "DPT") w)
unfolding read_field set_field value_of
read_field-port ev w = elim (Option-cases (cut (codes "=") w)) [
  | inl bare ↦ ground arith
  | inr ((k, v), both) ↦ ground (arith, text_eq_iff k (codes "DST"), text_eq_iff k (codes "DPT"))
]

read_field-proto :
    (ev : Event) (w : Text)
    → (read_field ev w).proto ≡ value_or ev.proto (value_of (λ v. some (lower v)) (codes "PROTO") w)
unfolding read_field set_field value_of
read_field-proto ev w = elim (Option-cases (cut (codes "=") w)) [
  | inl bare ↦ ground arith
  | inr ((k, v), both) ↦ ground (
    arith,
    text_eq_iff k (codes "DST"),
    text_eq_iff k (codes "DPT"),
    text_eq_iff k (codes "PROTO"),
  )
]

value_or_last :
    {A : Type 0} (a : A) (read : Text → Option A) (key w : Text) (ws : List Text)
    → value_or (value_or a (value_of read key w)) (last_value read key ws)
      ≡ value_or a (last_value read key (w ∷ ws))
unfolding last_value
value_or_last a read key w ws = elim (Option-cases (last_value read key ws)) [
  | inl no_more ↦ rw (no_more, last_value) refl
  | inr (b, more) ↦ rw (more, last_value) refl
]

read_fields-rule : (ev : Event) (ws : List Text) → (read_fields ev ws).rule ≡ ev.rule
unfolding read_fields
read_fields-rule ev [] = refl
read_fields-rule ev (w ∷ ws) = read_fields-rule (read_field ev w) ws ∙ read_field-rule ev w

read_fields-dst :
    (ev : Event) (ws : List Text)
    → (read_fields ev ws).dst ≡ value_or ev.dst (last_value parse_addr (codes "DST") ws)
unfolding read_fields last_value
read_fields-dst ev [] = refl
read_fields-dst ev (w ∷ ws) =
    read_fields-dst (read_field ev w) ws
    ∙ ap (λ a. value_or a (last_value parse_addr (codes "DST") ws)) (read_field-dst ev w)
    ∙ value_or_last ev.dst parse_addr (codes "DST") w ws

read_fields-port :
    (ev : Event) (ws : List Text)
    → (read_fields ev ws).port
      ≡ value_or ev.port (last_value (parse_uint 10 65535) (codes "DPT") ws)
unfolding read_fields last_value
read_fields-port ev [] = refl
read_fields-port ev (w ∷ ws) =
    read_fields-port (read_field ev w) ws
    ∙ ap (λ a. value_or a (last_value (parse_uint 10 65535) (codes "DPT") ws))
        (read_field-port ev w)
    ∙ value_or_last ev.port (parse_uint 10 65535) (codes "DPT") w ws

read_fields-proto :
    (ev : Event) (ws : List Text)
    → (read_fields ev ws).proto
      ≡ value_or ev.proto (last_value (λ v. some (lower v)) (codes "PROTO") ws)
unfolding read_fields last_value
read_fields-proto ev [] = refl
read_fields-proto ev (w ∷ ws) =
    read_fields-proto (read_field ev w) ws
    ∙ ap (λ a. value_or a (last_value (λ v. some (lower v)) (codes "PROTO") ws))
        (read_field-proto ev w)
    ∙ value_or_last ev.proto (λ v. some (lower v)) (codes "PROTO") w ws

value_of-is_valid :
    (key w : Text) (a : Addr) → value_of parse_addr key w ≡ some a → is_valid a ≡ true
unfolding value_of
value_of-is_valid key w a h = elim (Option-cases (cut (codes "=") w)) [
  | inl bare ↦ absurd (ground arith)
  | inr ((k, v), both) ↦ ground (arith, parse_addr-is_valid v a)
]

last_value-is_valid :
    (key : Text) (ws : List Text) (a : Addr)
    → last_value parse_addr key ws ≡ some a
    → is_valid a ≡ true
unfolding last_value
last_value-is_valid key [] a h = absurd (ground arith)
last_value-is_valid key (w ∷ ws) a h = elim (Option-cases (last_value parse_addr key ws)) [
  | inl no_more ↦ ground (arith, value_of-is_valid key w a)
  | inr (b, more) ↦ ground (arith, last_value-is_valid key ws a)
]

event_eq :
    (ev : Event) (rule proto : Text) (dst : Addr) (port : ℕ)
    → ev.rule ≡ rule
    → ev.dst ≡ dst
    → ev.port ≡ port
    → ev.proto ≡ proto
    → ev ≡ record { rule = rule; dst = dst; port = port; proto = proto }
event_eq ev rule proto dst port a b c d = ground arith

-- The event read from the fields is what the words report.
pub read_event_lem :
    (rule msg : Text)
    → read_event rule msg
      ≡ reported rule (fields msg) (last_value parse_addr (codes "DST") (fields msg))
unfolding read_event is_valid
read_event_lem rule msg =
    let ws : List Text = fields msg in
    let start : Event = record { rule = rule; dst = invalid; port = 0; proto = [] } in
    elim (Option-cases (last_value parse_addr (codes "DST") ws)) [
      | inl nowhere ↦
          (let none_read : (read_fields start ws).dst ≡ invalid =
              read_fields-dst start ws ∙ ap (value_or invalid) nowhere in
            rw (nowhere, none_read, read_event) refl)
      | inr (a, somewhere) ↦
          (let dst : (read_fields start ws).dst ≡ a =
              read_fields-dst start ws ∙ ap (value_or invalid) somewhere in
            let read =
              event_eq (read_fields start ws) rule _ a _ (read_fields-rule start ws) dst
                (read_fields-port start ws) (read_fields-proto start ws) in
            rw (somewhere, read, last_value-is_valid (codes "DST") ws a somewhere, read_event) refl)
    ]
