-- ===== src/Kmsg.antt =====
-- internal/kmsg/kmsg.go: reading a refusal back from the kernel log.
pub mod Prefix
pub mod Values
pub mod Device
mod Tests
use egresswall.Common.{
  ℕ, Bool, true, false, List, [], ◌∷◌, Option, none, some, if◌then◌else◌, drop, length,
}
use egresswall.Text.{Text, codes, text_eq, has_prefix, cut, fields, lower, parse_uint}
use egresswall.Netip.{Addr, invalid, is_valid}
use egresswall.Netip.Parse.{parse_addr}

pub record Event : Type 0 where
  pub rule : Text
  pub dst : Addr
  pub port : ℕ
  pub proto : Text

-- One round of the loop over the fields, at the key and the value of a field.
unfoldable pub set_field : Event → Text → Text → Event
set_field ev k v =
    if text_eq k (codes "DST")
    then (elim (parse_addr v) [ none ↦ ev | some a ↦ record ev { dst = a } ])
    else if text_eq k (codes "DPT")
    then (elim (parse_uint 10 65535 v) [ none ↦ ev | some n ↦ record ev { port = n } ])
    else if text_eq k (codes "PROTO")
    then record ev { proto = lower v }
    else ev

unfoldable pub read_field : Event → Text → Event
unfolding set_field
read_field ev f = elim (cut (codes "=") f) [ none ↦ ev | some (k, v) ↦ set_field ev k v ]

unfoldable pub read_fields : Event → List Text → Event
unfolding read_field
read_fields ev [] = ev
read_fields ev (f ∷ fs) = read_fields (read_field ev f) fs

-- The loop and the return; `none` is false.
unfoldable pub read_event : Text → Text → Option Event
unfolding read_fields
read_event rule msg =
    let ev =
      read_fields (record { rule = rule; dst = invalid; port = 0; proto = [] }) (fields msg) in
    if is_valid ev.dst then some ev else none

abbrev pub deny_mark : Text
deny_mark = codes "egresswall deny["

abbrev pub default_mark : Text
default_mark = codes "egresswall default-deny: "

-- The name of the rule, up to the end of the prefix.
unfoldable pub read_named : Text → Option Event
read_named rest = elim (cut (codes "]: ") rest) [
  | none ↦ none
  | some (name, tail) ↦ read_event name tail
]

unfoldable pub read_message : Text → Option Event
unfolding read_named
read_message msg =
    if has_prefix msg deny_mark
    then read_named (drop (length deny_mark) msg)
    else if has_prefix msg default_mark
    then read_event [] (drop (length default_mark) msg)
    else none

-- What stands behind the first semicolon, or the whole line.
abbrev pub message_of : Text → Text
message_of line = elim (cut (codes ";") line) [ none ↦ line | some (header, msg) ↦ msg ]

unfoldable pub parse_line : Text → Option Event
unfolding read_message
parse_line line = read_message (message_of line)
