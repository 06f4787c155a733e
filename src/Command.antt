-- ===== src/Command.antt =====
-- cmd/egresswall/main.go: the destination that `egresswall check` is asked about.
mod Tests
use egresswall.Common.{
  ℕ, ◌+◌, ◌-◌, ◌≤◌, Bool, true, false, not, ◌&&◌, ◌||◌, List, [], ◌∷◌, ◌++◌, Option, none, some,
  ◌≡◌, ◌⊎◌, inl, inr, refl, ap, arith, ◌==◌, if◌then◌else◌, is_nil, length, take, drop, Result, ok,
  err, Option-cases, Bool-cases, Result-cases, bind-eq-ok, ◌>>=◌,
}
use egresswall.Text.{Text, codes, contains_byte, parse_uint, itoa}
use egresswall.Text.Decimal.{parse_uint-itoa, contains_byte-itoa}
use egresswall.Netip.{Addr, invalid}
use egresswall.Netip.Parse.{parse_addr}
use egresswall.Policy.{Dest}
use egresswall.Policy.WellFormed.{parse_uint-le}

pub data DestError : Type 0 where
  no_port bad_port bad_ip : Text → DestError

-- The text before and after the last `b`.
unfoldable pub cut_last : ℕ → Text → Option (Text × Text)
unfolding contains_byte
cut_last b [] = none
cut_last b (c ∷ s) = elim (cut_last b s) [
  | some (before, after) ↦ some (c ∷ before, after)
  | none ↦ if c == b then some ([], s) else none
]

-- The text before and after the first `b`.
unfoldable pub cut_first : ℕ → Text → Option (Text × Text)
cut_first b [] = none
cut_first b (c ∷ s) =
    let rest = cut_first b s in
    if c == b
    then some ([], s)
    else elim rest [ none ↦ none | some (before, after) ↦ some (c ∷ before, after) ]

abbrev has_bracket : Text → Bool
has_bracket s = contains_byte b'[' s || contains_byte b']' s

-- The host in brackets: behind it stands the port's colon, the last one, and nothing else.
abbrev bracketed : Text → Text → Option Text
bracketed inside port = elim (cut_first b']' inside) [
  | none ↦ none
  | some (host, after) ↦ if not (is_nil after) || contains_byte b'[' host then none else some host
]

abbrev host_before : Text → Text → Option Text
host_before [] port = some []
host_before (c ∷ s) port =
    if c == b'['
    then bracketed s port
    else if contains_byte b':' (c ∷ s) || has_bracket (c ∷ s)
    then none
    else some (c ∷ s)

-- `net.SplitHostPort`; an error is `none`.
unfoldable pub split_host_port : Text → Option (Text × Text)
split_host_port s = elim (cut_last b':' s) [
  | none ↦ none
  | some (front, port) ↦
      if has_bracket port
      then none
      else elim (host_before front port) [ none ↦ none | some host ↦ some (host, port) ]
]

unfoldable pub named_dest : Text → ℕ → Text → Dest
named_dest host port proto = elim (parse_addr host) [
  | some a ↦ record { domain = []; ip = a; port = port; proto = proto; cgroup = [] }
  | none ↦ record { domain = host; ip = invalid; port = port; proto = proto; cgroup = [] }
]

unfoldable pub with_ip : Text → Dest → Result DestError Dest
with_ip ip d =
    if is_nil ip
    then ok d
    else elim (parse_addr ip) [ none ↦ err (bad_ip ip) | some a ↦ ok (record d { ip = a }) ]

unfoldable pub port_of : Text → Text → Result DestError ℕ
port_of hostport s = elim (parse_uint 10 65535 s) [
  | none ↦ err (bad_port hostport)
  | some port ↦ if port == 0 then err (bad_port hostport) else ok port
]

unfoldable pub parse_dest : Text → Text → Text → Result DestError Dest
parse_dest hostport ip proto = elim (split_host_port hostport) [
  | none ↦ err (no_port hostport)
  | some (host, s) ↦ port_of hostport s >>= λ port. with_ip ip (named_dest host port proto)
]

cut_last-none : (b : ℕ) (s : Text) → contains_byte b s ≡ false → cut_last b s ≡ none
unfolding cut_last contains_byte
cut_last-none b [] h = refl
cut_last-none b (c ∷ s) h = rw (cut_last, cut_last-none b s (ground arith)) (ground arith)

cut_last-append :
    (b : ℕ) (front s : Text)
    → contains_byte b s ≡ false
    → cut_last b (front ++ (b ∷ s)) ≡ some (front, s)
unfolding cut_last
cut_last-append b [] s h = rw (cut_last, cut_last-none b s h) (ground arith)
cut_last-append b (c ∷ front) s h = rw (cut_last, cut_last-append b front s h) refl

-- A host that is neither an IPv6 address nor in brackets.
abbrev pub IsPlain : Text → Type 0
IsPlain host =
    (contains_byte b':' host ≡ false)
    × (contains_byte b'[' host ≡ false)
    × (contains_byte b']' host ≡ false)

host_before-IsPlain : (host port : Text) → IsPlain host → host_before host port ≡ some host
unfolding contains_byte
host_before-IsPlain [] port h = refl
host_before-IsPlain (c ∷ s) port (colon, left, right) = ground arith

-- What is asked about a host that reads as the address, or as none.
abbrev pub asked : Option Addr → Text → ℕ → Text → Dest
asked (some a) host port proto = record {
  domain = [];
  ip = a;
  port = port;
  proto = proto;
  cgroup = [];
}
asked none host port proto = record {
  domain = host;
  ip = invalid;
  port = port;
  proto = proto;
  cgroup = [];
}

named_dest_lem :
    (host proto : Text) (port : ℕ)
    → named_dest host port proto ≡ asked (parse_addr host) host port proto
unfolding named_dest
named_dest_lem host proto port = elim (Option-cases (parse_addr host)) [
  | inl none_read ↦ rw (none_read, named_dest) refl
  | inr (a, read) ↦ rw (read, named_dest) refl
]

-- A host with no colon and no bracket, and a port from 1 to 65535, written `host:port`, are asked about:
-- by the address, with no name, where the host reads as one, and else by the host as a name, with no
-- address.
pub parse_dest-itoa :
    (host proto : Text) (port : ℕ)
    → IsPlain host
    → 1 ≤ port
    → port ≤ 65535
    → parse_dest (host ++ (b':' ∷ itoa port)) [] proto
      ≡ ok (asked (parse_addr host) host port proto)
unfolding parse_dest split_host_port port_of with_ip
parse_dest-itoa host proto port plain positive bound =
    let named : (port == 0) ≡ false = ground arith in
    rw
      (
        parse_dest,
        split_host_port,
        cut_last-append b':' host (itoa port) (contains_byte-itoa b':' port refl),
        contains_byte-itoa b'[' port refl,
        contains_byte-itoa b']' port refl,
        host_before-IsPlain host (itoa port) plain,
        port_of,
        parse_uint-itoa 65535 port bound,
        named,
      )
      (ap ok (named_dest_lem host proto port))
