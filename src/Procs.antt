-- ===== src/Procs.antt =====
-- internal/procs: the rows of /proc/net, the cgroup of a process, and the search for a socket's inode.
-- The contents of the files are arguments: a file that does not open is `none`.
pub mod Search
mod Tests
use egresswall.Common.{
  ℕ, zero, suc, ◌+◌, ◌*◌, ◌^◌, ◌-◌, Bool, true, false, not, ◌&&◌, ◌||◌, List, [], ◌∷◌, ◌++◌, Option,
  none, some, ltb, leb, ◌==◌, if◌then◌else◌, length, drop, get_elem?,
}
use egresswall.Text.{
  Text, codes, fields, has_suffix, has_prefix, cut, split, trim_both, digit_value, parse_uint,
}
use egresswall.Netip.{Addr, v4, v6, unmap, addr_eq, is_unspecified}

pub record NetEntry : Type 0 where
  pub local : Addr
  pub port : ℕ
  pub inode : ℕ

infixl 5 ◌>>=◌
abbrev ◌>>=◌ {ℓ κ} : {A : Type ℓ} {B : Type κ} → Option A → (A → Option B) → Option B
none >>= f = none
some a >>= f = f a

abbrev hex_digit : ℕ → Option ℕ
hex_digit c = elim (digit_value c) [ none ↦ none | some d ↦ if ltb d 16 then some d else none ]

-- `hex.DecodeString`
unfoldable pub decode_hex : Text → Option (List ℕ)
unfolding digit_value
decode_hex [] = some []
decode_hex (c ∷ []) = none
decode_hex (c ∷ d ∷ s) = do
  high ← hex_digit c
  low ← hex_digit d
  rest ← decode_hex s
  some ((high * 16 + low) ∷ rest)

-- A word of four bytes, the last one first.
unfoldable pub word_of : ℕ → ℕ → ℕ → ℕ → ℕ
word_of a b c d = ((d * 256 + c) * 256 + b) * 256 + a

unfoldable pub addr_of : List ℕ → Option Addr
unfolding word_of unmap
addr_of (a ∷ b ∷ c ∷ d ∷ []) = some (v4 (word_of a b c d))
addr_of (a0 ∷ a1 ∷ a2 ∷ a3 ∷ b0 ∷ b1 ∷ b2 ∷ b3 ∷ c0 ∷ c1 ∷ c2 ∷ c3 ∷ d0 ∷ d1 ∷ d2 ∷ d3 ∷ []) =
    some (
      unmap (
        v6
          (((word_of a0 a1 a2 a3 * 2 ^ 32 + word_of b0 b1 b2 b3) * 2 ^ 32 + word_of c0 c1 c2 c3)
              * 2 ^ 32
            + word_of d0 d1 d2 d3)
          []))
addr_of _ = none

unfoldable pub parse_local : Text → Text → Option NetEntry
unfolding decode_hex parse_uint addr_of cut
parse_local address number = do
  (addr, port_hex) ← cut (codes ":") address
  raw ← decode_hex addr
  port ← parse_uint 16 65535 port_hex
  inode ← parse_uint 10 (2 ^ 64 - 1) number
  ip ← addr_of raw
  some (record { local = ip; port = port; inode = inode })

unfoldable pub parse_net_line : Text → Option NetEntry
unfolding parse_local fields has_suffix
parse_net_line line = do
  head ← get_elem? (fields line) 0
  address ← get_elem? (fields line) 1
  number ← get_elem? (fields line) 9
  if has_suffix head (codes ":") then parse_local address number else none

-- The first line that begins with "0::".
unfoldable pub cgroup_of_lines : List Text → Text
unfolding has_prefix trim_both
cgroup_of_lines [] = []
cgroup_of_lines (line ∷ lines) =
    let rest = cgroup_of_lines lines in
    if has_prefix line (codes "0::") then trim_both (λ c. c == b'/') (drop 3 line) else rest

unfoldable pub cgroup_from_proc : Text → Text
unfolding cgroup_of_lines split
cgroup_from_proc contents = cgroup_of_lines (split 10 contents)

-- A scan returns from the function, or goes on with the fallback found so far.
pub data Scan : Type 0 where
  found fallback : ℕ → Scan

unfoldable pub scan_entry : Addr → ℕ → NetEntry → ℕ → Scan
scan_entry local port e guess =
    if not (e.port == port) || e.inode == 0
    then fallback guess
    else if addr_eq e.local local
    then found e.inode
    else if is_unspecified e.local && guess == 0
    then fallback e.inode
    else fallback guess

unfoldable pub scan_line : Addr → ℕ → Text → ℕ → Scan
scan_line local port line guess = elim (parse_net_line line) [
  | none ↦ fallback guess
  | some e ↦ scan_entry local port e guess
]

unfoldable pub scan_lines : Addr → ℕ → List Text → ℕ → Scan
scan_lines local port [] guess = fallback guess
scan_lines local port (line ∷ lines) guess = elim (scan_line local port line guess) [
  | found n ↦ found n
  | fallback better ↦ scan_lines local port lines better
]

unfoldable pub scan_files : Addr → ℕ → List (Option (List Text)) → ℕ → Scan
scan_files local port [] guess = fallback guess
scan_files local port (none ∷ files) guess = scan_files local port files guess
scan_files local port (some lines ∷ files) guess = elim (scan_lines local port lines guess) [
  | found n ↦ found n
  | fallback better ↦ scan_files local port files better
]

abbrev pub inode_of : Scan → Option ℕ
inode_of (found n) = some n
inode_of (fallback guess) = if guess == 0 then none else some guess

unfoldable pub find_inode : Addr → ℕ → List (Option (List Text)) → Option ℕ
find_inode local port files = inode_of (scan_files (unmap local) port files 0)
