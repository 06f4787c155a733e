-- ===== src/Procs/Search.antt =====
-- internal/procs/lookup_linux.go, `findInode`: the order of the search.
use egresswall.Common.{
  ℕ, Bool, not, ◌&&◌, List, [], ◌∷◌, ◌++◌, Option, none, some, ◌≡◌, refl, sym, ◌∙◌, ◌⊎◌, arith,
  ◌==◌, if◌then◌else◌, Option-cases, inl, inr,
}
use egresswall.Text.{Text}
use egresswall.Netip.{Addr, addr_eq, is_unspecified, unmap}
use egresswall.Procs.{
  NetEntry, parse_net_line, Scan, found, fallback, scan_entry, scan_line, scan_lines, scan_files,
  find_inode,
}

-- The entries of all the rows that parse, in the order of the files.
unfoldable pub entries_of : List Text → List NetEntry
entries_of [] = []
entries_of (line ∷ lines) = elim (parse_net_line line) [
  | none ↦ entries_of lines
  | some e ↦ e ∷ entries_of lines
]

unfoldable pub all_entries : List (Option (List Text)) → List NetEntry
all_entries [] = []
all_entries (none ∷ files) = all_entries files
all_entries (some lines ∷ files) = entries_of lines ++ all_entries files

-- The inode of the first entry that passes the test and has an inode, and 0 where there is none.
unfoldable pub first_inode : (NetEntry → Bool) → List NetEntry → ℕ
first_inode p [] = 0
first_inode p (e ∷ es) =
    let rest = first_inode p es in if p e && not (e.inode == 0) then e.inode else rest

unfoldable pub is_bound : Addr → ℕ → NetEntry → Bool
is_bound local port e = e.port == port && addr_eq e.local local

unfoldable pub is_wildcard : ℕ → NetEntry → Bool
is_wildcard port e = e.port == port && is_unspecified e.local

-- The scan without the files: over the entries.
unfoldable pub scan_entries : Addr → ℕ → List NetEntry → ℕ → Scan
scan_entries local port [] guess = fallback guess
scan_entries local port (e ∷ es) guess = elim (scan_entry local port e guess) [
  | found n ↦ found n
  | fallback better ↦ scan_entries local port es better
]

abbrev outcome : ℕ → ℕ → ℕ → Scan
outcome exact guess wild =
    if not (exact == 0) then found exact else fallback (if guess == 0 then wild else guess)

scan_entries_lem :
    (local : Addr) (port : ℕ) (es : List NetEntry) (guess : ℕ)
    → scan_entries local port es guess
      ≡ outcome (first_inode (is_bound local port) es) guess (first_inode (is_wildcard port) es)
unfolding scan_entries scan_entry first_inode is_bound is_wildcard
scan_entries_lem local port [] guess = ground arith
scan_entries_lem local port (e ∷ es) guess =
    ground (arith, scan_entries_lem local port es guess, scan_entries_lem local port es e.inode)

Scan-cases : (s : Scan) → ((n : ℕ) × (s ≡ found n)) ⊎ ((better : ℕ) × (s ≡ fallback better))
Scan-cases (found n) = inl (n, refl)
Scan-cases (fallback better) = inr (better, refl)

scan_entries-append :
    (local : Addr) (port : ℕ) (es fs : List NetEntry) (guess : ℕ)
    → scan_entries local port (es ++ fs) guess ≡ elim (scan_entries local port es guess) [
      | found n ↦ found n
      | fallback better ↦ scan_entries local port fs better
    ]
unfolding scan_entries
scan_entries-append local port [] fs guess = refl
scan_entries-append local port (e ∷ es) fs guess =
    elim (Scan-cases (scan_entry local port e guess)) [
      | inl (n, h) ↦ rw (h, scan_entries) refl
      | inr (better, h) ↦ rw (h, scan_entries) (scan_entries-append local port es fs better)
    ]

scan_lines_lem :
    (local : Addr) (port : ℕ) (lines : List Text) (guess : ℕ)
    → scan_lines local port lines guess ≡ scan_entries local port (entries_of lines) guess
unfolding scan_lines scan_line scan_entries entries_of
scan_lines_lem local port [] guess = refl
scan_lines_lem local port (line ∷ lines) guess = elim (Option-cases (parse_net_line line)) [
  | inl bad ↦ rw (bad, scan_lines, scan_line, entries_of) (scan_lines_lem local port lines guess)
  | inr (e, h) ↦ elim (Scan-cases (scan_entry local port e guess)) [
    | inl (n, s) ↦ rw (h, scan_lines, scan_line, entries_of, scan_entries, s) refl
    | inr (better, s) ↦
        rw (h, scan_lines, scan_line, entries_of, scan_entries, s)
          (scan_lines_lem local port lines better)
  ]
]

after_lines :
    (local : Addr) (port : ℕ) (lines : List Text) (files : List (Option (List Text))) (guess : ℕ)
    → scan_entries local port (all_entries (some lines ∷ files)) guess
      ≡ elim (scan_entries local port (entries_of lines) guess) [
        | found n ↦ found n
        | fallback better ↦ scan_entries local port (all_entries files) better
      ]
unfolding all_entries
after_lines local port lines files guess =
    scan_entries-append local port (entries_of lines) (all_entries files) guess

scan_files_lem :
    (local : Addr) (port : ℕ) (files : List (Option (List Text))) (guess : ℕ)
    → scan_files local port files guess ≡ scan_entries local port (all_entries files) guess
unfolding scan_files scan_entries all_entries
scan_files_lem local port [] guess = refl
scan_files_lem local port (none ∷ files) guess = scan_files_lem local port files guess
scan_files_lem local port (some lines ∷ files) guess =
    let here : Scan = scan_entries local port (entries_of lines) guess in
    rw (scan_lines_lem local port lines guess, scan_files)
      (elim (Scan-cases here) [
        | inl (n, s) ↦ rw s (sym (after_lines local port lines files guess ∙ rw s refl))
        | inr (better, s) ↦ rw s (
            scan_files_lem local port files better
            ∙ sym (after_lines local port lines files guess ∙ rw s refl))
      ])

-- findInode gives the inode of the first row, in the order of the files, that has the port and the
-- unmapped address; where there is none, of the first with the port and an unspecified address; and
-- nothing where there is neither. Rows that do not parse, rows with inode 0 and files that do not open
-- count for nothing.
pub find_inode_lem :
    (local : Addr) (port : ℕ) (files : List (Option (List Text)))
    → let exact = first_inode (is_bound (unmap local) port) (all_entries files) in
      let wild = first_inode (is_wildcard port) (all_entries files) in
      find_inode local port files
      ≡ (if not (exact == 0) then some exact else if wild == 0 then none else some wild)
unfolding find_inode
find_inode_lem local port files =
    rw
      (
        scan_files_lem (unmap local) port files 0,
        scan_entries_lem (unmap local) port (all_entries files) 0,
      )
      (ground arith)
