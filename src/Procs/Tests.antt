-- ===== src/Procs/Tests.antt =====
-- The rows of internal/procs/procs_test.go, and an instance of the theorem.
use egresswall.Common.{not, List, [], ◌∷◌, Option, none, some, ◌≡◌, refl, ◌==◌, if◌then◌else◌}
use egresswall.Text.{Text, codes}
use egresswall.Netip.{v4, unmap}
use egresswall.Procs.{parse_net_line, cgroup_from_proc, find_inode}
use egresswall.Procs.Search.{all_entries, first_inode, is_bound, is_wildcard, find_inode_lem}

abbrev loopback_row : Text
loopback_row =
    codes
      "   0: 0100007F:1F90 00000000:0000 0A 00000000:00000000 00:00000000 00000000  1000        0 31337 1 0000000000000000"

abbrev wildcard_row : Text
wildcard_row =
    codes
      "   1: 00000000:1F90 00000000:0000 0A 00000000:00000000 00:00000000 00000000  0        0 777 1"

row_tests :
    (parse_net_line loopback_row
      ≡ some (record { local = v4 0x7f000001; port = 8080; inode = 31337 }))
    × (parse_net_line (codes "  sl  local_address rem_address") ≡ none)
    × (cgroup_from_proc (codes "0::/system.slice/nginx.service\n")
        ≡ codes "system.slice/nginx.service")
unfolding parse_net_line cgroup_from_proc
row_tests = (refl, refl, refl)

abbrev files : List (Option (List Text))
files = some (wildcard_row ∷ loopback_row ∷ []) ∷ none ∷ []

find_inode_lem_example :
    let exact = first_inode (is_bound (unmap (v4 0x7f000001)) 8080) (all_entries files) in
    let wild = first_inode (is_wildcard 8080) (all_entries files) in
    find_inode (v4 0x7f000001) 8080 files
    ≡ (if not (exact == 0) then some exact else if wild == 0 then none else some wild)
find_inode_lem_example = find_inode_lem (v4 0x7f000001) 8080 files
