-- ===== src/Nft/Exprs/Machine.antt =====
-- What the expressions of a rule mean to the kernel, as nf_tables documents them: each works on one
-- register, a comparison that fails ends the rule with no verdict. This is the specification that
-- `atomExprs` of internal/nft/apply_linux.go is held to, and no code of the repository.
use egresswall.Common.{
  ℕ, ◌≤◌, ◌<◌, ◌^◌, Bool, true, false, not, ◌&&◌, List, [], ◌∷◌, Option, none, some, ◌≡◌, ◌↔◌, ◌⊎◌,
  Any, any, length, take, if◌then◌else◌, is_nil,
}
use egresswall.Text.{Text, codes, split, text_eq, text_lt}
use egresswall.Netip.{v4, v6, Prefix}
use egresswall.Netip.Bytes.{bytes, as_slice, and_bytes}
use egresswall.Policy.Domain.{cgroup_within}
use egresswall.Nft.Plan.{Family, ipv4, ipv6, Atom}
use egresswall.Nft.Kernel.{Flow, SetState}
use egresswall.Nft.Exprs.{
  MetaKey, oifname, nfproto, l4proto, Base, network, Expr, meta, socket_cgroup, ct_state, load,
  bitwise, cmp_eq, cmp_ne, in_range, lookup, log, reject, accept, Message, add_anonymous_set,
  CgroupStat, inode, native_bytes, be16,
}

-- What the kernel reads of a packet and of its socket, and what its sets hold. A socket has no cgroup
-- at a level below its own.
pub record Traffic : Type 0 where
  pub interface : List ℕ
  pub family : ℕ
  pub protocol : ℕ
  pub state : List ℕ
  pub cgroup_at : ℕ → Option (List ℕ)
  pub header : Base → ℕ → ℕ → List ℕ
  pub holds : Text → List ℕ → Bool

pub data Ending : Type 0 where
  accepted : Ending
  refused : Option Text → Ending

abbrev pub meta_of : Traffic → MetaKey → List ℕ
meta_of t oifname = t.interface
meta_of t nfproto = t.family ∷ []
meta_of t l4proto = t.protocol ∷ []

abbrev pub at_start : List ℕ → List ℕ → Bool
at_start reg d = text_eq (take (length d) reg) d

-- The end of the rule, if it has one, from the register and the log prefix so far.
unfoldable pub run : Traffic → List Expr → List ℕ → Option Text → Option Ending
run t [] reg logged = none
run t (meta k ∷ es) reg logged = run t es (meta_of t k) logged
run t (socket_cgroup level ∷ es) reg logged = elim (t.cgroup_at level) [
  | none ↦ none
  | some id ↦ run t es id logged
]
run t (ct_state ∷ es) reg logged = run t es t.state logged
run t (load base at n ∷ es) reg logged = run t es (t.header base at n) logged
run t (bitwise mask ∷ es) reg logged = run t es (and_bytes reg mask) logged
run t (cmp_eq d ∷ es) reg logged =
    let rest = run t es reg logged in if at_start reg d then rest else none
run t (cmp_ne d ∷ es) reg logged =
    let rest = run t es reg logged in if at_start reg d then none else rest
run t (in_range from to ∷ es) reg logged =
    let rest = run t es reg logged in
    if not (text_lt reg from) && not (text_lt to reg) then rest else none
run t (lookup set ∷ es) reg logged =
    let rest = run t es reg logged in if t.holds set reg then rest else none
run t (log prefix ∷ es) reg logged = run t es reg (some prefix)
run t (reject ∷ es) reg logged = some (refused logged)
run t (accept ∷ es) reg logged = some accepted

-- The traffic is the first packet of the flow: its address, transport, port and cgroup, and the sets
-- of these names hold its address as `sets` says. A cgroup stands at the level that counts the components
-- of its path.
pub record Carries (names : List Text) (sets : SetState) (stat : Text → CgroupStat) (f : Flow)
    (t : Traffic) : Type 0 where
  pub address :
      ((a : ℕ) × (f.dst ≡ v4 a)
        × (a < 2 ^ 32)
        × (t.family ≡ 2)
        × (t.header network 16 4 ≡ bytes 4 a))
      ⊎ ((a : ℕ) × (f.dst ≡ v6 a [])
          × (a < 2 ^ 128)
          × (t.family ≡ 10)
          × (t.header network 24 16 ≡ bytes 16 a))
  pub transport :
      ((f.proto ≡ codes "tcp") × (t.protocol ≡ 6)) ⊎ ((f.proto ≡ codes "udp") × (t.protocol ≡ 17))
  pub port : t.header Base.transport 2 2 ≡ be16 f.port
  pub port_range : f.port < 65536
  pub cgroup :
      (path : Text) (n : ℕ)
      → is_nil path ≡ false
      → stat path ≡ inode n
      → (t.cgroup_at (length (split b'/' path)) ≡ some (native_bytes 8 n))
        ↔ (cgroup_within f.cgroup path ≡ true)
  pub cgroup_size : (level : ℕ) (id : List ℕ) → t.cgroup_at level ≡ some id → length id ≡ 8
  pub members :
      (name : Text)
      → any (text_eq name) names ≡ true
      → t.holds name (as_slice f.dst) ≡ sets name f.dst

-- The anonymous sets of the batch are there with their elements.
abbrev pub Loaded : List Message → Traffic → Type 0
Loaded ms t =
    (name : Text) (elements : List (List ℕ))
    → Any (λ m. m ≡ add_anonymous_set name elements) ms
    → (key : List ℕ) → t.holds name key ≡ any (text_eq key) elements

-- A prefix of the family, and its address in the range of the family.
abbrev pub OfFamily : Family → Prefix → Type 0
OfFamily f p =
    ((a : ℕ) × (f ≡ ipv4) × (p.addr ≡ v4 a) × (a < 2 ^ 32) × (p.bits ≤ 32))
    ⊎ ((a : ℕ) × (f ≡ ipv6) × (p.addr ≡ v6 a []) × (a < 2 ^ 128) × (p.bits ≤ 128))

abbrev pub SoundAddress : Family → Option Prefix → Text → Type 0
SoundAddress f (some p) set = OfFamily f p
SoundAddress f none set = (set ≡ []) ⊎ (f ≡ ipv4) ⊎ (f ≡ ipv6)

-- What the atoms of a plan have: a known protocol, a range of ports, and an address test of the family.
pub record IsSendable (a : Atom) : Type 0 where
  pub proto : (a.proto ≡ []) ⊎ (a.proto ≡ codes "tcp") ⊎ (a.proto ≡ codes "udp")
  pub ports : (a.port.lo ≤ a.port.hi) × (a.port.hi < 65536)
  pub address : SoundAddress a.family a.prefix a.set
