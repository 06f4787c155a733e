-- ===== src/Nft/Exprs.antt =====
-- internal/nft/apply_linux.go: the expressions that a rule is sent to the kernel as.
-- An expression of the library google/nftables is a constructor with the fields that the program sets;
-- all of them work on register 1. Bytes that the source writes in the order of the machine are written
-- little end first, the order of the machines that the program runs on. `stat` is what os.Stat says of a
-- cgroup, and `refuses` whether the library refuses a message.
pub mod Masks
pub mod Machine
pub mod Guards
pub mod Address
pub mod Cgroup
pub mod Faithful
pub mod Sendable
use Prim.Native.Nat.{bit_or}
use egresswall.Common.{
  ℕ, zero, suc, ◌+◌, ◌-◌, ◌*◌, ◌/◌, ◌%◌, ◌^◌, Bool, true, false, not, ◌&&◌, List, [], ◌∷◌, ◌++◌,
  any, Option, none, some, ltb, ◌==◌, if◌then◌else◌, is_nil, Result, ok, err, ◌>>=◌,
}
use egresswall.Text.{Text, codes, text_eq, itoa, count_byte}
use egresswall.Netip.{Addr, Prefix, masked}
use egresswall.Netip.Bytes.{as_slice, bytes}
use egresswall.Policy.{Verdict, deny, allow, PortRange}
use egresswall.Nft.Plan.{Family, any_family, ipv4, ipv6, Atom, log_prefix}

pub data MetaKey : Type 0 where
  oifname nfproto l4proto : MetaKey

pub data Base : Type 0 where
  network transport : Base

pub data Expr : Type 0 where
  meta : MetaKey → Expr
  socket_cgroup : ℕ → Expr
  ct_state : Expr
  load : Base → ℕ → ℕ → Expr
  bitwise : List ℕ → Expr
  cmp_eq : List ℕ → Expr
  cmp_ne : List ℕ → Expr
  in_range : List ℕ → List ℕ → Expr
  lookup : Text → Expr
  log : Text → Expr
  reject accept : Expr

-- The hook of a chain of type filter at the priority of filters.
pub data Hook : Type 0 where
  output forward : Hook

-- What a call of the library puts into the batch.
pub data Message : Type 0 where
  delete_table : Message
  add_table : Message
  add_set : Text → Family → Message
  add_anonymous_set : Text → List (List ℕ) → Message
  add_chain : Text → Hook → Verdict → Message
  add_rule : Text → List Expr → Message
  add_elements : Text → List (List ℕ × ℕ) → Message

pub data NftError : Type 0 where
  cgroup_missing stat_failed no_connection list_failed flush_failed : NftError
  unknown_set : Text → NftError
  set_refused : Text → NftError

pub data CgroupStat : Type 0 where
  inode : ℕ → CgroupStat
  absent unreadable : CgroupStat

pub record Handle : Type 0 where
  pub sets : List Text
  pub anon : ℕ
  pub missing : List Text
  -- The batch, the first message first.
  pub messages : List Message

abbrev pub Kernel : Type 0 → Type 0
Kernel = Result NftError

-- `binaryutil.NativeEndian`
unfoldable pub native_bytes : ℕ → ℕ → List ℕ
native_bytes zero n = []
native_bytes (suc k) n = (n % 256) ∷ native_bytes k (n / 256)

unfoldable pub be16 : ℕ → List ℕ
be16 n = bytes 2 n

unfoldable pub cgroup_id : (Text → CgroupStat) → Text → Kernel ℕ
cgroup_id stat path = elim (stat path) [
  | inode n ↦ ok n
  | absent ↦ err cgroup_missing
  | unreadable ↦ err stat_failed
]

unfoldable pub cgroup_level : Text → ℕ
cgroup_level path = count_byte b'/' path + 1

unfoldable pub loopback_accept : List Expr
loopback_accept =
    meta oifname
    ∷ cmp_eq (codes "lo" ++ (0 ∷ 0 ∷ 0 ∷ 0 ∷ 0 ∷ 0 ∷ 0 ∷ 0 ∷ 0 ∷ 0 ∷ 0 ∷ 0 ∷ 0 ∷ 0 ∷ []))
    ∷ accept
    ∷ []

unfoldable pub oif_prefix_accept : Text → List Expr
oif_prefix_accept pfx = meta oifname ∷ cmp_eq pfx ∷ accept ∷ []

-- The bits of the states established and related.
unfoldable pub established_accept : List Expr
established_accept = ct_state ∷ bitwise (native_bytes 4 6) ∷ cmp_ne (native_bytes 4 0) ∷ accept ∷ []

unfoldable pub refuse : Text → List Expr
refuse rule = log (log_prefix rule) ∷ reject ∷ []

unfoldable pub daddr_load : Family → Expr
daddr_load ipv6 = load network 24 16
daddr_load f = load network 16 4

unfoldable pub cgroup_exprs : (Text → CgroupStat) → Atom → Kernel (List Expr)
cgroup_exprs stat a =
    if is_nil a.cgroup
    then ok []
    else cgroup_id stat a.cgroup >>= λ id.
        ok (socket_cgroup (cgroup_level a.cgroup) ∷ cmp_eq (native_bytes 8 id) ∷ [])

unfoldable pub family_exprs : Family → List Expr
family_exprs any_family = []
family_exprs ipv4 = meta nfproto ∷ cmp_eq (2 ∷ []) ∷ []
family_exprs ipv6 = meta nfproto ∷ cmp_eq (10 ∷ []) ∷ []

-- `m[i] |= v`
unfoldable pub or_at : List ℕ → ℕ → ℕ → List ℕ
or_at [] i v = []
or_at (m ∷ ms) zero v = bit_or m v ∷ ms
or_at (m ∷ ms) (suc i) v = m ∷ or_at ms i v

abbrev pub zeros : ℕ → List ℕ
zeros zero = []
zeros (suc n) = 0 ∷ zeros n

-- The loop that sets the first `bits` bits of the mask.
unfoldable pub mask_of : ℕ → ℕ → List ℕ
unfolding or_at
mask_of size zero = zeros size
mask_of size (suc i) = or_at (mask_of size i) (i / 8) (0x80 / 2 ^ (i % 8))

abbrev pub size_of : Family → ℕ
size_of ipv6 = 16
size_of f = 4

unfoldable pub prefix_exprs : Family → Prefix → List Expr
prefix_exprs f p =
    daddr_load f
    ∷ ((if ltb p.bits (size_of f * 8) then bitwise (mask_of (size_of f) p.bits) ∷ [] else [])
        ++ (cmp_eq (as_slice (masked p).addr) ∷ []))

unfoldable pub set_exprs : Handle → Family → Text → Kernel (List Expr)
set_exprs h f set =
    if is_nil set
    then ok []
    else if any (text_eq set) h.sets
    then ok (daddr_load f ∷ lookup set ∷ [])
    else err (unknown_set set)

unfoldable pub address_exprs : Handle → Family → Option Prefix → Text → Kernel (List Expr)
address_exprs h f (some p) set = ok (prefix_exprs f p)
address_exprs h f none set = set_exprs h f set

unfoldable pub anon_name : ℕ → Text
anon_name n = codes "__set" ++ itoa n

-- The messages of the handle with one more.
abbrev pub push : Handle → Message → Handle
push h m = record h { messages = h.messages ++ (m ∷ []) }

unfoldable pub tcp_or_udp : (Message → Bool) → Handle → Kernel (Handle × List Expr)
tcp_or_udp refuses h =
    let name = anon_name (h.anon + 1) in
    let m = add_anonymous_set name ((6 ∷ []) ∷ (17 ∷ []) ∷ []) in
    if refuses m
    then err (set_refused name)
    else ok (push (record h { anon = h.anon + 1 }) m, meta l4proto ∷ lookup name ∷ [])

unfoldable pub proto_exprs : (Message → Bool) → Handle → Atom → Kernel (Handle × List Expr)
proto_exprs refuses h a =
    if not (is_nil a.proto)
    then ok (h, meta l4proto ∷ cmp_eq ((if text_eq a.proto (codes "udp") then 17 else 6) ∷ []) ∷ [])
    else if not (a.port.hi == 0)
    then tcp_or_udp refuses h
    else ok (h, [])

unfoldable pub port_exprs : PortRange → List Expr
port_exprs q =
    if q.hi == 0
    then []
    else load transport 2 2
      ∷ (if q.lo == q.hi then cmp_eq (be16 q.lo) ∷ [] else in_range (be16 q.lo) (be16 q.hi) ∷ [])

unfoldable pub verdict_exprs : Verdict → Text → List Expr
verdict_exprs allow rule = accept ∷ []
verdict_exprs deny rule = refuse rule

unfoldable pub atom_exprs :
    (Text → CgroupStat) → (Message → Bool) → Handle → Atom → Kernel (Handle × List Expr)
atom_exprs stat refuses h a = do
  cgroup ← cgroup_exprs stat a
  address ← address_exprs h a.family a.prefix a.set
  (after, proto) ← proto_exprs refuses h a
  ok (
    after,
    cgroup
        ++ (family_exprs a.family
            ++ (address ++ (proto ++ (port_exprs a.port ++ verdict_exprs a.verdict a.rule)))),
  )
