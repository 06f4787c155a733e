-- ===== src/Policy/WellFormed.antt =====
-- internal/policy/policy.go: what `compileRule` guarantees of every rule that it accepts.
use egresswall.Common.{
  ℕ, ◌≤◌, true, false, List, [], ◌∷◌, ◌++◌, Option, none, some, ◌≡◌, ◌≢◌, ◌↔◌, ◌⊎◌, inl, inr, refl,
  arith, All, All-append, is_nil, ok, each_ok, each_ok_keeps, bind-eq-ok, ok-injective, subst,
  Option-cases, if◌then◌else◌, drop,
}
use egresswall.Text.{
  Text, codes, text_eq_iff, lower, contains_byte, has_prefix, trim_space, parse_uint, uint_step,
  uint_loop,
}
use egresswall.Policy.{Verdict, Rule, PortRange, CompiledRule}
use egresswall.Policy.Covers.{is_nil_iff}
use egresswall.Policy.Domain.{normalize_domain}
use egresswall.Policy.Compile.{
  compile_rule, domain_step, cidr_step, port_step, set_proto, set_cgroup, set_any_host, add_exact,
  blank_rule, parse_port_range, port_number, range_to, dash_parts,
}

-- A port range that the kernel can be given: not empty, and within the ports 1 to 65535.
pub record IsRange (q : PortRange) : Type 0 where
  pub positive : 1 ≤ q.lo
  pub ordered : q.lo ≤ q.hi
  pub bounded : q.hi ≤ 65535

uint_step-le : (base most n c m : ℕ) → uint_step base most n c ≡ some m → m ≤ most
unfolding uint_step
uint_step-le base most n c m e = ground arith

uint_loop-le :
    (base most n : ℕ) (s : Text) (m : ℕ) → n ≤ most → uint_loop base most n s ≡ some m → m ≤ most
unfolding uint_loop
uint_loop-le base most n [] m h e = ground arith
uint_loop-le base most n (c ∷ s) m h e = elim (Option-cases (uint_step base most n c)) [
  | inl bad ↦ absurd (ground arith)
  | inr (k, good) ↦ uint_loop-le base most k s m (uint_step-le base most n c k good) (ground arith)
]

pub parse_uint-le : (base most : ℕ) (s : Text) (m : ℕ) → parse_uint base most s ≡ some m → m ≤ most
unfolding parse_uint
parse_uint-le base most [] m e = cc
parse_uint-le base most (c ∷ s) m e = uint_loop-le base most 0 (c ∷ s) m (omega arith) e

port_number_bounds : (s : Text) (a : ℕ) → port_number s ≡ some a → (1 ≤ a) × (a ≤ 65535)
unfolding port_number
port_number_bounds s a e = elim (Option-cases (parse_uint 10 65535 (trim_space s))) [
  | inl bad ↦ absurd (ground arith)
  | inr (k, good) ↦ ground (arith, parse_uint-le 10 65535 (trim_space s) k good)
]

range_to-IsRange :
    (pos s : Text) (a : ℕ) (hi : Option Text) (q : PortRange)
    → (1 ≤ a) × (a ≤ 65535)
    → range_to pos s a hi ≡ ok q
    → IsRange q
unfolding range_to
range_to-IsRange pos s a none q h e = ground arith
range_to-IsRange pos s a (some hi) q h e = elim (Option-cases (port_number hi)) [
  | inl bad ↦ absurd (ground arith)
  | inr (b, good) ↦ ground (arith, port_number_bounds hi b good)
]

-- Whatever text it accepts, the range is not empty and within 1 to 65535.
pub parse_port_range-IsRange :
    (pos s : Text) (q : PortRange) → parse_port_range pos s ≡ ok q → IsRange q
unfolding parse_port_range
parse_port_range-IsRange pos s q e =
    let (lo, hi) = dash_parts (trim_space s) in
    elim (Option-cases (port_number lo)) [
      | inl bad ↦ absurd (ground arith)
      | inr (a, good) ↦ range_to-IsRange pos s a hi q (port_number_bounds lo a good) (ground arith)
    ]

abbrev NoStar : Text → Type 0
NoStar s = contains_byte b'*' s ≡ false

-- An exact name is a name and holds no wildcard.
abbrev pub IsExact : Text → Type 0
IsExact s = (s ≢ []) × NoStar s

-- A suffix is what stands behind the star of `*.example.com`, its dot included.
abbrev pub IsSuffix : Text → Type 0
IsSuffix s = (rest : Text) × (s ≡ b'.' ∷ rest) × NoStar rest

abbrev pub IsProto : Text → Type 0
IsProto p = (p ≡ []) ⊎ (p ≡ codes "tcp") ⊎ (p ≡ codes "udp")

-- What each step of `compileRule` keeps.
record Kept (v : Verdict) (c : CompiledRule) : Type 0 where
  verdict : c.verdict ≡ v
  exact : All IsExact c.exact
  suffixes : All IsSuffix c.suffixes
  ports : All IsRange c.ports
  proto : IsProto c.proto

pub record IsWellFormed (v : Verdict) (c : CompiledRule) : Type 0 where
  pub verdict : c.verdict ≡ v
  pub exact : All IsExact c.exact
  pub suffixes : All IsSuffix c.suffixes
  pub ports : All IsRange c.ports
  pub proto : IsProto c.proto
  pub any_host : (c.any_host ≡ true) ↔ ((c.exact ≡ []) × (c.suffixes ≡ []) × (c.prefixes ≡ []))

add_exact-IsExact :
    (d : Text) (names : List Text) → IsExact d → All IsExact names → All IsExact (add_exact d names)
unfolding add_exact
add_exact-IsExact d names h k = ground (arith, All-append IsExact names (d ∷ []) k (h, tt))

star_dot :
    (d : Text)
    → has_prefix d (codes "*.") ≡ true
    → contains_byte b'*' (drop 2 d) ≡ false
    → IsSuffix (drop 1 d)
unfolding has_prefix
star_dot [] h k = cc
star_dot (a ∷ []) h k = absurd (ground arith)
star_dot (a ∷ b ∷ s) h k = (s, ground arith, k)

domain_step-Kept :
    (v : Verdict) (pos : Text) (s t : CompiledRule) (raw : Text)
    → domain_step pos s raw ≡ ok t
    → Kept v s
    → Kept v t
unfolding domain_step
domain_step-Kept v pos s t raw e k =
    let d : Text = normalize_domain raw in
    ground (
      arith,
      is_nil_iff d,
      add_exact-IsExact d s.exact,
      star_dot d,
      All-append IsSuffix s.suffixes (drop 1 d ∷ []) k.suffixes,
    )

cidr_step-Kept :
    (v : Verdict) (pos : Text) (s t : CompiledRule) (raw : Text)
    → cidr_step pos s raw ≡ ok t
    → Kept v s
    → Kept v t
unfolding cidr_step
cidr_step-Kept v pos s t raw e k = ground arith

port_step-Kept :
    (v : Verdict) (pos : Text) (s t : CompiledRule) (raw : Text)
    → port_step pos s raw ≡ ok t
    → Kept v s
    → Kept v t
unfolding port_step
port_step-Kept v pos s t raw e k =
    let (q, good, same) =
      bind-eq-ok (parse_port_range pos raw) (λ r. ok (record s { ports = s.ports ++ r ∷ [] })) e in
    ground (
      arith,
      All-append IsRange s.ports (q ∷ []) k.ports (parse_port_range-IsRange pos raw q good, tt),
    )

set_proto-Kept :
    (v : Verdict) (pos proto : Text) (s t : CompiledRule)
    → set_proto pos proto s ≡ ok t
    → Kept v s
    → Kept v t
unfolding set_proto
set_proto-Kept v pos proto s t e k = ground (
  arith,
  is_nil_iff (lower proto),
  text_eq_iff (lower proto) (codes "tcp"),
  text_eq_iff (lower proto) (codes "udp"),
)

set_cgroup-Kept :
    (v : Verdict) (pos path : Text) (s t : CompiledRule)
    → set_cgroup pos path s ≡ ok t
    → Kept v s
    → Kept v t
unfolding set_cgroup
set_cgroup-Kept v pos path s t e k = ground arith

blank_rule-Kept : (name : Text) (v : Verdict) → Kept v (blank_rule name v)
blank_rule-Kept name v = record {
  verdict = refl;
  exact = tt;
  suffixes = tt;
  ports = tt;
  proto = inl refl;
}

set_any_host-IsWellFormed :
    (v : Verdict) (c : CompiledRule) → Kept v c → IsWellFormed v (set_any_host c)
set_any_host-IsWellFormed v c k = record {
  verdict = k.verdict;
  exact = k.exact;
  suffixes = k.suffixes;
  ports = k.ports;
  proto = k.proto;
  any_host = ground (arith, is_nil_iff c.exact, is_nil_iff c.suffixes, is_nil_iff c.prefixes);
}

-- A rule that is accepted keeps its verdict; its exact names and suffixes hold no star and a suffix
-- begins with a dot; its port ranges lie in 1 to 65535; its protocol is "", "tcp" or "udp"; and it
-- matches any host exactly when it has no names, no suffixes and no prefixes.
pub compile_rule-IsWellFormed :
    (r : Rule) (v : Verdict) (pos : Text) (c : CompiledRule)
    → compile_rule r v pos ≡ ok c
    → IsWellFormed v c
unfolding compile_rule
compile_rule-IsWellFormed r v pos c e =
    let (c1, e1, f1) =
      bind-eq-ok
        (each_ok (domain_step pos) (blank_rule (if is_nil r.name then pos else r.name) v) r.domains)
        _ e in
    let (c2, e2, f2) = bind-eq-ok (each_ok (cidr_step pos) c1 r.cidrs) _ f1 in
    let (c3, e3, f3) = bind-eq-ok (each_ok (port_step pos) c2 r.ports) _ f2 in
    let (c4, e4, f4) = bind-eq-ok (set_proto pos r.proto c3) _ f3 in
    let (c5, e5, f5) = bind-eq-ok (set_cgroup pos r.cgroup c4) _ f4 in
    let k1 =
      each_ok_keeps (Kept v) (domain_step pos) (domain_step-Kept v pos) r.domains _ c1 e1
        (blank_rule-Kept _ v) in
    let k2 = each_ok_keeps (Kept v) (cidr_step pos) (cidr_step-Kept v pos) r.cidrs c1 c2 e2 k1 in
    let k3 = each_ok_keeps (Kept v) (port_step pos) (port_step-Kept v pos) r.ports c2 c3 e3 k2 in
    let k5 = set_cgroup-Kept v pos r.cgroup c4 c5 e5 (set_proto-Kept v pos r.proto c3 c4 e4 k3) in
    subst (IsWellFormed v) (ok-injective f5) (set_any_host-IsWellFormed v c5 k5)
