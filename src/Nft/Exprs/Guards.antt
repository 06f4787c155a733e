-- ===== src/Nft/Exprs/Guards.antt =====
-- internal/nft/apply_linux.go, `atomExprs`: what each part of the expressions of an atom tests.
use egresswall.Common.{
  ℕ, zero, suc, ◌+◌, ◌/◌, ◌≤◌, ◌<◌, Bool, true, not, ◌&&◌, ◌||◌, List, [], ◌∷◌, ◌++◌, Option, none,
  some, ◌≡◌, ◌↔◌, ◌⊎◌, inl, inr, refl, ap, sym, ◌∙◌, arith, Any, length, take, if◌then◌else◌,
  Bool-cases, is_nil, leb, ltb, ◌==◌, ok,
}
use egresswall.Text.{Text, codes, text_eq, text_eq_iff, text_lt}
use egresswall.Netip.Bytes.{bytes, length-bytes, bytes_injective}
use egresswall.Policy.{Verdict, deny, allow, PortRange}
use egresswall.Nft.Plan.{Family, any_family, ipv4, ipv6, Atom, log_prefix}
use egresswall.Nft.Kernel.{Flow, SetState, family_hits}
use egresswall.Nft.Exprs.{
  transport, meta, l4proto, cmp_eq, lookup, add_anonymous_set, Expr, Message, Handle, CgroupStat,
  native_bytes, be16, family_exprs, proto_exprs, tcp_or_udp, port_exprs, verdict_exprs, refuse,
  anon_name,
}
use egresswall.Nft.Exprs.Machine.{Traffic, accepted, refused, run, at_start, Carries, Loaded}

-- The part goes on behind it exactly when the test holds.
abbrev pub IsGuard : Traffic → List Expr → Bool → Type 0
IsGuard t part test =
    (es : List Expr) (reg : List ℕ) (logged : Option Text)
    → (after : List ℕ) × (run t (part ++ es) reg logged
        ≡ (if test then run t es after logged else none))

take_all : (d : List ℕ) → take (length d) d ≡ d
take_all [] = refl
take_all (x ∷ d) = ap (λ l. x ∷ l) (take_all d)

pub at_start_iff : (reg d : List ℕ) → length reg ≡ length d → (at_start reg d ≡ true) ↔ (reg ≡ d)
at_start_iff reg d h =
    ground (arith, text_eq_iff (take (length d) reg) d, take_all reg, ap (λ n. take n reg) h)

pub length-native_bytes : (k n : ℕ) → length (native_bytes k n) ≡ k
unfolding native_bytes
length-native_bytes zero n = refl
length-native_bytes (suc k) n = omega (arith, length-native_bytes k (n / 256))

pub IsGuard-nothing : (t : Traffic) → IsGuard t [] true
IsGuard-nothing t es reg logged = (reg, refl)

pub family-IsGuard :
    (t : Traffic) (names : List Text) (sets : SetState) (stat : Text → CgroupStat) (f : Flow)
    (g : Family)
    → Carries names sets stat f t
    → IsGuard t (family_exprs g) (family_hits g f.dst)
unfolding family_exprs run
family-IsGuard t names sets stat f any_family c es reg logged = (reg, refl)
family-IsGuard t names sets stat f ipv4 c es reg logged = (t.family ∷ [], ground (arith, c.address))
family-IsGuard t names sets stat f ipv6 c es reg logged = (t.family ∷ [], ground (arith, c.address))

pub verdict_end :
    (t : Traffic) (v : Verdict) (rule : Text) (reg : List ℕ)
    → run t (verdict_exprs v rule) reg none
      ≡ some (elim v [ allow ↦ accepted | deny ↦ refused (some (log_prefix rule)) ])
unfolding verdict_exprs refuse run
verdict_end t allow rule reg = refl
verdict_end t deny rule reg = refl

text_lt-be16 : (x y : ℕ) → x < 65536 → y < 65536 → text_lt (be16 x) (be16 y) ≡ ltb x y
unfolding text_lt be16 bytes
text_lt-be16 x y hx hy = ground arith

be16_iff : (x y : ℕ) → x < 65536 → y < 65536 → (be16 x ≡ be16 y) ↔ (x ≡ y)
unfolding be16
be16_iff x y hx hy = (bytes_injective 2 x y hx hy, λ e. ap (bytes 2) e)

length-be16 : (n : ℕ) → length (be16 n) ≡ 2
unfolding be16
length-be16 n = length-bytes 2 n

one_port :
    (port lo hi : ℕ)
    → port < 65536
    → hi < 65536
    → lo ≡ hi
    → at_start (be16 port) (be16 lo) ≡ (leb lo port && leb port hi)
one_port port lo hi hp hh same = ground (
  arith,
  at_start_iff (be16 port) (be16 lo) (length-be16 port ∙ sym (length-be16 lo)),
  be16_iff port lo hp (omega arith),
)

port_range :
    (port lo hi : ℕ)
    → port < 65536
    → lo ≤ hi
    → hi < 65536
    → (not (text_lt (be16 port) (be16 lo)) && not (text_lt (be16 hi) (be16 port)))
      ≡ (leb lo port && leb port hi)
port_range port lo hi hp ordered hh =
    ground (arith, text_lt-be16 port lo hp (omega arith), text_lt-be16 hi port hh hp)

pub port-IsGuard :
    (t : Traffic) (names : List Text) (sets : SetState) (stat : Text → CgroupStat) (f : Flow)
    (q : PortRange)
    → Carries names sets stat f t
    → q.lo ≤ q.hi
    → q.hi < 65536
    → IsGuard t (port_exprs q) (q.hi == 0 || (leb q.lo f.port && leb f.port q.hi))
unfolding port_exprs run
port-IsGuard t names sets stat f q c ordered bound es reg logged = elim (Bool-cases (q.hi == 0)) [
  | inl none_wanted ↦ (reg, rw none_wanted refl)
  | inr wanted ↦ elim (Bool-cases (q.lo == q.hi)) [
    | inl one ↦ (
      t.header transport 2 2,
      rw (wanted, one, c.port)
          (rw (one_port f.port q.lo q.hi c.port_range bound (ground arith)) refl),
    )
    | inr several ↦ (
      t.header transport 2 2,
      rw (wanted, several, c.port)
          (rw (port_range f.port q.lo q.hi c.port_range ordered bound) refl),
    )
  ]
]

-- What the transport part tests, the ports aside.
abbrev pub proto_test : Atom → Flow → Bool
proto_test a f =
    if not (is_nil a.proto)
    then text_eq a.proto f.proto
    else a.port.hi == 0 || (text_eq f.proto (codes "tcp") || text_eq f.proto (codes "udp"))

pub IsGuard-eq :
    (t : Traffic) (part part' : List Expr) (test test' : Bool)
    → part' ≡ part
    → test' ≡ test
    → IsGuard t part test
    → IsGuard t part' test'
IsGuard-eq t part part' test test' h k g = rw (h, k) g

protocol-IsGuard :
    (t : Traffic) (n : ℕ) → IsGuard t (meta l4proto ∷ cmp_eq (n ∷ []) ∷ []) (t.protocol == n)
unfolding run
protocol-IsGuard t n es reg logged = (t.protocol ∷ [], ground arith)

either-IsGuard :
    (t : Traffic) (ms : List Message) (name : Text)
    → Loaded ms t
    → Any (λ m. m ≡ add_anonymous_set name ((6 ∷ []) ∷ (17 ∷ []) ∷ [])) ms
    → (t.protocol ≡ 6) ⊎ (t.protocol ≡ 17)
    → IsGuard t (meta l4proto ∷ lookup name ∷ []) true
unfolding run
either-IsGuard t ms name loaded there known es reg logged = (
  t.protocol ∷ [],
  ground (arith, loaded name ((6 ∷ []) ∷ (17 ∷ []) ∷ []) there (t.protocol ∷ [])),
)

Any-last {ℓ} : {A : Type ℓ} (P : A → Type 0) (xs : List A) (x : A) → P x → Any P (xs ++ (x ∷ []))
Any-last P [] x h = inl h
Any-last P (y ∷ xs) x h = inr (Any-last P xs x h)

protocol_known :
    (names : List Text) (sets : SetState) (stat : Text → CgroupStat) (f : Flow) (t : Traffic)
    → Carries names sets stat f t
    → (t.protocol ≡ 6) ⊎ (t.protocol ≡ 17)
protocol_known names sets stat f t c = ground (arith, c.transport)

pub proto-IsGuard :
    (t : Traffic) (names : List Text) (sets : SetState) (stat : Text → CgroupStat) (f : Flow)
    (refuses : Message → Bool) (h after : Handle) (a : Atom) (part : List Expr)
    → Carries names sets stat f t
    → Loaded after.messages t
    → (a.proto ≡ []) ⊎ (a.proto ≡ codes "tcp") ⊎ (a.proto ≡ codes "udp")
    → proto_exprs refuses h a ≡ ok (after, part)
    → IsGuard t part (proto_test a f)
unfolding proto_exprs tcp_or_udp
proto-IsGuard t names sets stat f refuses h after a part c loaded (inl free) made =
    elim (Bool-cases (a.port.hi == 0)) [
      | inl none_wanted ↦
          IsGuard-eq t [] part true (proto_test a f) (ground arith) (ground arith)
            (IsGuard-nothing t)
      | inr wanted ↦
          (let name : Text = anon_name (h.anon + 1) in
            let m : Message = add_anonymous_set name ((6 ∷ []) ∷ (17 ∷ []) ∷ []) in
            let pushed : after.messages ≡ h.messages ++ (m ∷ []) = ground arith in
            IsGuard-eq t (meta l4proto ∷ lookup name ∷ []) part true (proto_test a f) (ground arith)
              (ground (arith, c.transport))
              (either-IsGuard t after.messages name loaded
                (rw pushed (Any-last (λ x. x ≡ m) h.messages m refl))
                (protocol_known names sets stat f t c)))
    ]
proto-IsGuard t names sets stat f refuses h after a part c loaded (inr (inl tcp)) made =
    IsGuard-eq t (meta l4proto ∷ cmp_eq (6 ∷ []) ∷ []) part (t.protocol == 6) (proto_test a f)
      (ground arith) (ground (arith, c.transport)) (protocol-IsGuard t 6)
proto-IsGuard t names sets stat f refuses h after a part c loaded (inr (inr udp)) made =
    IsGuard-eq t (meta l4proto ∷ cmp_eq (17 ∷ []) ∷ []) part (t.protocol == 17) (proto_test a f)
      (ground arith) (ground (arith, c.transport)) (protocol-IsGuard t 17)
