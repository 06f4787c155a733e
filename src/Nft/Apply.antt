-- ===== src/Nft/Apply.antt =====
-- internal/nft/apply_linux.go: `Apply`, the rules of its chains, `AddAddrs`, `Missing`, `Close` and
-- `Remove`. A call returns the handle with the batch that it sent, the first message first. System says
-- what the operating system and the library google/nftables answer.
pub mod Chains
pub mod Outcomes
pub mod Body
pub mod Whole
pub mod Ends
pub mod Decides
pub mod Evaluated
pub mod Succeeds
pub mod Elements
pub mod Lost
mod Tests
use egresswall.Common.{
  ℕ, Bool, true, false, not, ◌&&◌, ◌||◌, List, [], ◌∷◌, ◌++◌, map, any, Option, none, some,
  if◌then◌else◌, is_nil, Result, ok, err, ◌>>=◌, each_ok, Key,
}
use egresswall.Common.Maps.{get, put}
use egresswall.Text.{Text, codes, text_eq, text_key}
use egresswall.Netip.{Addr, v4, v6, Prefix, unmap}
use egresswall.Netip.Bytes.{as_slice}
use egresswall.Policy.{Verdict, deny, allow}
use egresswall.Policy.Evaluate.{sort_texts}
use egresswall.Nft.Plan.{Family, ipv4, Add, Atom, SetDef, Plan, family_of, blank_atom, in_chain}
use egresswall.Nft.Exprs.{
  Expr, Message, delete_table, add_table, add_set, Hook, output, forward, add_chain, add_rule,
  add_elements, NftError, cgroup_missing, no_connection, list_failed, flush_failed, unknown_set,
  set_refused, CgroupStat, absent, Handle, Kernel, push, loopback_accept, oif_prefix_accept,
  established_accept, refuse, atom_exprs,
}

-- `tables` are the names of the inet tables, none where they cannot be listed; `refuses` says of a
-- message, and `flushes` of a batch, whether the library takes it; `order` is the order in which a range
-- over a map visits its keys.
pub record System : Type 0 where
  pub stat : Text → CgroupStat
  pub connects : Bool
  pub tables : Option (List Text)
  pub refuses : Message → Bool
  pub flushes : List Message → Bool
  pub order : List Text → List Text

abbrev pub table_name : Text
table_name = codes "egresswall"

abbrev pub chain_name : Text
chain_name = codes "output"

abbrev pub forward_chain : Text
forward_chain = codes "forward"

abbrev prefix : Addr → ℕ → Prefix
prefix a bits = record { addr = a; bits = bits }

abbrev pub housekeeping : List Prefix
housekeeping =
    prefix (v6 0xfe800000000000000000000000000000 []) 10
    ∷ prefix (v6 0xff000000000000000000000000000000 []) 8
    ∷ prefix (v4 0xe0000000) 4
    ∷ []

abbrev pub bridge_prefixes : List Text
bridge_prefixes = codes "docker" ∷ codes "br-" ∷ []

unfoldable pub rule : Text → List Expr → Handle → Handle
rule c exprs h = push h (add_rule c exprs)

-- The atom of a housekeeping prefix.
abbrev pub housekeeping_atom : Prefix → Atom
housekeeping_atom p = record (blank_atom (family_of p)) { prefix = some p; verdict = allow }

unfoldable pub housekeeping_step : System → Text → Handle → Prefix → Kernel Handle
unfolding rule
housekeeping_step sys c h p =
    atom_exprs sys.stat sys.refuses h (housekeeping_atom p) >>= λ (after, exprs).
    ok (rule c exprs after)

-- `h.missing[cgroup] = true`
unfoldable pub add_missing : Text → Handle → Handle
add_missing cgroup h =
    if any (text_eq cgroup) h.missing then h else record h { missing = cgroup ∷ h.missing }

-- What is done with the outcome of atomExprs.
unfoldable pub atom_rule : Text → Handle → Atom → Kernel (Handle × List Expr) → Kernel Handle
unfolding add_missing rule
atom_rule c h a (ok (after, exprs)) = ok (rule c exprs after)
atom_rule c h a (err cgroup_missing) = ok (add_missing a.cgroup h)
atom_rule c h a (err e) = err e

unfoldable pub atom_step : System → Text → Bool → Handle → Atom → Kernel Handle
atom_step sys c fwd h a =
    if not (in_chain a fwd) then ok h else atom_rule c h a (atom_exprs sys.stat sys.refuses h a)

unfoldable pub chain_body : System → Text → Plan → Bool → Handle → Kernel Handle
unfolding rule
chain_body sys c p fwd h = do
  kept ← each_ok (housekeeping_step sys c) (rule c established_accept h) housekeeping
  done ← each_ok (atom_step sys c fwd) kept p.atoms
  ok (if p.default_deny then rule c (refuse []) done else done)

-- The listed tables that are the program's own.
unfoldable pub own_tables : List Text → List Text
own_tables [] = []
own_tables (t ∷ ts) = if text_eq t table_name then t ∷ own_tables ts else own_tables ts

unfoldable pub delete_own : System → Kernel (List Message)
delete_own sys = elim sys.tables [
  | none ↦ err list_failed
  | some names ↦ ok (map (λ t. delete_table) (own_tables names))
]

unfoldable pub define_set : System → Handle → SetDef → Kernel Handle
define_set sys h def =
    let m = add_set def.name def.family in
    if sys.refuses m
    then err (set_refused def.name)
    else ok (push (record h { sets = h.sets ++ (def.name ∷ []) }) m)

abbrev pub chain_policy : Plan → Verdict
chain_policy p = if p.default_deny then deny else allow

unfoldable pub output_rules : System → Plan → Handle → Kernel Handle
unfolding rule
output_rules sys p h =
    chain_body sys chain_name p false
      (rule chain_name loopback_accept (push h (add_chain chain_name output (chain_policy p))))

unfoldable pub bridge_rules : List Text → Handle → Handle
unfolding rule
bridge_rules [] h = h
bridge_rules (pfx ∷ rest) h = bridge_rules rest (rule forward_chain (oif_prefix_accept pfx) h)

unfoldable pub forward_rules : System → Plan → Handle → Kernel Handle
forward_rules sys p h =
    if p.forward
    then chain_body sys forward_chain p true
        (bridge_rules bridge_prefixes (push h (add_chain forward_chain forward (chain_policy p))))
    else ok h

unfoldable pub flush : System → Handle → Kernel Handle
flush sys h = if sys.flushes h.messages then ok h else err flush_failed

unfoldable pub apply : System → Plan → Kernel Handle
apply sys p = do
  start ← if sys.connects then delete_own sys else err no_connection
  sets ←
      each_ok (define_set sys)
        (record { sets = []; anon = 0; missing = []; messages = start ++ (add_table ∷ []) }) p.sets
  out ← output_rules sys p sets
  all ← forward_rules sys p out
  flush sys all

unfoldable pub missing : Handle → List Text
missing h = sort_texts h.missing

-- `bySet` of AddAddrs: the elements for each set, in the order of the additions.
abbrev pub BySet : Type 0
BySet = List (Text × List (List ℕ × ℕ))

abbrev elements_in : Text → BySet → List (List ℕ × ℕ)
elements_in name m = elim (get name m) [ none ↦ [] | some es ↦ es ]

unfoldable pub group_step : Handle → BySet → Add → Kernel BySet
group_step h m a =
    if not (any (text_eq a.set) h.sets)
    then err (unknown_set a.set)
    else ok (put a.set (elements_in a.set m ++ ((as_slice (unmap a.ip), a.ttl) ∷ [])) m)

unfoldable pub send_step : System → BySet → Handle → Text → Kernel Handle
send_step sys m h name =
    let message = add_elements name (elements_in name m) in
    if sys.refuses message then err (set_refused name) else ok (push h message)

-- The batch of a loaded handle was flushed, so the one that AddAddrs sends starts empty.
unfoldable pub add_addrs : System → Handle → List Add → Kernel Handle
add_addrs sys h [] = ok h
add_addrs sys h (a ∷ adds) = do
  m ← each_ok (group_step h) [] (a ∷ adds)
  sent ← each_ok (send_step sys m) (record h { messages = [] }) (sys.order (map (λ e. e.0) m))
  flush sys sent

unfoldable pub close : System → Handle → Kernel Handle
close sys h = flush sys (record h { messages = delete_table ∷ [] })

-- `Remove` deletes one table of the name, and says whether there was one.
unfoldable pub remove : System → Kernel Bool
remove sys = if not sys.connects then err no_connection else elim sys.tables [
  | none ↦ err list_failed
  | some names ↦
      if any (text_eq table_name) names
      then (if sys.flushes (delete_table ∷ []) then ok true else err flush_failed)
      else ok false
]
