-- ===== src/Nft/Apply/Elements.antt =====
-- internal/nft/apply_linux.go, `AddAddrs`: the batch puts each address into the set it was meant for.
use egresswall.Common.{
  ℕ, Bool, true, false, ◌&&◌, ◌||◌, List, [], ◌∷◌, ◌++◌, map, any, ◌≡◌, inl, inr, refl, ap, sym,
  ◌∙◌, arith, if◌then◌else◌, ok, each_ok, bind-eq-ok, ok-injective, Bool-cases,
}
use egresswall.Common.Maps.{get, put, get-put}
use egresswall.Text.{Text, text_eq, text_eq_iff, text_key}
use egresswall.Netip.{unmap}
use egresswall.Netip.Bytes.{as_slice}
use egresswall.Nft.Plan.{Add}
use egresswall.Nft.Hits.{any-append}
use egresswall.Nft.Exprs.{Message, add_elements, Handle}
use egresswall.Nft.Apply.{System, BySet, elements_in, group_step, send_step, flush, add_addrs}

-- The batch has an element with this key for the set.
unfoldable pub sends : List Message → Text → List ℕ → Bool
sends [] name key = false
sends (add_elements n es ∷ ms) name key =
    (text_eq n name && any (λ e. text_eq e.0 key) es) || sends ms name key
sends (m ∷ ms) name key = sends ms name key

-- One of the additions puts this key into the set.
abbrev pub wants : List Add → Text → List ℕ → Bool
wants adds name key = any (λ a. text_eq a.set name && text_eq (as_slice (unmap a.ip)) key) adds

abbrev has : BySet → Text → List ℕ → Bool
has m name key = any (λ e. text_eq e.0 key) (elements_in name m)

elements_in-put :
    (n name : Text) (es : List (List ℕ × ℕ)) (m : BySet)
    → elements_in name (put n es m) ≡ (if text_eq n name then es else elements_in name m)
elements_in-put n name es m = ground (arith, get-put n name es m)

has-group_step :
    (h : Handle) (m m' : BySet) (a : Add) (name : Text) (key : List ℕ)
    → group_step h m a ≡ ok m'
    → has m' name key
      ≡ (has m name key || (text_eq a.set name && text_eq (as_slice (unmap a.ip)) key))
unfolding group_step
has-group_step h m m' a name key made =
    let es : List (List ℕ × ℕ) = elements_in a.set m ++ ((as_slice (unmap a.ip), a.ttl) ∷ []) in
    let same : m' ≡ put a.set es m = ground arith in
    rw (same, elements_in-put a.set name es m)
      (elim (Bool-cases (text_eq a.set name)) [
        | inl here ↦ rw here (
            any-append (λ e. text_eq e.0 key) (elements_in a.set m) _
            ∙ ground (arith, ap (λ n. has m n key) ((text_eq_iff a.set name).0 here)))
        | inr other ↦ rw other (ground arith)
      ])

has-each_ok :
    (h : Handle) (adds : List Add) (m m' : BySet) (name : Text) (key : List ℕ)
    → each_ok (group_step h) m adds ≡ ok m'
    → has m' name key ≡ (has m name key || wants adds name key)
unfolding each_ok
has-each_ok h [] m m' name key made = rw (← ok-injective made) (ground arith)
has-each_ok h (a ∷ adds) m m' name key made =
    let (next, here, later) = bind-eq-ok (group_step h m a) _ made in
    ground
      (arith, has-group_step h m next a name key here, has-each_ok h adds next m' name key later)

sends-append :
    (ms ns : List Message) (name : Text) (key : List ℕ)
    → sends (ms ++ ns) name key ≡ (sends ms name key || sends ns name key)
unfolding sends
sends-append [] ns name key = refl
sends-append (add_elements n es ∷ ms) ns name key = ground (arith, sends-append ms ns name key)
sends-append (_ ∷ ms) ns name key = sends-append ms ns name key

sends-each_ok :
    (sys : System) (m : BySet) (names : List Text) (h h' : Handle) (name : Text) (key : List ℕ)
    → each_ok (send_step sys m) h names ≡ ok h'
    → sends h'.messages name key
      ≡ (sends h.messages name key || (any (text_eq name) names && has m name key))
unfolding each_ok send_step sends
sends-each_ok sys m [] h h' name key made = rw (← ok-injective made) (ground arith)
sends-each_ok sys m (n ∷ names) h h' name key made =
    let (next, here, later) = bind-eq-ok (send_step sys m h n) _ made in
    let message : Message = add_elements n (elements_in n m) in
    let pushed : next.messages ≡ h.messages ++ (message ∷ []) = ground arith in
    sends-each_ok sys m names next h' name key later
    ∙ rw (pushed, sends-append h.messages (message ∷ []) name key)
        (elim (Bool-cases (text_eq n name)) [
          | inl same ↦
              (let e : n ≡ name = (text_eq_iff n name).0 same in
                ground (arith, (text_eq_iff name n).1 (sym e), ap (λ x. has m x key) e))
          | inr other ↦ ground (arith, text_eq_iff name n, text_eq_iff n name)
        ])

-- A key of the map that has elements is visited.
has-keys :
    (m : BySet) (name : Text) (key : List ℕ)
    → has m name key ≡ true
    → any (text_eq name) (map (λ e. e.0) m) ≡ true
unfolding get
has-keys [] name key h = cc
has-keys ((n, es) ∷ m) name key h =
    ground (arith, text_eq_iff n name, text_eq_iff name n, has-keys m name key)

-- Where AddAddrs succeeds, its batch puts an address into a set exactly when one of the additions does,
-- in whatever order the sets are visited.
pub add_addrs-sends :
    (sys : System) (h h' : Handle) (a : Add) (adds : List Add) (name : Text) (key : List ℕ)
    → ((names : List Text) → any (text_eq name) (sys.order names) ≡ any (text_eq name) names)
    → add_addrs sys h (a ∷ adds) ≡ ok h'
    → sends h'.messages name key ≡ wants (a ∷ adds) name key
unfolding add_addrs flush sends get
add_addrs-sends sys h h' a adds name key order made =
    let (m, grouped, then1) = bind-eq-ok (each_ok (group_step h) [] (a ∷ adds)) _ made in
    let blank : Handle = record h { messages = [] } in
    let (sent, sent_made, last) =
      bind-eq-ok (each_ok (send_step sys m) blank (sys.order (map (λ e. e.0) m))) _ then1 in
    let same : sent ≡ h' = ground arith in
    ap (λ x. sends x.messages name key) (sym same)
    ∙ sends-each_ok sys m (sys.order (map (λ e. e.0) m)) blank sent name key sent_made
    ∙ only (order (map (λ e. e.0) m)) (has-keys m name key)
        (has-each_ok h (a ∷ adds) [] m name key grouped)
  where
    only : {o k hs w : Bool} → o ≡ k → (hs ≡ true → k ≡ true) → hs ≡ w → (false || (o && hs)) ≡ w
    only same there e = ground arith
