-- ===== src/Alert/Ledger.antt =====
-- internal/alert/webhook.go: what becomes of the events that are sent.
use egresswall.Common.{
  ℕ, suc, ◌+◌, Bool, true, false, List, [], ◌∷◌, map, Option, none, some, ◌≡◌, refl, ap, if_both,
  ◌⊎◌, arith, is_nil, length, length-append, Option-cases, Bool-cases, inl, inr,
}
use egresswall.Common.Maps.{get, put}
use egresswall.Text.{Text}
use egresswall.Alert.{
  Event, EventKey, key, key_eq_iff, event_key, Group, Refusal, Payload, Webhook, start, send,
  add_to_batch, receive, take_event, refusal, insert_refusal, sort_refused, post, payload, attempts,
  tick,
}

-- How many events the groups of a batch stand for, and the refusals of a payload.
unfoldable pub grouped : List (EventKey × Group) → ℕ
grouped [] = 0
grouped ((k, g) ∷ batch) = g.count + grouped batch

unfoldable pub refused_count : List Refusal → ℕ
refused_count [] = 0
refused_count (r ∷ rs) = r.count + refused_count rs

grouped-put-none :
    (k : EventKey) (g : Group) (batch : List (EventKey × Group))
    → get k batch ≡ none
    → grouped (put k g batch) ≡ g.count + grouped batch
unfolding grouped get put
grouped-put-none k g [] h = refl
grouped-put-none k g ((j, f) ∷ batch) h = ground (arith, grouped-put-none k g batch, key_eq_iff j k)

grouped-put-some :
    (k : EventKey) (g f : Group) (batch : List (EventKey × Group))
    → get k batch ≡ some f
    → g.count ≡ f.count + 1
    → grouped (put k g batch) ≡ suc (grouped batch)
unfolding grouped get put
grouped-put-some k g f [] h more = ground arith
grouped-put-some k g f ((j, e) ∷ batch) h more =
    ground (arith, grouped-put-some k g f batch, key_eq_iff j k)

pub grouped-add_to_batch :
    (e : Event) (batch : List (EventKey × Group))
    → grouped (add_to_batch e batch) ≡ suc (grouped batch)
unfolding add_to_batch
grouped-add_to_batch e batch = elim (Option-cases (get (key e) batch)) [
  | inl h ↦
      rw (h, add_to_batch)
        (omega
          (arith, grouped-put-none (key e) (record { event = e; count = 1; last = e.at }) batch h))
  | inr (g, h) ↦
      rw (h, add_to_batch)
        (grouped-put-some (key e) (record g { count = g.count + 1; last = e.at }) g batch h refl)
]

refused_count-insert_refusal :
    (r : Refusal) (rs : List Refusal)
    → refused_count (insert_refusal r rs) ≡ r.count + refused_count rs
unfolding refused_count insert_refusal
refused_count-insert_refusal r [] = refl
refused_count-insert_refusal r (s ∷ rs) = ground (arith, refused_count-insert_refusal r rs)

refused_count-sort_refused :
    (rs : List Refusal) → refused_count (sort_refused rs) ≡ refused_count rs
unfolding refused_count sort_refused
refused_count-sort_refused [] = refl
refused_count-sort_refused (r ∷ rs) =
    omega (arith, refused_count-insert_refusal r (sort_refused rs), refused_count-sort_refused rs)

refused_count-refusal :
    (batch : List (EventKey × Group)) → refused_count (map refusal batch) ≡ grouped batch
unfolding refused_count refusal grouped
refused_count-refusal [] = refl
refused_count-refusal ((k, g) ∷ batch) = omega (arith, refused_count-refusal batch)

-- What the events of a payload and its count of dropped ones add up to, where it arrived, and where not.
payload_count : Payload → ℕ
payload_count p = p.dropped + refused_count p.refused

unfoldable pub delivered : Option (Payload × Bool) → ℕ
unfolding payload_count
delivered (some (p, true)) = payload_count p
delivered _ = 0

unfoldable pub lost : Option (Payload × Bool) → ℕ
unfolding payload_count
lost (some (p, false)) = payload_count p
lost _ = 0

payload_cases :
    (p : Payload) (arrived : Bool)
    → delivered (some (p, arrived)) + lost (some (p, arrived)) ≡ p.dropped + refused_count p.refused
unfolding delivered lost payload_count
payload_cases p true = omega arith
payload_cases p false = omega arith

pub grouped_nil : (batch : List (EventKey × Group)) → is_nil batch ≡ true → grouped batch ≡ 0
unfolding grouped
grouped_nil [] h = refl
grouped_nil (g ∷ batch) h = ground arith

pub post_lem :
    (host : Text) (now : ℕ) (answers : ℕ → Bool) (w : Webhook)
    → let (after, out) = post host now answers w in
      delivered out + lost out + after.dropped ≡ w.dropped + grouped w.batch
unfolding post payload delivered lost
post_lem host now answers w = elim (Bool-cases (is_nil w.batch)) [
  | inl empty ↦ rw empty (omega (arith, grouped_nil w.batch empty))
  | inr full ↦ rw full (
      omega (
        arith,
        payload_cases (payload host now w) (attempts 2 answers 0),
        refused_count-sort_refused (map refusal w.batch),
        refused_count-refusal w.batch,
      ))
]

-- What Send, the loop and the timer do, in any order: the webhook they make, and the counts of the
-- events sent, of those in payloads that arrived, and of those in payloads that did not.
pub data Run : Webhook → ℕ → ℕ → ℕ → Type 0 where
  started : (queue : ℕ) → Run (start queue) 0 0 0
  sent : (w : Webhook) (e : Event) (n d l : ℕ) → Run w n d l → Run (send w e) (n + 1) d l
  received : (w : Webhook) (n d l : ℕ) → Run w n d l → Run (receive w) n d l
  ticked :
      (w : Webhook) (host : Text) (now : ℕ) (answers : ℕ → Bool) (n d l : ℕ)
      → Run w n d l
      → Run
          (tick host now answers w).0
          n
          (d + delivered (tick host now answers w).1)
          (l + lost (tick host now answers w).1)

abbrev pending : Webhook → ℕ
pending w = length w.events + (grouped w.batch + w.dropped)

pending-send : (w : Webhook) (e : Event) → pending (send w e) ≡ pending w + 1
unfolding send
pending-send w e = ground (arith, length-append w.events (e ∷ []))

pub events_cases :
    (es : List Event) → (es ≡ []) ⊎ ((e : Event) × (rest : List Event) × (es ≡ e ∷ rest))
events_cases [] = inl refl
events_cases (e ∷ rest) = inr (e, rest, refl)

pending-receive : (w : Webhook) → pending (receive w) ≡ pending w
unfolding receive
pending-receive w = elim (events_cases w.events) [
  | inl none_left ↦ rw (none_left, receive, take_event) (rw none_left refl)
  | inr (e, rest, h) ↦ rw (h, receive, take_event) (omega (arith, grouped-add_to_batch e w.batch))
]

events-post :
    (host : Text) (now : ℕ) (answers : ℕ → Bool) (w : Webhook)
    → (post host now answers w).0.events ≡ w.events
unfolding post
events-post host now answers w =
    if_both (λ (r : Webhook × Option (Payload × Bool)). r.0.events ≡ w.events) (is_nil w.batch) refl
      refl

pending-tick :
    (host : Text) (now : ℕ) (answers : ℕ → Bool) (w : Webhook)
    → let (after, out) = tick host now answers w in
      delivered out + lost out + pending after ≡ pending w
unfolding tick grouped
pending-tick host now answers w =
    omega
      (arith, post_lem host now answers w, ap (λ es. length es) (events-post host now answers w))

-- In any run of Send, the loop and the timer, every event sent is counted once: in a payload that
-- arrived, in a payload that did not, in the channel, in the batch, or in the count of dropped ones.
pub run_ledger :
    (w : Webhook) (n d l : ℕ)
    → Run w n d l
    → d + l + (length w.events + (grouped w.batch + w.dropped)) ≡ n
unfolding start grouped
run_ledger _ _ _ _ (started queue) = refl
run_ledger _ _ _ _ (sent w e n d l r) = omega (arith, run_ledger w n d l r, pending-send w e)
run_ledger _ _ _ _ (received w n d l r) = omega (arith, run_ledger w n d l r, pending-receive w)
run_ledger _ _ _ _ (ticked w host now answers n d l r) =
    omega (arith, run_ledger w n d l r, pending-tick host now answers w)
