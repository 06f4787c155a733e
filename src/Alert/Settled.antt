-- ===== src/Alert/Settled.antt =====
-- internal/alert/webhook.go, `Close`: nothing is left behind.
use egresswall.Common.{
  ℕ, ◌+◌, ◌<◌, Bool, true, false, Option, none, some, List, [], ◌∷◌, ◌≡◌, refl, arith, length,
  is_nil, Bool-cases, inl, inr, ◌⊎◌, ltb, length-append,
}
use egresswall.Text.{Text}
use egresswall.Alert.{
  Event, EventKey, Group, Payload, Webhook, start, attempts, payload, send, receive, take_event,
  tick, post, add_to_batch, add_all, close,
}
use egresswall.Alert.Ledger.{
  grouped, grouped_nil, grouped-add_to_batch, events_cases, delivered, lost, post_lem, Run, started,
  sent, received, ticked, run_ledger,
}

-- The channel has room for an event, and events were dropped only while others wait to be posted.
unfoldable pub IsNoted : Webhook → Type 0
IsNoted w = (0 < w.queue) × ((w.dropped ≡ 0) ⊎ (0 < length w.events + grouped w.batch))

start-IsNoted : (queue : ℕ) → IsNoted (start queue)
unfolding IsNoted start
start-IsNoted queue = (ground arith, inl refl)

send-IsNoted : (w : Webhook) (e : Event) → IsNoted w → IsNoted (send w e)
unfolding IsNoted send
send-IsNoted w e (room, noted) = elim (Bool-cases (ltb (length w.events) w.queue)) [
  | inl fits ↦ rw fits (room, inr (omega (arith, length-append w.events (e ∷ []))))
  | inr full ↦ rw full (room, inr (ground arith))
]

receive-IsNoted : (w : Webhook) → IsNoted w → IsNoted (receive w)
unfolding IsNoted receive
receive-IsNoted w (room, noted) = elim (events_cases w.events) [
  | inl none_left ↦ rw (none_left, receive, take_event) (room, noted)
  | inr (e, rest, h) ↦
      rw (h, receive, take_event) (room, inr (omega (arith, grouped-add_to_batch e w.batch)))
]

tick-IsNoted :
    (host : Text) (now : ℕ) (answers : ℕ → Bool) (w : Webhook)
    → IsNoted w
    → IsNoted (tick host now answers w).0
unfolding IsNoted tick post grouped
tick-IsNoted host now answers w (room, noted) = elim (Bool-cases (is_nil w.batch)) [
  | inl empty ↦ rw (empty, tick, post) (room, ground (arith, grouped_nil w.batch empty))
  | inr full ↦ rw (full, tick, post) (room, inl refl)
]

run-IsNoted : (w : Webhook) (n d l : ℕ) → Run w n d l → IsNoted w
run-IsNoted _ _ _ _ (started queue) = start-IsNoted queue
run-IsNoted _ _ _ _ (sent w e n d l r) = send-IsNoted w e (run-IsNoted w n d l r)
run-IsNoted _ _ _ _ (received w n d l r) = receive-IsNoted w (run-IsNoted w n d l r)
run-IsNoted _ _ _ _ (ticked w host now answers n d l r) =
    tick-IsNoted host now answers w (run-IsNoted w n d l r)

grouped-add_all :
    (es : List Event) (batch : List (EventKey × Group))
    → grouped (add_all es batch) ≡ length es + grouped batch
unfolding add_all
grouped-add_all [] batch = omega arith
grouped-add_all (e ∷ es) batch =
    omega (arith, grouped-add_all es (add_to_batch e batch), grouped-add_to_batch e batch)

dropped-post :
    (host : Text) (now : ℕ) (answers : ℕ → Bool) (w : Webhook)
    → (w.dropped ≡ 0) ⊎ (0 < grouped w.batch)
    → (post host now answers w).0.dropped ≡ 0
unfolding post
dropped-post host now answers w noted = elim (Bool-cases (is_nil w.batch)) [
  | inl empty ↦ rw (empty, post) (ground (arith, grouped_nil w.batch empty))
  | inr full ↦ rw (full, post) refl
]

-- A payload that arrived did so at the first or at the second attempt; for one that did not, the network
-- refused both.
abbrev pub IsAttempted : (ℕ → Bool) → Option (Payload × Bool) → Type 0
IsAttempted answers none = Unit
IsAttempted answers (some (p, true)) = (answers 0 ≡ true) ⊎ (answers 1 ≡ true)
IsAttempted answers (some (p, false)) = (answers 0 ≡ false) × (answers 1 ≡ false)

attempts-IsAttempted :
    (answers : ℕ → Bool) (p : Payload) → IsAttempted answers (some (p, attempts 2 answers 0))
unfolding attempts
attempts-IsAttempted answers p = elim (Bool-cases (answers 0)) [
  | inl first ↦ rw (first, attempts) (inl first)
  | inr failed ↦ elim (Bool-cases (answers 1)) [
    | inl second ↦ rw (failed, second, attempts) (inr second)
    | inr neither ↦ rw (failed, neither, attempts) (failed, neither)
  ]
]

post-IsAttempted :
    (host : Text) (now : ℕ) (answers : ℕ → Bool) (w : Webhook)
    → IsAttempted answers (post host now answers w).1
unfolding post
post-IsAttempted host now answers w = elim (Bool-cases (is_nil w.batch)) [
  | inl empty ↦ rw (empty, post) tt
  | inr full ↦ rw (full, post) (attempts-IsAttempted answers (payload host now w))
]

-- After any run of Send, the loop and the timer, Close leaves nothing behind: each event that was sent
-- is counted in a payload, by its group or as dropped, that arrived or that did not; and where Close
-- posts a payload, it arrived because one of two attempts did, or did not because both failed.
pub close_ledger :
    (host : Text) (now : ℕ) (answers : ℕ → Bool) (w : Webhook) (n d l : ℕ)
    → Run w n d l
    → let (after, out) = close host now answers w in
      ((d + delivered out) + (l + lost out) ≡ n) × IsAttempted answers out
unfolding close IsNoted
close_ledger host now answers w n d l r =
    let drained : Webhook = record w { events = []; batch = add_all w.events w.batch } in
    let (room, noted) = run-IsNoted w n d l r in
    let nothing : (post host now answers drained).0.dropped ≡ 0 =
      dropped-post host now answers drained (ground (arith, grouped-add_all w.events w.batch)) in
    (
      omega (
        arith,
        run_ledger w n d l r,
        post_lem host now answers drained,
        grouped-add_all w.events w.batch,
        nothing,
      ),
      post-IsAttempted host now answers drained,
    )
