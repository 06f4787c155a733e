-- ===== src/Alert.antt =====
-- internal/alert/alert.go and webhook.go: refusals, coalesced and posted to a webhook.
-- The channel is a list with a bound; a step of the loop is a function. The network's answers to the
-- attempts of a post are an argument, and so are the host name and the time. A post is one step: what
-- Send does meanwhile touches nothing that the post reads again. The JSON encoding does not fail.
pub mod Ledger
pub mod Settled
mod Tests
use egresswall.Common.{
  ℕ, zero, suc, ◌+◌, Bool, true, false, not, ◌&&◌, ◌||◌, List, [], ◌∷◌, ◌++◌, map, Option, none,
  some, ◌≡◌, ◌↔◌, ltb, ◌==◌, if◌then◌else◌, is_nil, length, Key, arith,
}
use egresswall.Common.Maps.{get, put}
use egresswall.Text.{Text, codes, text_eq, text_eq_iff, text_lt}
use egresswall.Netip.{Addr, addr_eq, addr_eq_iff}
use egresswall.Netip.Show.{addr_text}

pub record Event : Type 0 where
  pub at : ℕ
  pub rule : Text
  pub host : Text
  pub ip : Addr
  pub port : ℕ
  pub proto : Text
  pub cgroup : Text

pub record EventKey : Type 0 where
  pub rule : Text
  pub host : Text
  pub cgroup : Text
  pub ip : Addr
  pub port : ℕ
  pub proto : Text

unfoldable pub key : Event → EventKey
key e = record {
  rule = e.rule;
  host = e.host;
  cgroup = e.cgroup;
  ip = e.ip;
  port = e.port;
  proto = e.proto;
}

abbrev pub key_eq : EventKey → EventKey → Bool
key_eq a b =
    (text_eq a.rule b.rule && (text_eq a.host b.host && text_eq a.cgroup b.cgroup))
    && (addr_eq a.ip b.ip && (a.port == b.port && text_eq a.proto b.proto))

pub key_eq_iff : (a b : EventKey) → (key_eq a b ≡ true) ↔ (a ≡ b)
key_eq_iff a b = ground (
  arith,
  text_eq_iff a.rule b.rule,
  text_eq_iff a.host b.host,
  text_eq_iff a.cgroup b.cgroup,
  addr_eq_iff a.ip b.ip,
  text_eq_iff a.proto b.proto,
)

instance abbrev pub event_key : Key EventKey
event_key = record { same = key_eq; same_iff = key_eq_iff }

pub record Group : Type 0 where
  pub event : Event
  pub count : ℕ
  pub last : ℕ

pub record Refusal : Type 0 where
  pub first : ℕ
  pub last : ℕ
  pub count : ℕ
  pub rule : Text
  pub host : Text
  pub ip : Text
  pub port : ℕ
  pub proto : Text
  pub cgroup : Text

pub record Payload : Type 0 where
  pub source : Text
  pub host : Text
  pub sent : ℕ
  pub dropped : ℕ
  pub refused : List Refusal

-- The channel with its capacity, the count of what it did not take, and the batch of the loop.
pub record Webhook : Type 0 where
  pub queue : ℕ
  pub events : List Event
  pub dropped : ℕ
  pub batch : List (EventKey × Group)

abbrev pub default_queue : ℕ
default_queue = 2048

unfoldable pub start : ℕ → Webhook
start queue = record {
  queue = if queue == 0 then default_queue else queue;
  events = [];
  dropped = 0;
  batch = [];
}

unfoldable pub send : Webhook → Event → Webhook
send w e =
    if ltb (length w.events) w.queue
    then record w { events = w.events ++ (e ∷ []) }
    else record w { dropped = w.dropped + 1 }

unfoldable pub add_to_batch : Event → List (EventKey × Group) → List (EventKey × Group)
unfolding key
add_to_batch e batch = elim (get (key e) batch) [
  | some g ↦ put (key e) (record g { count = g.count + 1; last = e.at }) batch
  | none ↦ put (key e) (record { event = e; count = 1; last = e.at }) batch
]

-- The loop takes the next event from the channel, where there is one.
unfoldable pub take_event : Webhook → List Event → Webhook
take_event w [] = w
take_event w (e ∷ rest) = record w { events = rest; batch = add_to_batch e w.batch }

unfoldable pub receive : Webhook → Webhook
unfolding take_event
receive w = take_event w w.events

unfoldable pub refusal : EventKey × Group → Refusal
refusal (k, g) = record {
  first = g.event.at;
  last = g.last;
  count = g.count;
  rule = g.event.rule;
  host = g.event.host;
  ip = addr_text g.event.ip;
  port = g.event.port;
  proto = g.event.proto;
  cgroup = g.event.cgroup;
}

-- The order of the payload: more attempts first, then by the text of the address.
unfoldable pub goes_first : Refusal → Refusal → Bool
goes_first a b = if a.count == b.count then text_lt a.ip b.ip else ltb b.count a.count

unfoldable pub insert_refusal : Refusal → List Refusal → List Refusal
insert_refusal r [] = r ∷ []
insert_refusal r (s ∷ rs) =
    let rest = insert_refusal r rs in if goes_first s r then s ∷ rest else r ∷ s ∷ rs

unfoldable pub sort_refused : List Refusal → List Refusal
sort_refused [] = []
sort_refused (r ∷ rs) = insert_refusal r (sort_refused rs)

-- At most two attempts, the second where the first fails.
unfoldable pub attempts : ℕ → (ℕ → Bool) → ℕ → Bool
attempts zero answers i = false
attempts (suc n) answers i =
    let again = attempts n answers (i + 1) in if answers i then true else again

unfoldable pub payload : Text → ℕ → Webhook → Payload
payload host now w = record {
  source = codes "egresswall";
  host = host;
  sent = now;
  dropped = w.dropped;
  refused = sort_refused (map refusal w.batch);
}

-- The webhook behind a post, the payload where the batch is not empty, and whether it arrived.
unfoldable pub post : Text → ℕ → (ℕ → Bool) → Webhook → Webhook × Option (Payload × Bool)
post host now answers w =
    if is_nil w.batch
    then (w, none)
    else (record w { dropped = 0 }, some (payload host now w, attempts 2 answers 0))

-- The timer: the batch is posted and begins anew.
unfoldable pub tick : Text → ℕ → (ℕ → Bool) → Webhook → Webhook × Option (Payload × Bool)
tick host now answers w =
    let (posted, out) = post host now answers w in (record posted { batch = [] }, out)

unfoldable pub add_all : List Event → List (EventKey × Group) → List (EventKey × Group)
add_all [] batch = batch
add_all (e ∷ es) batch = add_all es (add_to_batch e batch)

-- Close: the loop takes what is left in the channel, posts the batch and ends.
unfoldable pub close : Text → ℕ → (ℕ → Bool) → Webhook → Webhook × Option (Payload × Bool)
close host now answers w =
    post host now answers (record w { events = []; batch = add_all w.events w.batch })
