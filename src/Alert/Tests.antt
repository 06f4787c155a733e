-- ===== src/Alert/Tests.antt =====
-- A webhook whose channel takes one event, and instances of the theorems.
use egresswall.Common.{ℕ, zero, suc, ◌+◌, Bool, true, false, [], ◌≡◌, length}
use egresswall.Text.{codes}
use egresswall.Netip.{v4}
use egresswall.Alert.{Event, Webhook, start, send, receive, close}
use egresswall.Alert.Ledger.{Run, started, sent, received, delivered, lost, grouped, run_ledger}
use egresswall.Alert.Settled.{IsAttempted, close_ledger}

abbrev refusal_at : ℕ → Event
refusal_at at = record {
  at = at;
  rule = codes "metadata";
  host = [];
  ip = v4 0xa9fea9fe;
  port = 80;
  proto = codes "tcp";
  cgroup = [];
}

-- One event in the batch, one in the channel and one dropped.
abbrev busy : Webhook
busy = send (send (receive (send (start 1) (refusal_at 1))) (refusal_at 2)) (refusal_at 3)

abbrev busy_run : Run busy 3 0 0
busy_run =
    sent _ (refusal_at 3) _ _ _
      (sent _ (refusal_at 2) _ _ _ (received _ _ _ _ (sent _ (refusal_at 1) _ _ _ (started 1))))

abbrev refuses_once : ℕ → Bool
refuses_once zero = false
refuses_once (suc n) = true

run_ledger_example : 0 + 0 + (length busy.events + (grouped busy.batch + busy.dropped)) ≡ 3
run_ledger_example = run_ledger busy 3 0 0 busy_run

close_ledger_example :
    let (after, out) = close (codes "db-1") 9 refuses_once busy in
    ((0 + delivered out) + (0 + lost out) ≡ 3) × IsAttempted refuses_once out
close_ledger_example = close_ledger (codes "db-1") 9 refuses_once busy 3 0 0 busy_run
