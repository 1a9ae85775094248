-- ===== src/SipTransaction/Examples.antt =====
-- sip_transaction.py: the theorems of SipTransaction at concrete timers.
use esphome_intercom.SipTransaction.{
  is_reliable, bad_timers, SipClientTransaction, new_client_transaction, answers, expires, Turn,
  receive, Tick, ended, run_server_transaction,
}
use esphome_intercom.Prelude.{
  length, codes, eq_text, upper, ℕ, ◌≤◌, ◌≡◌, refl, Bool, true, false, not, ◌&&◌, some, List, [],
  ◌∷◌, arith,
}
use esphome_intercom.SipTransaction.Backoff.{Backs, receive_all, new_client_transaction-Backs}
use esphome_intercom.SipTransaction.Server.{run_server_transaction-ends, run_server_transaction-le}

-- No ACK comes: the timer runs over the whole timeout of 25 ticks.
abbrev tick : ℕ → Tick
tick overslept = record {
  active_before = true;
  passed = 0;
  active_after = true;
  overslept = overslept;
  sent = true;
}

abbrev ticks : List Tick
ticks = tick 0 ∷ tick 1 ∷ tick 0 ∷ tick 0 ∷ tick 0 ∷ tick 0 ∷ []

accepted_timers : bad_timers 5 40 ≡ false
unfolding bad_timers
accepted_timers = refl

run_server_transaction-ends_example :
    (n : ℕ) × (late : Bool) × (run_server_transaction (codes "udp") 25 5 40 false 100 ticks
      ≡ some (ended n late))
run_server_transaction-ends_example =
    run_server_transaction-ends (codes "udp") 25 5 40 false 100 ticks accepted_timers (omega arith)

sends_twice : run_server_transaction (codes "udp") 25 5 40 false 100 ticks ≡ some (ended 2 true)
unfolding run_server_transaction upper eq_text
sends_twice = refl

run_server_transaction-le_example :
    (2 ≤ length ticks) × ((is_reliable (codes "udp") && not false) ≡ true → ◌≡◌ {A = ℕ} 2 0)
run_server_transaction-le_example =
    run_server_transaction-le (codes "udp") 25 5 40 false 100 ticks 2 true sends_twice

abbrev client : SipClientTransaction
client = record {
  reliable = false;
  t1 = 5;
  t2 = 40;
  deadline = 420;
  interval = 5;
  next_retransmit = 105;
  retransmissions = 0;
}

opens_client : new_client_transaction (codes "udp") 320 5 40 100 ≡ some client
unfolding new_client_transaction upper eq_text
opens_client = refl

-- At ticks 105 and 115 a read times out, then a response comes.
abbrev calls : List (Bool × ℕ × List Turn)
calls =
    (
      true,
      100,
      record { before = 0; read_end = expires 0; sending = 0 }
          ∷ record { before = 0; read_end = expires 0; sending = 1 }
          ∷ record { before = 0; read_end = answers 180 1; sending = 0 }
          ∷ [],
    )
    ∷ []

twice_as_long :
    receive_all calls client
    ≡ record client { interval = 20; next_retransmit = 136; retransmissions = 2 }
unfolding receive_all receive
twice_as_long = refl

new_client_transaction-Backs_example :
    Backs 5 40 (is_reliable (codes "udp")) (receive_all calls client)
new_client_transaction-Backs_example =
    new_client_transaction-Backs (codes "udp") 320 5 40 100 client calls opens_client
