-- ===== src/SipTransaction.antt =====
-- custom_components/voip_stack/sip_transaction.py: the retransmission timers of SIP transactions.
-- Times are whole ticks of the event loop's clock. What the transport and the clock answer in each
-- turn of a loop is the environment's; a list of turns that is used up leaves the loop waiting.
pub mod Server
pub mod Backoff
pub mod Examples
use esphome_intercom.Prelude.{
  ltb, leb, ◌==◌, if◌then◌else◌, Text, codes, eq_text, or_text, upper, ℕ, ◌+◌, ◌-◌, ◌*◌, min, Bool,
  true, false, not, ◌&&◌, ◌||◌, Option, none, some, List, [], ◌∷◌,
}

-- str(transport or "UDP").upper() in {"TCP", "TLS", "WS", "WSS"}
unfoldable pub is_reliable : Text → Bool
is_reliable transport =
    let name = upper (or_text transport (codes "UDP")) in
    eq_text name (codes "TCP")
    || eq_text name (codes "TLS")
    || eq_text name (codes "WS")
    || eq_text name (codes "WSS")

-- float(t1) <= 0 or float(t2) < float(t1); a number of ticks is not negative
unfoldable pub bad_timers : ℕ → ℕ → Bool
bad_timers t1 t2 = t1 == 0 || ltb t2 t1

-- interval = min(interval * 2.0, t2)
unfoldable pub next_interval : ℕ → ℕ → ℕ
next_interval t2 interval = min (interval * 2) t2

-- SipClientTransaction
pub record SipClientTransaction : Type 0 where
  pub reliable : Bool
  pub t1 : ℕ
  pub t2 : ℕ
  pub deadline : ℕ
  pub interval : ℕ
  pub next_retransmit : ℕ
  pub retransmissions : ℕ

unfoldable pub new_client_transaction : Text → ℕ → ℕ → ℕ → ℕ → Option SipClientTransaction
unfolding is_reliable bad_timers
new_client_transaction transport timeout t1 t2 now =
    if bad_timers t1 t2
    then none
    else some (record {
      reliable = is_reliable transport;
      t1 = t1;
      t2 = t2;
      deadline = now + timeout;
      interval = t1;
      next_retransmit = now + t1;
      retransmissions = 0;
    })

unfoldable pub remaining : SipClientTransaction → ℕ → ℕ
remaining c now = c.deadline - now

unfoldable pub restart_retransmissions : SipClientTransaction → ℕ → SipClientTransaction
restart_retransmissions c now = record c { interval = c.t1; next_retransmit = now + c.t1 }

-- How a read ends: with a response after some time, with nothing after some time, or with the
-- timeout that it was given, which it overshoots.
pub data ReadEnd : Type 0 where
  answers : ℕ → ℕ → ReadEnd
  returns_nothing : ℕ → ReadEnd
  expires : ℕ → ReadEnd

-- What happens in one turn of `receive`: the time that passes before the read, the read, and the time
-- that the retransmission takes.
pub record Turn : Type 0 where
  pub before : ℕ
  pub read_end : ReadEnd
  pub sending : ℕ

-- The time that a turn gives its reader.
unfoldable pub read_timeout : Bool → SipClientTransaction → ℕ → ℕ
read_timeout enabled c now =
    if not c.reliable && enabled
    then min (c.deadline - now) (c.next_retransmit - now)
    else c.deadline - now

pub data Received : Type 0 where
  received : Option ℕ → Received
  reading : Received

unfoldable pub response_of : ReadEnd → Option ℕ
response_of (answers response after) = some response
response_of (returns_nothing after) = none
response_of (expires overshoot) = none

-- How long a read lasts that was given `timeout`.
unfoldable pub read_lasts : ReadEnd → ℕ → ℕ
read_lasts (answers response after) timeout = after
read_lasts (returns_nothing after) timeout = after
read_lasts (expires overshoot) timeout = timeout + overshoot

-- receive, from the time `now` on: the result, and the transaction behind it.
unfoldable pub receive :
    Bool → List Turn → ℕ → SipClientTransaction → Received × SipClientTransaction
unfolding next_interval read_timeout read_lasts response_of
receive enabled [] now c = (reading, c)
receive enabled (turn ∷ turns) now c =
    let before = now + turn.before in
    let behind = before + read_lasts turn.read_end (read_timeout enabled c before) in
    let sent = behind + turn.sending in
    let interval = next_interval c.t2 c.interval in
    let later = receive enabled turns sent (record c {
      retransmissions = c.retransmissions + 1;
      interval = interval;
      next_retransmit = sent + interval;
    }) in
    if leb c.deadline before then (received none, c) else elim (response_of turn.read_end) [
      | some response ↦ (received (some response), c)
      | none ↦
          if c.reliable || not enabled || leb c.deadline behind then (received none, c) else later
    ]

-- One turn of `async_run_server_transaction`: `active` before the sleep and behind it, the time that
-- passes before the sleep, by how much the sleep lasts longer than it is asked to, and whether `send`
-- sent.
pub record Tick : Type 0 where
  pub active_before : Bool
  pub passed : ℕ
  pub active_after : Bool
  pub overslept : ℕ
  pub sent : Bool

pub data ServerTransactionResult : Type 0 where
  ended : ℕ → Bool → ServerTransactionResult
  sleeping : ServerTransactionResult

-- The clock behind `asyncio.sleep(min(interval, remaining))`, begun at `now`.
unfoldable pub slept : ℕ → ℕ → ℕ → ℕ → ℕ
slept deadline interval now overslept = now + min interval (deadline - now) + overslept

-- The loop, from the time `now` on.
unfoldable pub server_loop : ℕ → ℕ → Bool → List Tick → ℕ → ℕ → ℕ → ServerTransactionResult
unfolding next_interval slept
server_loop deadline t2 resends [] now interval retransmissions = sleeping
server_loop deadline t2 resends (tick ∷ ticks) now interval retransmissions =
    let before = now + tick.passed in
    let after = slept deadline interval before tick.overslept in
    let rest =
      server_loop deadline t2 resends ticks after
        (if resends then next_interval t2 interval else interval)
        (if resends && tick.sent then retransmissions + 1 else retransmissions) in
    if not tick.active_before
    then ended retransmissions false
    else if leb deadline before
    then ended retransmissions true
    else if not tick.active_after
    then ended retransmissions false
    else if leb deadline after
    then ended retransmissions true
    else rest

-- `none` is its ValueError.
unfoldable pub run_server_transaction :
    Text → ℕ → ℕ → ℕ → Bool → ℕ → List Tick → Option ServerTransactionResult
unfolding is_reliable bad_timers server_loop
run_server_transaction transport timeout t1 t2 retransmit_reliable now ticks =
    if bad_timers t1 t2
    then none
    else some (
        server_loop (now + timeout) t2 (not (is_reliable transport) || retransmit_reliable) ticks
          now t1 0)
