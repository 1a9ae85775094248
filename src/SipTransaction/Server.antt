-- ===== src/SipTransaction/Server.antt =====
-- sip_transaction.py: `async_run_server_transaction`.
use native.Mathlib.Nat.{suc-mul}
use esphome_intercom.Prelude.{
  leb, if◌then◌else◌, Bool-cases, length, Text, ℕ, ◌+◌, ◌*◌, ◌≤◌, ◌<◌, ◌≡◌, refl, ap, inl, inr,
  Bool, true, false, not, ◌&&◌, ◌||◌, some, List, [], ◌∷◌, arith,
}
use esphome_intercom.SipTransaction.{
  is_reliable, bad_timers, next_interval, Tick, ServerTransactionResult, ended, sleeping, slept,
  server_loop, run_server_transaction,
}

abbrev is_sleeping : ServerTransactionResult → Bool
is_sleeping sleeping = true
is_sleeping (ended n late) = false

next_interval-le : (t1 t2 interval : ℕ) → t1 ≤ t2 → t1 ≤ interval → t1 ≤ next_interval t2 interval
unfolding next_interval
next_interval-le t1 t2 interval h k = ground arith

-- A sleep that ends before the deadline has lasted as long as it was asked to.
slept-ge :
    (deadline interval now overslept : ℕ)
    → slept deadline interval now overslept < deadline
    → now + interval ≤ slept deadline interval now overslept
unfolding slept
slept-ge deadline interval now overslept early = ground (arith, early)

server_loop-ends :
    (deadline t1 t2 : ℕ) (resends : Bool) (ticks : List Tick) (now interval n : ℕ)
    → t1 ≤ t2
    → t1 ≤ interval
    → now ≤ deadline
    → deadline < now + length ticks * t1
    → is_sleeping (server_loop deadline t2 resends ticks now interval n) ≡ false
unfolding server_loop
server_loop-ends deadline t1 t2 resends [] now interval n h k o few = absurd (omega (arith, o, few))
server_loop-ends deadline t1 t2 resends (tick ∷ ticks) now interval n h k o few =
    let after = slept deadline interval (now + tick.passed) tick.overslept in
    elim (Bool-cases (leb deadline (now + tick.passed) || leb deadline after)) [
      | inl over ↦ ground (arith, over)
      | inr early ↦
          let soon : after < deadline = ground (arith, early) in
          ground (
            arith,
            server_loop-ends deadline t1 t2 resends ticks after
                (if resends then next_interval t2 interval else interval)
                (if resends && tick.sent then n + 1 else n) h
                (ground (arith, next_interval-le t1 t2 interval h k)) (omega (arith, soon))
                (omega (
                  arith,
                  few,
                  k,
                  slept-ge deadline interval (now + tick.passed) tick.overslept soon,
                  suc-mul (length ticks) t1,
                )),
          )
    ]

result-cases :
    (r : ServerTransactionResult)
    → is_sleeping r ≡ false
    → (n : ℕ) × (late : Bool) × (r ≡ ended n late)
result-cases sleeping h = absurd (ground (arith, h))
result-cases (ended n late) h = (n, late, refl)

-- With accepted timers, however long the environment takes between two sleeps and whatever it
-- answers, a server transaction ends with a result once t1 times the number of its turns passes its
-- timeout.
pub run_server_transaction-ends :
    (transport : Text) (timeout t1 t2 : ℕ) (retransmit_reliable : Bool) (now : ℕ)
    (ticks : List Tick)
    → bad_timers t1 t2 ≡ false
    → timeout < length ticks * t1
    → (n : ℕ) × (late : Bool) × (run_server_transaction transport timeout t1 t2 retransmit_reliable
          now ticks
        ≡ some (ended n late))
unfolding run_server_transaction bad_timers
run_server_transaction-ends transport timeout t1 t2 retransmit_reliable now ticks good few =
    let resends = not (is_reliable transport) || retransmit_reliable in
    let (n, late, e) = result-cases (server_loop (now + timeout) t2 resends ticks now t1 0) (
      server_loop-ends (now + timeout) t1 t2 resends ticks now t1 0 (ground (arith, good))
        (omega arith) (omega arith) (omega (arith, few))) in
    (n, late, simp good (ap some e))

server_loop-le :
    (deadline t2 : ℕ) (resends : Bool) (ticks : List Tick) (now interval n m : ℕ) (late : Bool)
    → server_loop deadline t2 resends ticks now interval n ≡ ended m late
    → m ≤ n + length ticks
unfolding server_loop
server_loop-le deadline t2 resends [] now interval n m late h = absurd (ground (arith, h))
server_loop-le deadline t2 resends (tick ∷ ticks) now interval n m late h = ground (
  arith,
  h,
  server_loop-le deadline t2 resends ticks
      (slept deadline interval (now + tick.passed) tick.overslept)
      (if resends then next_interval t2 interval else interval)
      (if resends && tick.sent then n + 1 else n) m late,
)

server_loop_silent :
    (deadline t2 : ℕ) (ticks : List Tick) (now interval n m : ℕ) (late : Bool)
    → server_loop deadline t2 false ticks now interval n ≡ ended m late
    → m ≡ n
unfolding server_loop
server_loop_silent deadline t2 [] now interval n m late h = absurd (ground (arith, h))
server_loop_silent deadline t2 (tick ∷ ticks) now interval n m late h = ground (
  arith,
  h,
  server_loop_silent deadline t2 ticks (slept deadline interval (now + tick.passed) tick.overslept)
      interval n m late,
)

-- A server transaction counts at most one retransmission for each of its turns, and none on a
-- reliable transport without retransmit_reliable.
pub run_server_transaction-le :
    (transport : Text) (timeout t1 t2 : ℕ) (retransmit_reliable : Bool) (now : ℕ)
    (ticks : List Tick) (n : ℕ) (late : Bool)
    → run_server_transaction transport timeout t1 t2 retransmit_reliable now ticks
      ≡ some (ended n late)
    → (n ≤ length ticks) × ((is_reliable transport && not retransmit_reliable) ≡ true → n ≡ 0)
unfolding run_server_transaction
run_server_transaction-le transport timeout t1 t2 retransmit_reliable now ticks n late h =
    let resends = not (is_reliable transport) || retransmit_reliable in
    let looped : server_loop (now + timeout) t2 resends ticks now t1 0 ≡ ended n late =
      ground (arith, h) in
    (
      omega (arith, server_loop-le (now + timeout) t2 resends ticks now t1 0 n late looped),
      λ silent.
          ground
            (arith, looped, silent, server_loop_silent (now + timeout) t2 ticks now t1 0 n late),
    )
