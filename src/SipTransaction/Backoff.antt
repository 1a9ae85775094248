-- ===== src/SipTransaction/Backoff.antt =====
-- sip_transaction.py: the retransmission interval of a client transaction.
use native.Mathlib.Nat.{pow-suc, mul_assoc}
use esphome_intercom.Prelude.{
  leb, Bool-cases, Option-cases, Text, ℕ, suc, ◌+◌, ◌*◌, ◌^◌, min, ◌≡◌, sym, ap, ◌∙◌, inl, inr,
  Bool, true, not, ◌||◌, some, List, [], ◌∷◌, arith,
}
use esphome_intercom.SipTransaction.{
  is_reliable, bad_timers, next_interval, SipClientTransaction, new_client_transaction, Turn,
  read_timeout, response_of, read_lasts, receive,
}

-- The interval after k retransmissions, and none of them on a reliable transport.
pub record Backs (t1 t2 : ℕ) (reliable : Bool) (c : SipClientTransaction) : Type 0 where
  pub interval_is : c.interval ≡ min (t1 * 2 ^ c.retransmissions) t2
  pub t2_is : c.t2 ≡ t2
  pub reliable_is : c.reliable ≡ reliable
  pub silent : reliable ≡ true → c.retransmissions ≡ 0

doubled : (t1 t2 k : ℕ) → min (min (t1 * 2 ^ k) t2 * 2) t2 ≡ min (t1 * 2 ^ suc k) t2
doubled t1 t2 k =
    let e : t1 * 2 ^ suc k ≡ t1 * 2 ^ k * 2 =
      ap (λ p. t1 * p) (pow-suc 2 k) ∙ sym (mul_assoc t1 (2 ^ k) 2) in
    rw e (ground arith)

next : (k : ℕ) → suc k ≡ k + 1
next k = omega arith

Backs-next :
    (t1 t2 : ℕ) (reliable : Bool) (c : SipClientTransaction) (sent : ℕ)
    → Backs t1 t2 reliable c
    → (reliable ≡ true → c.retransmissions + 1 ≡ 0)
    → Backs t1 t2 reliable (record c {
      retransmissions = c.retransmissions + 1;
      interval = next_interval c.t2 c.interval;
      next_retransmit = sent + next_interval c.t2 c.interval;
    })
unfolding next_interval
Backs-next t1 t2 reliable c sent b silent = record {
  interval_is =
      ap (λ i. min (i * 2) c.t2) b.interval_is
      ∙ ap (λ u. min (min (t1 * 2 ^ c.retransmissions) t2 * 2) u) b.t2_is
      ∙ doubled t1 t2 c.retransmissions
      ∙ ap (λ k. min (t1 * 2 ^ k) t2) (next c.retransmissions);
  t2_is = b.t2_is;
  reliable_is = b.reliable_is;
  silent = silent;
}

receive-Backs :
    (t1 t2 : ℕ) (reliable enabled : Bool) (turns : List Turn) (now : ℕ) (c : SipClientTransaction)
    → Backs t1 t2 reliable c
    → Backs t1 t2 reliable (receive enabled turns now c).1
unfolding receive
receive-Backs t1 t2 reliable enabled [] now c b = b
receive-Backs t1 t2 reliable enabled (turn ∷ turns) now c b =
    let before = now + turn.before in
    let behind = before + read_lasts turn.read_end (read_timeout enabled c before) in
    elim (Bool-cases (leb c.deadline before)) [
      | inl late ↦ simp late b
      | inr early ↦ elim (Option-cases (response_of turn.read_end)) [
        | inr (r, e) ↦ simp (early, e) b
        | inl e ↦ elim (Bool-cases (c.reliable || not enabled || leb c.deadline behind)) [
          | inl stop ↦ simp (early, e, stop) b
          | inr go ↦
              simp (early, e, go)
                (receive-Backs t1 t2 reliable enabled turns (behind + turn.sending) _ (
                  Backs-next t1 t2 reliable c (behind + turn.sending) b
                    (λ r. absurd (ground (arith, go, r, b.reliable_is)))))
        ]
      ]
    ]

-- The transaction behind a sequence of calls of `receive`.
unfoldable pub receive_all :
    List (Bool × ℕ × List Turn) → SipClientTransaction → SipClientTransaction
receive_all [] c = c
receive_all ((enabled, now, turns) ∷ calls) c = receive_all calls (receive enabled turns now c).1

receive_all-Backs :
    (t1 t2 : ℕ) (reliable : Bool) (calls : List (Bool × ℕ × List Turn)) (c : SipClientTransaction)
    → Backs t1 t2 reliable c
    → Backs t1 t2 reliable (receive_all calls c)
unfolding receive_all
receive_all-Backs t1 t2 reliable [] c b = b
receive_all-Backs t1 t2 reliable ((enabled, now, turns) ∷ calls) c b =
    receive_all-Backs t1 t2 reliable calls (receive enabled turns now c).1
      (receive-Backs t1 t2 reliable enabled turns now c b)

-- After any calls of receive on a new client transaction its interval is t1 doubled with each
-- retransmission up to t2, and on a reliable transport nothing was retransmitted.
pub new_client_transaction-Backs :
    (transport : Text) (timeout t1 t2 now : ℕ) (c : SipClientTransaction)
    (calls : List (Bool × ℕ × List Turn))
    → new_client_transaction transport timeout t1 t2 now ≡ some c
    → Backs t1 t2 (is_reliable transport) (receive_all calls c)
unfolding new_client_transaction bad_timers
new_client_transaction-Backs transport timeout t1 t2 now c calls h =
    receive_all-Backs t1 t2 (is_reliable transport) calls c (record {
      interval_is = ground (arith, h);
      t2_is = ground (arith, h);
      reliable_is = ground (arith, h);
      silent = λ r. ground (arith, h);
    })
