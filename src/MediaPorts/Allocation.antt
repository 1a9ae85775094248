-- ===== src/MediaPorts/Allocation.antt =====
-- media_ports.py: the allocation of a pair, in a pool with room and without.
use esphome_intercom.Prelude.{
  ℕ, zero, suc, ◌+◌, ◌-◌, ◌*◌, ◌/◌, ◌<◌, ◌≡◌, ◌≢◌, refl, sym, ◌∙◌, Bool, true, false, arith, leb,
  if◌then◌else◌, ◌⊎◌, inl, inr, Bool-cases, Option, none, some, List, ◌∷◌, max,
}
use esphome_intercom.MediaPorts.{
  PoolBounds, PortPool, pool_exhausted, ok, err, takes, scan, relay_pool, wrap_pool_port,
  allocate_sip_rtp_port_pair,
}
use esphome_intercom.MediaPorts.Wrap.{IsPool, IsSlot, wrap_pool_port-IsSlot, wrap_next}

-- The pool that `_relay_pool` finds lies on even ports between 1 and 65534 and holds two pairs or more.
relay_pool-IsPool :
    (rtp_port : ℕ) (pool : Option PortPool) (p : PortPool) (b : PoolBounds)
    → relay_pool rtp_port pool ≡ ok (p, b)
    → IsPool b
unfolding relay_pool
relay_pool-IsPool rtp_port none p b h = ground arith
relay_pool-IsPool rtp_port (some q) p b h = ground arith

-- What a caller may rely on.
pub record IsPair (binds : ℕ → Bool) (b : PoolBounds) (used : List ℕ) (first second : ℕ)
    : Type 0 where
  pub first_slot : IsSlot b first
  pub second_slot : IsSlot b second
  pub distinct : first ≢ second
  pub free : takes binds used first second ≡ true

next_ne :
    (b : PoolBounds) (port : ℕ) → IsPool b → IsSlot b port → port ≢ wrap_pool_port (port + 2) b 2
next_ne b port p s = rw (wrap_next b port p s) (ground arith)

scan-IsPair :
    (binds : ℕ → Bool) (b : PoolBounds) (used : List ℕ) (attempts candidate first second : ℕ)
    (q : PortPool)
    → IsPool b
    → IsSlot b candidate
    → scan binds b 2 used attempts candidate ≡ ok (first, second, q)
    → IsPair binds b used first second × (q.used ≡ second ∷ first ∷ used)
unfolding scan
scan-IsPair binds b used zero candidate first second q p s h = absurd (ground arith)
scan-IsPair binds b used (suc n) candidate first second q p s h =
    let following = wrap_pool_port-IsSlot b (candidate + 2) p in
    elim (Bool-cases (takes binds used candidate (wrap_pool_port (candidate + 2) b 2))) [
      | inl e ↦
          let f : first ≡ candidate = ground (arith, e) in
          let t : second ≡ wrap_pool_port (candidate + 2) b 2 = ground (arith, e) in
          let u : q.used ≡ second ∷ first ∷ used = ground (arith, e) in
          (
            rw (f, t)
                (record {
                  first_slot = s;
                  second_slot = following;
                  distinct = next_ne b candidate p s;
                  free = e;
                }),
            u,
          )
      | inr e ↦ scan-IsPair binds b used n _ first second q p following (ground (arith, e))
    ]

-- The pair that begins at the k-th slot.
abbrev pub slot : PoolBounds → ℕ → ℕ
slot b k = b.base + 2 * k

abbrev pub slots : PoolBounds → ℕ
slots b = (b.end - b.base) / 2

slot-IsSlot : (b : PoolBounds) (k : ℕ) → k < slots b → IsSlot b (slot b k)
slot-IsSlot b k h = record { above = omega arith; below = omega arith; aligned = omega arith }

-- The slot behind the k-th, around the end of the pool.
abbrev after : PoolBounds → ℕ → ℕ
after b k = if leb (slots b) (k + 1) then 0 else k + 1

next-slot :
    (b : PoolBounds) (k : ℕ)
    → IsPool b
    → k < slots b
    → wrap_pool_port (slot b k + 2) b 2 ≡ slot b (after b k)
next-slot b k p h = rw (wrap_next b (slot b k) p (slot-IsSlot b k h)) (ground arith)

abbrev round : PoolBounds → ℕ → ℕ
round b k = if leb (slots b) k then k - slots b else k

-- A scan that fails has refused every slot that it has come by.
scan_refused :
    (binds : ℕ → Bool) (b : PoolBounds) (used : List ℕ) (attempts k j : ℕ)
    → IsPool b
    → k < slots b
    → scan binds b 2 used attempts (slot b k) ≡ err pool_exhausted
    → j < attempts
    → j < slots b
    → takes binds used
        (slot b (round b (k + j)))
        (wrap_pool_port (slot b (round b (k + j)) + 2) b 2)
      ≡ false
unfolding scan
scan_refused binds b used zero k j p low h lt fits = absurd (omega arith)
scan_refused binds b used (suc n) k zero p low h lt fits =
    let here : round b (k + 0) ≡ k = ground arith in rw here (ground arith)
scan_refused binds b used (suc n) k (suc j) p low h lt fits =
    let there : round b (k + suc j) ≡ round b (after b k + j) = ground arith in
    let rest : scan binds b 2 used n (slot b (after b k)) ≡ err pool_exhausted =
      ground (arith, next-slot b k p low) in
    rw there
      (scan_refused binds b used n (after b k) j p (ground arith) rest (omega arith) (omega arith))

scan_cases :
    (binds : ℕ → Bool) (b : PoolBounds) (used : List ℕ) (attempts candidate : ℕ)
    → ((r : ℕ × ℕ × PortPool) × (scan binds b 2 used attempts candidate ≡ ok r))
      ⊎ (scan binds b 2 used attempts candidate ≡ err pool_exhausted)
unfolding scan
scan_cases binds b used zero candidate = inr refl
scan_cases binds b used (suc n) candidate =
    elim (Bool-cases (takes binds used candidate (wrap_pool_port (candidate + 2) b 2))) [
      | inl e ↦
          let second = wrap_pool_port (candidate + 2) b 2 in
          inl (
            (
              candidate,
              second,
              record { next = wrap_pool_port (second + 2) b 2; used = second ∷ candidate ∷ used },
            ),
            rw e,
          )
      | inr e ↦ rw e (scan_cases binds b used n _)
    ]

start_slot : (b : PoolBounds) (port : ℕ) → IsSlot b port → port ≡ slot b ((port - b.base) / 2)
start_slot b port s = omega arith

module _ (binds : ℕ → Bool) (rtp_port : ℕ) (pool : Option PortPool) (p : PortPool) (b : PoolBounds)
    (found : relay_pool rtp_port pool ≡ ok (p, b)) where
  allocate_scan :
      allocate_sip_rtp_port_pair binds rtp_port 2 pool
      ≡ scan binds b 2 p.used (max 1 (slots b)) (wrap_pool_port p.next b 2)
  unfolding allocate_sip_rtp_port_pair
  allocate_scan = rw (found, allocate_sip_rtp_port_pair)

  -- In a pool that _relay_pool hands out, an allocated pair lies on two different aligned slots
  -- inside the pool, both unmarked and bindable before, and exactly these two are added to the
  -- marks.
  pub allocate-IsPair :
      (first second : ℕ) (q : PortPool)
      → allocate_sip_rtp_port_pair binds rtp_port 2 pool ≡ ok (first, second, q)
      → IsPair binds b p.used first second × (q.used ≡ second ∷ first ∷ p.used)
  allocate-IsPair first second q h =
      let inside = relay_pool-IsPool rtp_port pool p b found in
      scan-IsPair binds b p.used _ _ first second q inside (wrap_pool_port-IsSlot b p.next inside)
        (sym allocate_scan ∙ h)

  -- In a pool that _relay_pool hands out, while some slot and its successor are unmarked and
  -- bindable, the scan from any cursor allocates a pair.
  pub allocate_finds :
      (k : ℕ)
      → k < slots b
      → takes binds p.used (slot b k) (wrap_pool_port (slot b k + 2) b 2) ≡ true
      → (r : ℕ × ℕ × PortPool) × (allocate_sip_rtp_port_pair binds rtp_port 2 pool ≡ ok r)
  allocate_finds k low h =
      let inside = relay_pool-IsPool rtp_port pool p b found in
      let start = wrap_pool_port p.next b 2 in
      let begins = wrap_pool_port-IsSlot b p.next inside in
      let k0 = (start - b.base) / 2 in
      let gap = if leb k0 k then k - k0 else k + slots b - k0 in
      elim (scan_cases binds b p.used (max 1 (slots b)) start) [
        | inl (r, e) ↦ (r, allocate_scan ∙ e)
        | inr e ↦
            let here : round b (k0 + gap) ≡ k = ground arith in
            let refused =
              scan_refused binds b p.used (max 1 (slots b)) k0 gap inside (omega arith)
                (rw (sym (start_slot b start begins)) e) (ground arith) (ground arith) in
            absurd (ground (arith, here, refused))
      ]
