-- ===== src/MediaPorts/Wrap.antt =====
-- media_ports.py: where `_wrap_pool_port` lands.
use native.Mathlib.Nat.{mod-lt, mod-eq_of_lt, mod_self}
use esphome_intercom.Prelude.{
  ℕ, ◌+◌, ◌-◌, ◌%◌, ◌≤◌, ◌<◌, ◌≡◌, refl, arith, leb, ◌==◌, if◌then◌else◌, inl, inr, Bool-cases,
}
use esphome_intercom.MediaPorts.{PoolBounds, pool_offset, wrap_pool_port}

-- The bounds that `_relay_pool` hands out.
pub record IsPool (b : PoolBounds) : Type 0 where
  pub base_even : b.base % 2 ≡ 0
  pub end_even : b.end % 2 ≡ 0
  pub room : b.base + 4 ≤ b.end
  pub low : 1 ≤ b.base
  pub high : b.end ≤ 65535

pool_offset-lt : (port base width : ℕ) → 0 < width → pool_offset port base width < width
unfolding pool_offset
pool_offset-lt port base width h =
    ground (arith, mod-lt (port - base) h, mod-lt (width - (base - port) % width) h)

-- An even distance from the base, inside the pool.
pub record IsSlot (b : PoolBounds) (port : ℕ) : Type 0 where
  pub above : b.base ≤ port
  pub below : port < b.end
  pub aligned : (port - b.base) % 2 ≡ 0

aligned_offset :
    (o width : ℕ)
    → width % 2 ≡ 0
    → o < width
    → ((if o % 2 == 0 then o else o + (2 - o % 2)) % width < width)
      × ((if o % 2 == 0 then o else o + (2 - o % 2)) % width % 2 ≡ 0)
aligned_offset o width even h = elim (Bool-cases (o % 2 == 0)) [
  | inl e ↦ rw e (rw (mod-eq_of_lt h) (h, ground arith))
  | inr e ↦
      let up : o + (2 - o % 2) ≡ o + 1 = ground arith in
      rw (e, up)
        (elim (Bool-cases (o + 1 == width)) [
          | inl q ↦
              let full : o + 1 ≡ width = ground arith in
              rw full (rw (mod_self width) (omega arith, refl))
          | inr q ↦
              let less : o + 1 < width = ground arith in rw (mod-eq_of_lt less) (less, ground arith)
        ])
]

pub wrap_pool_port-IsSlot :
    (b : PoolBounds) (port : ℕ) → IsPool b → IsSlot b (wrap_pool_port port b 2)
unfolding wrap_pool_port
wrap_pool_port-IsSlot b port p =
    let width = b.end - b.base in
    ground (
      arith,
      aligned_offset (pool_offset port b.base width) width (omega arith)
          (pool_offset-lt port b.base width (omega arith)),
    )

-- From one slot the next port wraps to the base at the end.
pub wrap_next :
    (b : PoolBounds) (port : ℕ)
    → IsPool b
    → IsSlot b port
    → wrap_pool_port (port + 2) b 2 ≡ (if leb b.end (port + 2) then b.base else port + 2)
unfolding wrap_pool_port pool_offset
wrap_next b port p s =
    let width = b.end - b.base in
    elim (Bool-cases (leb b.end (port + 2))) [
      | inl q ↦
          let full : port + 2 - b.base ≡ width = ground arith in
          ground (arith, full, mod_self width)
      | inr q ↦
          let less : port + 2 - b.base < width = ground arith in ground (arith, mod-eq_of_lt less)
    ]
