-- ===== src/MediaPorts/Examples.antt =====
-- media_ports.py: runs of the reservation loops, and the theorems of MediaPorts at a concrete pool.
use esphome_intercom.Prelude.{
  ◌==◌, ℕ, ◌+◌, ◌≡◌, refl, Bool, true, not, ◌||◌, none, some, [], ◌∷◌, arith,
}
use esphome_intercom.MediaPorts.{
  PortPool, ok, is_used, discard, rtp_port_available, PoolBounds, relay_pool, wrap_pool_port, takes,
  scan, allocate_sip_rtp_port_pair, release_sip_rtp_port_pair,
}
use esphome_intercom.MediaPorts.Allocation.{IsPair, slot, allocate-IsPair, allocate_finds}
use esphome_intercom.MediaPorts.Reserve.{
  opens, closes, bind_sip_video_sockets, reserve_sip_video_media, reserve_sip_video_relay_media,
}
use esphome_intercom.MediaPorts.Leaks.{
  Leaves, reserve_sip_video_media-Leaves, reserve_sip_video_relay_media-Leaves,
}

-- A pool in use: its last pair stood at 40002 and 40004, and the system has given 40006 away.
abbrev pool : PortPool
pool = record { next = 40006; used = 40004 ∷ 40002 ∷ [] }

-- The pool behind the next allocation.
abbrev pool' : PortPool
pool' = record { next = 40012; used = 40010 ∷ 40008 ∷ 40004 ∷ 40002 ∷ [] }

abbrev bounds : PoolBounds
bounds = record { base = 40002; end = 40402 }

abbrev binds : ℕ → Bool
binds port = not (port == 40006)

found : relay_pool 40000 (some pool) ≡ ok (pool, bounds)
unfolding relay_pool
found = refl

allocates : allocate_sip_rtp_port_pair binds 40000 2 (some pool) ≡ ok (40008, 40010, pool')
unfolding allocate_sip_rtp_port_pair relay_pool scan takes is_used rtp_port_available wrap_pool_port
allocates = refl

allocate-IsPair_example :
    IsPair binds bounds (40004 ∷ 40002 ∷ []) 40008 40010 × (pool'.used ≡ 40010 ∷ 40008 ∷ pool.used)
allocate-IsPair_example =
    allocate-IsPair binds 40000 (some pool) pool bounds found 40008 40010 pool' allocates

last_free :
    takes binds (40004 ∷ 40002 ∷ []) (slot bounds 3) (wrap_pool_port (slot bounds 3 + 2) bounds 2)
    ≡ true
unfolding takes is_used rtp_port_available wrap_pool_port
last_free = refl

allocate_finds_example :
    (r : ℕ × ℕ × PortPool) × (allocate_sip_rtp_port_pair binds 40000 2 (some pool) ≡ ok r)
allocate_finds_example =
    allocate_finds binds 40000 (some pool) pool bounds found 3 (omega arith) last_free

-- At the first attempt the RTCP port of the pair is taken, at the second all binds succeed.
abbrev later_binds : ℕ → ℕ → Bool
later_binds attempt port = not (attempt == 0) || port == 40010

reserves :
    (reserve_sip_video_media (λ n. binds) later_binds 40000 3 (some pool)).events
    ≡ opens 40010 ∷ opens 40011 ∷ closes 40011 ∷ closes 40010 ∷ opens 40014 ∷ opens 40015 ∷ []
unfolding reserve_sip_video_media bind_sip_video_sockets allocate_sip_rtp_port_pair relay_pool scan
    takes is_used rtp_port_available wrap_pool_port release_sip_rtp_port_pair discard
reserves = refl

reserve_sip_video_media-Leaves_example :
    Leaves (some pool) (reserve_sip_video_media (λ n. binds) later_binds 40000 3 (some pool))
reserve_sip_video_media-Leaves_example =
    reserve_sip_video_media-Leaves (λ n. binds) later_binds 40000 3 (some pool)

reserve_sip_video_relay_media-Leaves_example :
    Leaves none (reserve_sip_video_relay_media (λ n. binds) later_binds 40000 3 none)
reserve_sip_video_relay_media-Leaves_example =
    reserve_sip_video_relay_media-Leaves (λ n. binds) later_binds 40000 3 none
