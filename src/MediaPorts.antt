-- ===== src/MediaPorts.antt =====
-- custom_components/voip_stack/media_ports.py: the pool of RTP relay ports and its reservations.
-- What the operating system answers to a bind is a parameter: a test on ports.
pub mod Wrap
pub mod Allocation
pub mod Reserve
pub mod Leaks
pub mod Examples
use esphome_intercom.Prelude.{
  ◌≡◌, refl, ◌⊎◌, inl, inr, ℕ, zero, suc, ◌+◌, ◌-◌, ◌*◌, ◌/◌, ◌%◌, min, max, Bool, true, false, not,
  ◌&&◌, ◌||◌, Option, none, some, List, [], ◌∷◌, ◌++◌, ltb, leb, ◌==◌, if◌then◌else◌, Option,
}

abbrev pub rtp_relay_pool_width : ℕ
rtp_relay_pool_width = 400

-- bucket["sip_rtp_port_pool"]; the set of used ports is a list.
pub record PortPool : Type 0 where
  pub next : ℕ
  pub used : List ℕ

pub data PortError : Type 0 where
  pool_too_small pool_exhausted video_exhausted relay_exhausted : PortError

pub data Result {ℓ} (A : Type ℓ) : Type ℓ where
  ok : A → Result A
  err : PortError → Result A

pub Result-cases {ℓ} :
    {A : Type ℓ} (r : Result A) → ((a : A) × (r ≡ ok a)) ⊎ ((e : PortError) × (r ≡ err e))
Result-cases (ok a) = inl (a, refl)
Result-cases (err e) = inr (e, refl)

infixl 5 ◌>>=◌
abbrev pub ◌>>=◌ {ℓ κ} : {A : Type ℓ} {B : Type κ} → Result A → (A → Result B) → Result B
ok a >>= f = f a
err e >>= f = err e

-- port in used
unfoldable pub is_used : ℕ → List ℕ → Bool
is_used port [] = false
is_used port (p ∷ used) = p == port || is_used port used

-- used.discard(port)
unfoldable pub discard : ℕ → List ℕ → List ℕ
discard port [] = []
discard port (p ∷ used) = let rest = discard port used in if p == port then rest else p ∷ rest

-- `binds` tells whether a probe socket binds to the port.
unfoldable pub rtp_port_available : (ℕ → Bool) → ℕ → Bool
rtp_port_available binds port = leb 1 port && leb port 65535 && binds port

-- The bounds of the pool that `_relay_pool` finds for a configured port.
pub record PoolBounds : Type 0 where
  pub base : ℕ
  pub end : ℕ

unfoldable pub pool_base : ℕ → ℕ
pool_base rtp_port = let base = rtp_port + 2 in if base % 2 == 0 then base else base + 1

-- `max(0, 65534 - base + 1)`, rounded down to an even number
unfoldable pub pool_width : ℕ → ℕ
pool_width base = let width = min rtp_relay_pool_width (65535 - base) in width - width % 2

-- The pool is created at its first use.
unfoldable pub relay_pool : ℕ → Option PortPool → Result (PortPool × PoolBounds)
unfolding pool_base pool_width
relay_pool rtp_port pool =
    let base = pool_base rtp_port in
    let width = pool_width base in
    let bounds : PoolBounds = record { base = base; end = base + width } in
    if ltb width 4 then err pool_too_small else elim pool [
      | none ↦ ok (record { next = base; used = [] }, bounds)
      | some p ↦ ok (p, bounds)
    ]

-- (port - base) % width, which is never negative in Python.
unfoldable pub pool_offset : ℕ → ℕ → ℕ → ℕ
pool_offset port base width =
    if leb base port then (port - base) % width else (width - (base - port) % width) % width

unfoldable pub wrap_pool_port : ℕ → PoolBounds → ℕ → ℕ
unfolding pool_offset
wrap_pool_port port bounds step =
    let width = bounds.end - bounds.base in
    let offset = pool_offset port bounds.base width in
    let aligned = if offset % step == 0 then offset else offset + (step - offset % step) in
    if width == 0 then bounds.base else bounds.base + aligned % width

-- Whether the two ports can be taken.
unfoldable pub takes : (ℕ → Bool) → List ℕ → ℕ → ℕ → Bool
takes binds used first second =
    not (is_used first used)
    && not (is_used second used)
    && rtp_port_available binds first
    && rtp_port_available binds second

unfoldable pub scan : (ℕ → Bool) → PoolBounds → ℕ → List ℕ → ℕ → ℕ → Result (ℕ × ℕ × PortPool)
scan binds bounds step used zero candidate = err pool_exhausted
scan binds bounds step used (suc attempts) candidate =
    let second = wrap_pool_port (candidate + step) bounds step in
    let rest = scan binds bounds step used attempts second in
    if takes binds used candidate second
    then ok (
      candidate,
      second,
      record {
        next = wrap_pool_port (second + step) bounds step;
        used = second ∷ candidate ∷ used;
      },
    )
    else rest

unfoldable pub allocate_sip_rtp_port_pair :
    (ℕ → Bool) → ℕ → ℕ → Option PortPool → Result (ℕ × ℕ × PortPool)
allocate_sip_rtp_port_pair binds rtp_port step pool = do
  (p, bounds) ← relay_pool rtp_port pool
  scan binds bounds step p.used (max 1 ((bounds.end - bounds.base) / step))
      (wrap_pool_port p.next bounds step)

unfoldable pub release_sip_rtp_port_pair : Option PortPool → ℕ → ℕ → Option PortPool
release_sip_rtp_port_pair none first second = none
release_sip_rtp_port_pair (some p) first second =
    some (record p { used = discard second (discard first p.used) })
