-- ===== src/MediaPorts/Reserve.antt =====
-- media_ports.py: sockets that are bound before signalling, and the loops that reserve ports for video.
-- A run is the list of the sockets that it opened and closed, in order.
use esphome_intercom.Prelude.{
  ltb, leb, if◌then◌else◌, ℕ, zero, suc, ◌+◌, max, Bool, true, false, not, ◌&&◌, Option, none, some,
  List, [], ◌∷◌, ◌++◌,
}
use esphome_intercom.MediaPorts.{
  PortPool, PortError, video_exhausted, relay_exhausted, Result, ok, err, discard, relay_pool,
  allocate_sip_rtp_port_pair, release_sip_rtp_port_pair,
}

pub data SocketEvent : Type 0 where
  opens closes : ℕ → SocketEvent

-- The sockets that stay open, the latest first.
unfoldable pub still_open : List ℕ → List SocketEvent → List ℕ
still_open open_ports [] = open_ports
still_open open_ports (opens port ∷ events) = still_open (port ∷ open_ports) events
still_open open_ports (closes port ∷ events) = still_open (discard port open_ports) events

-- Whether the bind holds, and what becomes of its socket: one whose bind fails is closed at once.
unfoldable pub bind_sip_rtp_socket : (ℕ → Bool) → ℕ → Bool × List SocketEvent
bind_sip_rtp_socket binds port =
    if binds port then (true, opens port ∷ []) else (false, opens port ∷ closes port ∷ [])

-- bind_sip_video_sockets: the RTP and the RTCP socket, or an OSError.
unfoldable pub bind_sip_video_sockets : (ℕ → Bool) → ℕ → Option (List ℕ) × List SocketEvent
unfolding bind_sip_rtp_socket
bind_sip_video_sockets binds rtp_port =
    let (rtp, opened) = bind_sip_rtp_socket binds rtp_port in
    let (rtcp, opened') = bind_sip_rtp_socket binds (rtp_port + 1) in
    if not (leb 1 rtp_port && ltb rtp_port 65535)
    then (none, [])
    else if not rtp
    then (none, opened)
    else if rtcp
    then (some (rtp_port ∷ (rtp_port + 1) ∷ []), opened ++ opened')
    else (none, opened ++ (opened' ++ closes rtp_port ∷ []))

-- The sockets of both relay legs; where the second leg fails those of the first are closed.
unfoldable pub bind_relay_sockets : (ℕ → Bool) → ℕ → ℕ → Option (List ℕ) × List SocketEvent
bind_relay_sockets binds first second =
    let (left, opened) = bind_sip_video_sockets binds first in
    let (right, opened') = bind_sip_video_sockets binds second in
    elim left [
      | none ↦ (none, opened)
      | some a ↦ elim right [
        | some b ↦ (some (a ++ b), opened ++ opened')
        | none ↦ (none, opened ++ (opened' ++ (closes first ∷ closes (first + 1) ∷ [])))
      ]
    ]

-- The pool behind a failed allocation: it is there from the first call on.
unfoldable pub opened_pool : ℕ → Option PortPool → Option PortPool
opened_pool rtp_port pool = elim (relay_pool rtp_port pool) [ ok (p, b) ↦ some p | err e ↦ pool ]

-- A reservation that the caller owns: its ports and its sockets.
pub record MediaReservation : Type 0 where
  pub first : ℕ
  pub second : ℕ
  pub sockets : List ℕ

pub record Run : Type 0 where
  pub result : Result MediaReservation
  pub pool : Option PortPool
  pub events : List SocketEvent

-- The answers of the operating system, by attempt: to the probes of the allocation, and to the
-- binds that follow.
module _ (probes binds : ℕ → ℕ → Bool)
    (bind_all : (ℕ → Bool) → ℕ → ℕ → Option (List ℕ) × List SocketEvent) (exhausted : PortError)
    (rtp_port : ℕ) where
  unfoldable pub reserve_loop : ℕ → ℕ → Option PortPool → Run
  reserve_loop zero attempt pool = record { result = err exhausted; pool = pool; events = [] }
  reserve_loop (suc attempts) attempt pool =
      elim (allocate_sip_rtp_port_pair (probes attempt) rtp_port 2 pool) [
        | err e ↦ record { result = err e; pool = opened_pool rtp_port pool; events = [] }
        | ok (first, second, q) ↦
            let (sockets, events) = bind_all (binds attempt) first second in
            let again =
              reserve_loop attempts (attempt + 1)
                (release_sip_rtp_port_pair (some q) first second) in
            elim sockets [
              | some s ↦ record {
                result = ok (record { first = first; second = second; sockets = s });
                pool = some q;
                events = events;
              }
              | none ↦ record again { events = events ++ again.events }
            ]
      ]

unfoldable pub reserve_sip_video_media :
    (probes binds : ℕ → ℕ → Bool) → ℕ → ℕ → Option PortPool → Run
unfolding reserve_loop
reserve_sip_video_media probes binds rtp_port attempts pool =
    reserve_loop probes binds (λ ask first second. bind_sip_video_sockets ask second)
      video_exhausted rtp_port (max 1 attempts) 0 pool

unfoldable pub reserve_sip_video_relay_media :
    (probes binds : ℕ → ℕ → Bool) → ℕ → ℕ → Option PortPool → Run
unfolding reserve_loop
reserve_sip_video_relay_media probes binds rtp_port attempts pool =
    reserve_loop probes binds bind_relay_sockets relay_exhausted rtp_port (max 1 attempts) 0 pool
