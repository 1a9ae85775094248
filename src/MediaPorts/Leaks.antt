-- ===== src/MediaPorts/Leaks.antt =====
-- media_ports.py: the ports and sockets that the reservation loops leave behind.
use mathlib.Core.List.{reverse}
use esphome_intercom.MediaPorts.Reserve.{
  SocketEvent, opens, closes, still_open, bind_sip_rtp_socket, bind_sip_video_sockets,
  bind_relay_sockets, opened_pool, MediaReservation, Run, reserve_loop, reserve_sip_video_media,
  reserve_sip_video_relay_media,
}
use esphome_intercom.Prelude.{
  ◌==◌, if◌then◌else◌, Option-cases, ℕ, zero, suc, ◌+◌, max, ◌≡◌, refl, sym, ap, ◌∙◌, inl, inr,
  Bool, false, ◌||◌, Option, none, some, List, [], ◌∷◌, ◌++◌, arith,
}
use esphome_intercom.MediaPorts.{
  PortPool, PortError, Result, ok, err, Result-cases, is_used, discard, PoolBounds, relay_pool,
  takes, allocate_sip_rtp_port_pair, release_sip_rtp_port_pair,
}
use esphome_intercom.MediaPorts.Allocation.{allocate-IsPair}

-- Whether a port is marked as used.
unfoldable pub marked : Option PortPool → ℕ → Bool
marked none port = false
marked (some p) port = is_used port p.used

is_used-discard :
    (port j : ℕ) (used : List ℕ)
    → is_used j (discard port used) ≡ (if port == j then false else is_used j used)
unfolding is_used discard
is_used-discard port j [] = ground arith
is_used-discard port j (p ∷ used) = ground (arith, is_used-discard port j used)

still_open-append :
    (open_ports : List ℕ) (events more : List SocketEvent)
    → still_open open_ports (events ++ more) ≡ still_open (still_open open_ports events) more
unfolding still_open
still_open-append open_ports [] more = refl
still_open-append open_ports (opens port ∷ events) more =
    still_open-append (port ∷ open_ports) events more
still_open-append open_ports (closes port ∷ events) more =
    still_open-append (discard port open_ports) events more

-- A way to bind keeps what it returns open, and leaves nothing open where it fails.
abbrev pub Tidy : ((ℕ → Bool) → ℕ → ℕ → Option (List ℕ) × List SocketEvent) → Type 0
Tidy bind_all =
    (ask : ℕ → Bool) (first second : ℕ)
    → ((bind_all ask first second).0 ≡ none → still_open [] (bind_all ask first second).1 ≡ [])
      × ((s : List ℕ)
          → (bind_all ask first second).0 ≡ some s
          → still_open [] (bind_all ask first second).1 ≡ reverse s)

video_Tidy : Tidy (λ ask first second. bind_sip_video_sockets ask second)
unfolding bind_sip_video_sockets bind_sip_rtp_socket still_open discard
video_Tidy ask first second = (λ h. ground arith, λ s h. ground arith)

relay_Tidy : Tidy bind_relay_sockets
unfolding bind_relay_sockets bind_sip_video_sockets bind_sip_rtp_socket still_open discard
relay_Tidy ask first second = (λ h. ground arith, λ s h. ground arith)

-- What a run leaves: with an error, the marks and the sockets as they were; with a reservation, its two
-- ports marked that were not before, and its sockets open.
abbrev pub LeavesOf :
    Option PortPool → Result MediaReservation → Option PortPool → List SocketEvent → Type 0
LeavesOf pool (err e) pool' events =
    ((j : ℕ) → marked pool' j ≡ marked pool j) × (still_open [] events ≡ [])
LeavesOf pool (ok r) pool' events =
    ((j : ℕ) → marked pool' j ≡ (j == r.first || j == r.second || marked pool j))
    × (marked pool r.first ≡ false)
    × (marked pool r.second ≡ false)
    × (still_open [] events ≡ reverse r.sockets)

abbrev pub Leaves : Option PortPool → Run → Type 0
Leaves pool run = LeavesOf pool run.result run.pool run.events

LeavesOf-after :
    (pool between : Option PortPool) (r : Result MediaReservation) (pool' : Option PortPool)
    (before events : List SocketEvent)
    → ((j : ℕ) → marked between j ≡ marked pool j)
    → still_open [] before ≡ []
    → LeavesOf between r pool' events
    → LeavesOf pool r pool' (before ++ events)
LeavesOf-after pool between (err e) pool' before events same closed l =
    (λ j. l.0 j ∙ same j, still_open-append [] before events ∙ rw closed l.1)
LeavesOf-after pool between (ok r) pool' before events same closed l = (
  λ j. l.0 j ∙ ap (λ b. j == r.first || j == r.second || b) (same j),
  sym (same r.first) ∙ l.1,
  sym (same r.second) ∙ l.2,
  still_open-append [] before events ∙ rw closed l.3,
)

opened_pool-marked :
    (rtp_port : ℕ) (pool : Option PortPool) (j : ℕ)
    → marked (opened_pool rtp_port pool) j ≡ marked pool j
unfolding opened_pool marked relay_pool is_used
opened_pool-marked rtp_port none j = ground arith
opened_pool-marked rtp_port (some p) j = ground arith

-- An allocation marks its two ports, which were not marked.
abbrev Marks : Option PortPool → ℕ × ℕ × PortPool → Type 0
Marks pool (first, second, q) =
    ((j : ℕ) → is_used j q.used ≡ (j == first || j == second || marked pool j))
    × (marked pool first ≡ false)
    × (marked pool second ≡ false)

relay_pool-marked :
    (rtp_port : ℕ) (pool : Option PortPool) (p : PortPool) (b : PoolBounds)
    → relay_pool rtp_port pool ≡ ok (p, b)
    → (j : ℕ) → is_used j p.used ≡ marked pool j
unfolding relay_pool marked is_used
relay_pool-marked rtp_port none p b h j = ground arith
relay_pool-marked rtp_port (some q) p b h j = ground arith

allocate-Marks :
    (binds : ℕ → Bool) (rtp_port : ℕ) (pool : Option PortPool) (first second : ℕ) (q : PortPool)
    → allocate_sip_rtp_port_pair binds rtp_port 2 pool ≡ ok (first, second, q)
    → Marks pool (first, second, q)
unfolding takes is_used
allocate-Marks binds rtp_port pool first second q h =
    elim (Result-cases (relay_pool rtp_port pool)) [
      | inl ((p, b), e) ↦
          let (pair, marks) = allocate-IsPair binds rtp_port pool p b e first second q h in
          let same = relay_pool-marked rtp_port pool p b e in
          (
            λ j. ground (arith, marks, same j),
            ground (arith, pair.free, same first),
            ground (arith, pair.free, same second),
          )
      | inr (r, e) ↦ absurd (
          unfold allocate_sip_rtp_port_pair in
          (ground (arith, rw (e, allocate_sip_rtp_port_pair) at h)))
    ]

release-marked :
    (pool : Option PortPool) (first second : ℕ) (q : PortPool)
    → Marks pool (first, second, q)
    → (j : ℕ) → marked (release_sip_rtp_port_pair (some q) first second) j ≡ marked pool j
unfolding release_sip_rtp_port_pair marked
release-marked pool first second q m j = ground (
  arith,
  is_used-discard second j (discard first q.used),
  is_used-discard first j q.used,
  m.0 j,
  m.1,
  m.2,
)

module _ (probes binds : ℕ → ℕ → Bool)
    (bind_all : (ℕ → Bool) → ℕ → ℕ → Option (List ℕ) × List SocketEvent) (exhausted : PortError)
    (rtp_port : ℕ) (tidy : Tidy bind_all) where
  reserve_loop-Leaves :
      (attempts attempt : ℕ) (pool : Option PortPool)
      → Leaves pool (reserve_loop probes binds bind_all exhausted rtp_port attempts attempt pool)
  unfolding reserve_loop still_open marked
  reserve_loop-Leaves zero attempt pool = ((λ j. refl), refl)
  reserve_loop-Leaves (suc n) attempt pool =
      elim (Result-cases (allocate_sip_rtp_port_pair (probes attempt) rtp_port 2 pool)) [
        | inr (e, h) ↦ rw (h, reserve_loop) (opened_pool-marked rtp_port pool, refl)
        | inl ((first, second, q), h) ↦
            let m = allocate-Marks (probes attempt) rtp_port pool first second q h in
            let t = tidy (binds attempt) first second in
            elim (Option-cases (bind_all (binds attempt) first second).0) [
              | inl none_ ↦
                  rw (h, reserve_loop)
                    (rw none_ (
                      LeavesOf-after pool (release_sip_rtp_port_pair (some q) first second) _ _ _ _
                        (release-marked pool first second q m) (t.0 none_)
                        (reserve_loop-Leaves n (attempt + 1)
                          (release_sip_rtp_port_pair (some q) first second))))
              | inr (s, some_) ↦ rw (h, reserve_loop) (rw some_ (m.0, m.1, m.2, t.1 s some_))
            ]
      ]

-- Reserving video media leaks nothing, whatever the operating system answers: on success the two
-- reserved ports, unmarked before, are the only new marks of the pool and the reservation's sockets
-- the only open ones; on an error the marks are as before and every socket is closed.
pub reserve_sip_video_media-Leaves :
    (probes binds : ℕ → ℕ → Bool) (rtp_port attempts : ℕ) (pool : Option PortPool)
    → Leaves pool (reserve_sip_video_media probes binds rtp_port attempts pool)
unfolding reserve_sip_video_media
reserve_sip_video_media-Leaves probes binds rtp_port attempts pool =
    reserve_loop-Leaves probes binds _ _ rtp_port video_Tidy (max 1 attempts) 0 pool

-- The reservation of both legs of a video relay leaks no port and no socket, on success and on
-- every error, also when only the second leg fails to bind.
pub reserve_sip_video_relay_media-Leaves :
    (probes binds : ℕ → ℕ → Bool) (rtp_port attempts : ℕ) (pool : Option PortPool)
    → Leaves pool (reserve_sip_video_relay_media probes binds rtp_port attempts pool)
unfolding reserve_sip_video_relay_media
reserve_sip_video_relay_media-Leaves probes binds rtp_port attempts pool =
    reserve_loop-Leaves probes binds _ _ rtp_port relay_Tidy (max 1 attempts) 0 pool
