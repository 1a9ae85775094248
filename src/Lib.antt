-- ===== src/Lib.antt =====
-- A model of the telephony core of custom_components/voip_stack, a Home Assistant integration that
-- is a small PBX: it takes SIP calls, dials the phones of a house and the trunks outside, and
-- carries their audio and video over RTP.
--
-- The parts and how they interact. A call session (endpoint_session.py) owns the legs, resources and
-- tasks of one call, and closes them when the call ends. It dials its candidates through a fork
-- (dial_fork.py), which asks whether the session is still live; the legs that answer carry RTP
-- (rtp.py) on ports of a bounded relay pool (media_ports.py); key presses reach the dial plan as
-- telephone events in RTP or as SIP INFO (dtmf.py). A phone of the house is an endpoint of the
-- registry (endpoint_registry.py), which one call at a time claims, through the registry of the calls
-- (call_registry.py). Every SIP request and response of the call runs under the timers of
-- sip_transaction.py.
--
-- * Rtp is custom_components/voip_stack/rtp.py, whole: `build_packet`, `parse_packet` with its steps
--   `skip_extension` and `strip_padding`, the counters, and the audio payload limits. RtpError is a
--   data type of the messages. Rtp.Layout is the layout of RFC 3550, which the code is compared with.
-- * Dtmf is custom_components/voip_stack/dtmf.py: the digits and events, `RtpDtmfDecoder`, the filter
--   of `datagram_received`, and in Dtmf.Collect `_match_dtmf`, `collect_info_digits` and
--   `DtmfCollector`. Arrivals carry their times in whole ticks; a digit at the deadline is late for
--   both collectors.
-- * MediaPorts is custom_components/voip_stack/media_ports.py: the pool of `_relay_pool`, its scan and
--   release, and in MediaPorts.Reserve the two reservation loops as runs that list the sockets they
--   open and close. What the operating system answers to a bind is a function of the attempt and port.
-- * DialFork is custom_components/voip_stack/dial_fork.py: `_reduce_failures`, the two kinds of tier,
--   and in DialFork.Controller the constructor and `_run_candidates`. A parallel tier reads the list of
--   its wakes, the returns of asyncio.wait; a sequential tier asks what each dial ends with; a run
--   gives its ending and the trace of closes and commits. The two waits of
--   `_wait_for_cleanup_or_termination` are the answers whether the termination has started, starts
--   before the losers are closed, and whether the session still owns the token.
-- * EndpointSession is custom_components/voip_stack/endpoint_session.py: `EndpointCallSession`, its
--   operations, and in EndpointSession.Termination `_run_termination`, whose trace lists the calls
--   of `cancel` and `close`. An operation answers with a value and the session, or raises.
-- * SipTransaction is custom_components/voip_stack/sip_transaction.py, whole: `SipClientTransaction`
--   with `receive`, and `async_run_server_transaction`. Times are whole ticks. Each turn of a loop
--   says how long the environment takes and what it answers; how long a sleep or an unanswered read
--   lasts follows from the timeout that the code gives it.
-- * PhoneEndpoint is custom_components/voip_stack/phone_endpoint.py: the record of a phone, its
--   constructor with `__post_init__`, and `route_aliases`, with `normalize_roster_key` of roster.py.
--   The Unicode tables and `urllib.parse.unquote` are the fields of the record Unicode, which is an
--   argument, with two laws of `str.casefold`.
-- * EndpointRegistry is custom_components/voip_stack/endpoint_registry.py: the state and
--   `_rebuild_indexes` in State, `validate` in Validation, `register`, `upsert`, `update` and `remove`
--   in Operations, the claims of calls in Calls, the lookups in Lookup. A call returns a value with
--   the registry, or raises and leaves it. EndpointRegistry.Runs composes the calls, on endpoints
--   that the constructor has made.
-- * CallRegistry is the part of custom_components/voip_stack/call_registry.py that ends calls:
--   `begin_termination` with `_remember_terminated` and `is_terminated`, `claim_terminal_summary`, and
--   the new life of a session in `event_fields`, as far as it drops the summary of the old one.
--   In CallRegistry.Claims are `claim_endpoint` and `release_endpoint_claims`, in CallRegistry.Losing
--   `release_endpoint_claim`, which call the endpoint registry; the calls of a session owner are
--   listed. An ordered dictionary is an association list with the oldest entry first.
-- * Fsm is custom_components/voip_stack/fsm.py: the public states and `sip_public_state`,
--   `sip_terminal_reason` and `sip_failure_response`. Its words are ASCII text.
-- * QueueUtils is custom_components/voip_stack/queue_utils.py: `put_drop_oldest` on a bounded queue.
-- * Prelude holds Boolean tests, lists, dictionaries, calls that may raise, texts as lists of code
--   points, and facts on bits by tables.
-- * The modules called Examples, and CallRegistry.Claimed, hold concrete runs.
--
-- Bounds and fuel. The loops are structural: over the wakes, the candidates, the datagrams, the
-- arrivals. The scan of the pool runs as many attempts as the source allows, and a reservation as
-- often as its caller says, one attempt at least. A list of wakes that is used up leaves a tier
-- waiting; the deadline is a wake that is expired. A SIP timer whose turns are used up is left
-- sleeping; the number of turns that is enough follows from t1 and the timeout. An event of the
-- environment carries how much time passes, so the clock never goes back, and a sleep or a read that
-- is not answered lasts at least as long as the code asks for.
--
-- Not modelled: the `run` of a fork with route-control waiters, a cancellation while a close is
-- awaited, the constructor that `dataclasses.replace` runs again on an endpoint (it is taken to leave
-- it as it is), `clear_runtime`, `parse_sip_info_digit`, `allocate_sip_rtp_port`,
-- `sip_terminal_status`, sockets and the event loop; and the SIP messages, SDP, the other operations of the registry of calls, views and
-- entities, which the other files of custom_components/voip_stack hold.
pub mod CallRegistry
pub mod DialFork
pub mod Dtmf
pub mod EndpointRegistry
pub mod EndpointSession
pub mod Fsm
pub mod MediaPorts
pub mod PhoneEndpoint
pub mod Prelude
pub mod QueueUtils
pub mod Rtp
pub mod SipTransaction
