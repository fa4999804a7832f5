-- ===== src/Server/Control/Rounds.antt =====
-- udp_server.cpp: every round of `server_loop` keeps the rules of the output, whatever the mixer answers
-- and whatever is received.
use usb_proxy_udp.Wire.{has_magic}
use usb_proxy_udp.Server.Moves.{is_owned_by_other}
use usb_proxy_udp.Telemetry.{alive, same_state, sub64}
use usb_proxy_udp.Server.Line.{trim_end, same_text, codes}
use usb_proxy_udp.Base.{
  ℕ, List, none, some, false, arith, not, ◌&&◌, ◌||◌, ◌==◌, Option, length, leb, ltb, ◌+◌,
  if◌then◌else◌,
}
use usb_proxy_udp.Replay.{Peer}
use usb_proxy_udp.Executor.{tick}
use usb_proxy_udp.Executor.Running.{tick_running}
use usb_proxy_udp.Server.State.{Mixer, Server, no_key, lease_ns}
use usb_proxy_udp.Server.Reset.{sync_move, begin_reset}
use usb_proxy_udp.Server.Loop.{
  track_layout, check_overflow, check_lease, mover_tick, send_telemetry, housekeeping, on_line,
  receive, round, is_allowed, is_owned, telemetry_of, upx1,
}
use usb_proxy_udp.Server.Control.{Inv, hold, quieter, Inv_if}
use usb_proxy_udp.Server.Control.Reset.{begin_reset-Inv, abandon-Inv, sync_move-Inv}
use usb_proxy_udp.Server.Control.Scheduler.{scheduler_tick-Inv}
use usb_proxy_udp.Server.Control.Events.{process_writer_events-Inv}
use usb_proxy_udp.Server.Control.Requests.{on_move-Inv, on_query-Inv}
use usb_proxy_udp.Server.Control.Clicks.{on_click-Inv}
use usb_proxy_udp.Server.Control.Lines.{on_movement-Inv, on_subscribe-Inv, on_text-Inv}

module _ {M : Type 0} (mixer : Mixer M) where
  track_layout-Inv : (s : Server M) (now : ℕ) → Inv s → Inv (track_layout mixer s now)
  unfolding track_layout
  track_layout-Inv s now v =
      let e = mixer.endpoint_snapshot now s.mixer in
      let tracked =
        if s.tracked_generation == 0 && e.ready then e.generation else s.tracked_generation in
      Inv_if (not (tracked == 0) && not (e.generation == tracked)) _ _
        (λ _. hold (abandon-Inv mixer (record s { tracked_generation = tracked }) now).control)
        (λ _. hold v.control)

  check_overflow-Inv : (s : Server M) (now : ℕ) → Inv s → Inv (check_overflow mixer s now)
  unfolding check_overflow
  check_overflow-Inv s now v =
      Inv_if (mixer.take_writer_overflow s.mixer).0 _ _ (λ _. abandon-Inv mixer _ now)
        (λ _. hold v.control)

  check_lease-Inv : (s : Server M) (now : ℕ) → Inv s → Inv (check_lease mixer s now)
  unfolding check_lease
  check_lease-Inv s now v =
      Inv_if (is_owned s.owner && ltb (s.last + lease_ns) now) _ _ (λ _. abandon-Inv mixer s now)
        (λ _. v)

  mover_tick-Inv : (s : Server M) (now : ℕ) → Inv s → Inv (mover_tick mixer s now)
  unfolding mover_tick
  mover_tick-Inv s now v =
      let e = mixer.endpoint_snapshot now s.mixer in
      let ticked = tick (λ r. mixer.enqueue_report r now) s.mover e now s.mixer in
      let t = record s { mover = ticked.0; mixer = ticked.2 } in
      let w : Inv t = hold (
        quieter (tick_running (λ r. mixer.enqueue_report r now) s.mover e now s.mixer) v.control) in
      sync_move-Inv _ (
        Inv_if ticked.1 (begin_reset mixer (sync_move t) false no_key now) t
          (λ _. begin_reset-Inv mixer (sync_move t) false no_key now) (λ _. w))

  send_telemetry-Inv : (s : Server M) (now : ℕ) → Inv s → Inv (send_telemetry mixer s now)
  unfolding send_telemetry
  send_telemetry-Inv s now v =
      let e = telemetry_of s (mixer.endpoint_snapshot now s.mixer) in
      Inv_if
        (alive s.subscription now
          && (not (same_state e s.previous_telemetry)
              || leb 10_000_000 (sub64 now s.last_telemetry)))
        _ _ (λ _. hold v.control) (λ _. v)

  housekeeping-Inv : (s : Server M) (now : ℕ) → Inv s → Inv (housekeeping mixer s now)
  unfolding housekeeping
  housekeeping-Inv s now v =
      let events = process_writer_events-Inv mixer _ now (track_layout-Inv s now v) in
      let checked = check_lease-Inv _ now (check_overflow-Inv _ now events) in
      send_telemetry-Inv _ now (scheduler_tick-Inv mixer _ now (mover_tick-Inv _ now checked))

  on_line-Inv :
      (s : Server M) (from : Peer) (p : List ℕ) (now : ℕ) → Inv s → Inv (on_line mixer s from p now)
  unfolding on_line
  on_line-Inv s from p now v =
      let text = trim_end p in
      Inv_if (same_text text (codes "+state")) _ _ (λ _. hold v.control)
        λ _.
          Inv_if (is_owned_by_other s.owner from) _ _ (λ _. hold v.control)
            λ _.
              Inv_if (length p == 16 && has_magic p upx1) _ _
                (λ _. on_movement-Inv mixer s from p now v)
                (λ _. on_text-Inv mixer s from text now v)

  receive-Inv :
      (s : Server M) (from : Peer) (p : List ℕ) (now : ℕ) → Inv s → Inv (receive mixer s from p now)
  unfolding receive
  receive-Inv s from p now v = ground (
    arith,
    on_subscribe-Inv s from p now v,
    on_query-Inv mixer s from p now v,
    on_move-Inv mixer s from p now v,
    on_click-Inv mixer s from p now v,
    on_line-Inv s from p now v,
  )

  pub round-Inv :
      (filter : Option ℕ) (s : Server M) (arrived : Option (Peer × List ℕ)) (now : ℕ)
      → Inv s
      → Inv (round mixer filter s arrived now)
  unfolding round
  round-Inv filter s none now v = housekeeping-Inv s now v
  round-Inv filter s (some (from, p)) now v =
      let w = housekeeping-Inv s now v in
      Inv_if (length p == 0 || ltb 1024 (length p) || not (is_allowed filter from)) _ _ (λ _. w)
        (λ _. receive-Inv _ from p now w)
