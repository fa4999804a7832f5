-- ===== src/Server/Loop.antt =====
-- udp_server.cpp: one round of `server_loop`: what it does before it waits, and what it does with the
-- datagram that it has received, if any. `now` is the time of the round.
use usb_proxy_udp.Base.{
  ℕ, ◌+◌, List, [], ◌∷◌, Bool, true, false, not, ◌&&◌, ◌||◌, Option, none, some, length, leb, ltb,
  ◌==◌, if◌then◌else◌, min,
}
use usb_proxy_udp.Wire.{has_magic}
use usb_proxy_udp.Mouse.{release_all_kind, EndpointSnapshot}
use usb_proxy_udp.Click.{upc1}
use usb_proxy_udp.Move.{cancelled, upm1, upq1}
use usb_proxy_udp.Replay.{Peer}
use usb_proxy_udp.Executor.{tick, stop}
use usb_proxy_udp.Telemetry.{
  sub64, Snapshot, Subscription, alive, ups, packet1, packet2, packet3, same_state,
}
use usb_proxy_udp.Server.State.{no_key, Mixer, Server, lease_ns, ClickWork}
use usb_proxy_udp.Server.Book.{send_packet}
use usb_proxy_udp.Server.Reset.{cancel_work, sync_move, begin_reset, abandon}
use usb_proxy_udp.Server.Scheduler.{edge, scheduler_tick}
use usb_proxy_udp.Server.Events.{process_writer_events}
use usb_proxy_udp.Server.Moves.{is_owned_by_other, on_move, on_query}
use usb_proxy_udp.Server.Clicks.{on_click}
use usb_proxy_udp.Server.Line.{codes, same_text, trim_end}
use usb_proxy_udp.Server.Text.{reply, mouse_state_text, on_text}
use usb_proxy_udp.Server.Motion.{on_movement, on_subscribe}

-- uint32_t of a count, held at its largest value
abbrev saturate : ℕ → ℕ
saturate n = min n 0xffff_ffff

abbrev queued_of : List ClickWork → ℕ
queued_of [] = 0
queued_of (click ∷ rest) = min 65535 (length rest)

abbrev telemetry_packet : Subscription → ℕ → Snapshot → List ℕ × Subscription
telemetry_packet u epoch t =
    if u.version == 1
    then packet1 u epoch t
    else if u.version == 2
    then packet2 u epoch t
    else packet3 u epoch t

abbrev pub is_owned : Option Peer → Bool
is_owned none = false
is_owned (some owner) = true

abbrev pub is_subscription : List ℕ → Bool
is_subscription p = has_magic p (ups b'1') || has_magic p (ups b'2') || has_magic p (ups b'3')

abbrev pub upx1 : List ℕ
upx1 = b'U' ∷ b'P' ∷ b'X' ∷ b'1' ∷ []

abbrev pub is_allowed : Option ℕ → Peer → Bool
is_allowed none from = true
is_allowed (some allowed) from = from.address == allowed

module _ {M : Type 0} where
  unfoldable pub telemetry_of : Server M → EndpointSnapshot → Snapshot
  telemetry_of s e = record {
    ready = e.ready;
    physical = e.physical;
    persistent = e.persistent;
    scheduled = e.scheduled;
    xmin = e.xmin;
    xmax = e.xmax;
    ymin = e.ymin;
    ymax = e.ymax;
    physical_dx = e.physical_dx;
    physical_dy = e.physical_dy;
    accepted = saturate s.accepted_total;
    completed = saturate s.completed_total;
    active = if length s.work == 0 then 0 else 1;
    queued = queued_of s.work;
    generation = e.generation;
    poll_us = e.poll_us;
    physical_age_us = e.physical_age_us;
    physical_received = e.physical_received;
    physical_submitted = e.physical_submitted;
    output_queue = e.output_queue;
    synthetic_pending = e.synthetic_pending;
    superseded = e.superseded;
    writer_failures = e.writer_failures;
    snapshot_ns = e.snapshot_ns;
    cumulative_x = e.cumulative_x;
    cumulative_y = e.cumulative_y;
  }

  module _ (mixer : Mixer M) where
    -- if (!tracked_generation && snapshot.ready) …, and the reset after a change of the layout
    unfoldable pub track_layout : Server M → ℕ → Server M
    track_layout s now =
        let e = mixer.endpoint_snapshot now s.mixer in
        let first = s.tracked_generation == 0 && e.ready in
        let tracked = if first then e.generation else s.tracked_generation in
        let seen = record s { tracked_generation = tracked } in
        let reset = abandon mixer seen now in
        if not (tracked == 0) && not (e.generation == tracked)
        then record reset {
          tracked_generation = (mixer.endpoint_snapshot now reset.mixer).generation;
        }
        else seen

    unfoldable pub check_overflow : Server M → ℕ → Server M
    check_overflow s now =
        let (overflow, m) = mixer.take_writer_overflow s.mixer in
        let taken = record s { mixer = m } in if overflow then abandon mixer taken now else taken

    unfoldable pub check_lease : Server M → ℕ → Server M
    check_lease s now =
        if is_owned s.owner && ltb (s.last + lease_ns) now then abandon mixer s now else s

    unfoldable pub mover_tick : Server M → ℕ → Server M
    mover_tick s now =
        let (mover, reset, m) =
          tick (λ r. mixer.enqueue_report r now) s.mover (mixer.endpoint_snapshot now s.mixer) now
            s.mixer in
        let ticked = record s { mover = mover; mixer = m } in
        sync_move (if reset then begin_reset mixer (sync_move ticked) false no_key now else ticked)

    unfoldable pub send_telemetry : Server M → ℕ → Server M
    send_telemetry s now =
        let t = telemetry_of s (mixer.endpoint_snapshot now s.mixer) in
        let (bytes, subscription) = telemetry_packet s.subscription s.server_epoch t in
        if alive s.subscription now
          && (not (same_state t s.previous_telemetry)
              || leb 10_000_000 (sub64 now s.last_telemetry))
        then record s {
          subscription = subscription;
          book = send_packet s.book s.subscriber bytes;
          previous_telemetry = t;
          last_telemetry = now;
        }
        else s

    -- The round up to its wait.
    unfoldable pub housekeeping : Server M → ℕ → Server M
    housekeeping s now =
        let events = process_writer_events mixer (track_layout s now) now in
        let checked = check_lease (check_overflow events now) now in
        send_telemetry (scheduler_tick mixer (mover_tick checked now) now) now

    unfoldable pub on_line : Server M → Peer → List ℕ → ℕ → Server M
    on_line s from p now =
        let text = trim_end p in
        if same_text text (codes "+state")
        then reply s from (mouse_state_text (mixer.endpoint_snapshot now s.mixer))
        else if is_owned_by_other s.owner from
        then reply s from (codes "busy")
        else if length p == 16 && has_magic p upx1
        then on_movement mixer s from p now
        else on_text mixer s from text now

    -- A datagram of at least a byte.
    unfoldable pub receive : Server M → Peer → List ℕ → ℕ → Server M
    receive s from p now =
        let long = leb 4 (length p) in
        if long && is_subscription p
        then on_subscribe s from p now
        else if long && has_magic p upq1
        then on_query mixer s from p now
        else if long && has_magic p upm1
        then on_move mixer s from p now
        else if long && has_magic p upc1
        then on_click mixer s from p now
        else on_line s from p now

    -- One round: `arrived` is what `recvfrom` gave, if the socket was ready; `filter` is the address
    -- of USB_PROXY_PEER.
    unfoldable pub round : Option ℕ → Server M → Option (Peer × List ℕ) → ℕ → Server M
    round filter s none now = housekeeping s now
    round filter s (some (from, p)) now =
        let t = housekeeping s now in
        if length p == 0 || ltb 1024 (length p) || not (is_allowed filter from)
        then t
        else receive t from p now

    -- What stands after the loop: the last release is left to the writer.
    unfoldable pub shut_down : Server M → ℕ → Server M
    shut_down s now =
        let idle = cancel_work (sync_move (record s { mover = stop s.mover cancelled now })) in
        let (cleared, m) = mixer.clear_synthetic_state now idle.mixer in
        let (result, m') = mixer.enqueue_report (edge 0 0 release_all_kind no_key 0 0) now m in
        record idle { persistent_buttons = 0; scheduled_buttons = 0; mixer = m' }
