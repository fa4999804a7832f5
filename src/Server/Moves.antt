-- ===== src/Server/Moves.antt =====
-- udp_server.cpp: the branches for a UPM1 transaction request and a UPQ1 capability query.
use usb_proxy_udp.Base.{
  ℕ, ◌+◌, ◌-◌, ◌*◌, ◌/◌, List, [], ◌∷◌, ◌++◌, Bool, true, false, not, ◌&&◌, ◌||◌, Option, none,
  some, length, leb, ltb, ◌==◌, if◌then◌else◌, bit_and, max,
}
use usb_proxy_udp.Base.Int.{ℤ, pos, negsuc, neg}
use usb_proxy_udp.Mouse.{EndpointSnapshot}
use usb_proxy_udp.Click
use usb_proxy_udp.Move
use usb_proxy_udp.Replay.{Peer, same_peer}
use usb_proxy_udp.Sessions.{admit}
use usb_proxy_udp.Sessions
use usb_proxy_udp.Executor.{start, proceed, cancel, is_running, empty_ack}
use usb_proxy_udp.Server.State.{Key, CachedCommand, Mixer, Server}
use usb_proxy_udp.Server.Book.{
  find_cache, put_cache, send_packet, send_cached, remove_old_cache, is_full, session_protected,
}
use usb_proxy_udp.Server.Reset.{depth}
use usb_proxy_udp.Server.Scheduler.{bit_of}

-- owned && !same_peer(owner, from)
abbrev pub is_owned_by_other : Option Peer → Peer → Bool
is_owned_by_other none from = false
is_owned_by_other (some owner) from = not (same_peer owner from)

-- The reports that a motion of `n` needs on an axis; a million for a side that the axis cannot reach.
unfoldable pub segments : ℤ → ℤ → ℤ → ℕ
segments (pos n) minimum maximum = if n == 0 then 0 else elim maximum [
  | pos span ↦ if span == 0 then 1_000_000 else (n + span - 1) / span
  | negsuc m ↦ 1_000_000
]
segments (negsuc n) minimum maximum = elim minimum [
  | pos m ↦ 1_000_000
  | negsuc m ↦ (n + 1 + (m + 1) - 1) / (m + 1)
]

unfoldable pub out_segments : Move.Request → EndpointSnapshot → ℕ
out_segments r e = max (segments r.dx e.xmin e.xmax) (segments r.dy e.ymin e.ymax)

unfoldable pub back_segments : Move.Request → EndpointSnapshot → ℕ
back_segments r e = max (segments (neg r.dx) e.xmin e.xmax) (segments (neg r.dy) e.ymin e.ymax)

-- `minimum`: the time that the transaction takes at least.
unfoldable pub minimum_us : Move.Request → EndpointSnapshot → ℕ
minimum_us r e =
    (out_segments r e + back_segments r e + (if r.button == 0 then 0 else 2)) * e.poll_us
    + r.settle_us
    + r.return_us
    + (if r.button == 0 then 0 else r.press_us)

abbrev pub move_key : Move.Request → Key
move_key r = record { session = r.session; command = r.command }

abbrev pub is_execute : Move.Operation → Bool
is_execute Move.execute = true
is_execute _ = false

module _ {M : Type 0} where
  -- Nothing of the transaction's output is in use.
  unfoldable pub is_busy : Server M → EndpointSnapshot → Bool
  is_busy s e =
      is_running s.mover
      || not (length s.work == 0)
      || s.release_pending
      || not (e.synthetic_pending == 0)
      || not (e.output_queue == 0)

  unfoldable pub is_pressed : Server M → Move.Request → EndpointSnapshot → Bool
  is_pressed s r e =
      let held = if r.button == 0 then e.physical else bit_and e.physical (bit_of r.button) in
      not (held == 0)
      || not (s.persistent_buttons == 0)
      || not (s.scheduled_buttons == 0)
      || not (e.persistent == 0)
      || not (e.scheduled == 0)

  -- The reasons to refuse a new transaction, in order, before the cache and the sessions are asked.
  unfoldable pub refusal : Server M → Move.Request → EndpointSnapshot → Option Move.Status
  refusal s r e =
      if not e.ready
      then some Move.not_ready
      else if not (e.generation == r.generation)
      then some Move.endpoint_changed
      else if is_busy s e
      then some Move.busy
      else if is_pressed s r e
      then some Move.button_active
      else if not (r.button == 0)
          && (bit_and e.supported (bit_of r.button) == 0 || ltb r.press_us e.poll_us)
      then some Move.invalid
      else if ltb 32 (out_segments r e)
          || ltb 32 (back_segments r e)
          || leb r.budget_us (minimum_us r e)
      then some Move.range
      else none

  module _ (mixer : Mixer M) where
    -- The lambda `reject`.
    unfoldable pub reject : Server M → Peer → Move.Request → Move.Status → ℕ → Server M
    reject s from r status now = record s {
      book = send_packet s.book from (
          Move.ack_packet (record empty_ack {
            session = r.session;
            command = r.command;
            epoch = s.server_epoch;
            generation = (mixer.endpoint_snapshot now s.mixer).generation;
            status = status;
          }));
    }

    -- A request whose key is in the cache.
    unfoldable pub repeat_move : Server M → Peer → Move.Request → CachedCommand → ℕ → Server M
    repeat_move s from r prior now =
        let told = record prior { peer = from } in
        let mover = if prior.terminal then s.mover else elim r.operation [
          | Move.continue ↦ proceed s.mover
          | Move.cancel ↦ cancel s.mover
          | _ ↦ s.mover
        ] in
        let book = record (s.book) { cache = put_cache s.book.cache told } in
        if not prior.movement || not (Move.same prior.move_request r)
        then reject s from r Move.invalid now
        else record s {
          mover = mover;
          owner = some from;
          last = now;
          book = send_cached s.server_epoch (depth s) book told told.status;
        }

    -- The transaction starts, with `sessions` after the session was admitted.
    unfoldable pub begin_move :
        Server M → Peer → Move.Request → EndpointSnapshot → Sessions.Tracker → ℕ → Server M
    begin_move s from r e sessions now =
        let mover = start s.mover r e now in
        let entry : CachedCommand = record {
          key = move_key r;
          request = record {
            operation = Click.schedule;
            button = 0;
            session = 0;
            command = 0;
            count = 0;
            press_us = 0;
            interval_us = 0;
            version = Click.version1;
          };
          button = 0;
          accepted = 0;
          completed = 0;
          status = Click.accepted;
          terminal = false;
          peer = from;
          movement = true;
          move_request = r;
          move_ack = mover.ack;
        } in
        let book = record (s.book) { cache = s.book.cache ++ entry ∷ [] } in
        record s {
          mover = mover;
          sessions = Sessions.accept sessions r.session r.command now;
          owner = some from;
          last = now;
          tracked_generation = e.generation;
          book = send_cached s.server_epoch (depth s) book entry entry.status;
        }

    -- A new transaction that nothing speaks against: room in the cache, and for the session.
    unfoldable pub admit_move : Server M → Peer → Move.Request → EndpointSnapshot → ℕ → Server M
    admit_move s from r e now =
        let trimmed = record s {
          book = record (s.book) { cache = remove_old_cache s.book.cache };
        } in
        let (sessions, admitted) =
          admit s.sessions r.session now false (session_protected trimmed.book.cache) in
        if is_full trimmed.book.cache
        then reject trimmed from r Move.queue_full now
        else if not admitted
        then reject (record trimmed { sessions = sessions }) from r Move.queue_full now
        else begin_move trimmed from r e sessions now

    unfoldable pub new_move : Server M → Peer → Move.Request → ℕ → Server M
    new_move s from r now =
        let (sessions, old) = Sessions.stale s.sessions r.session r.command now in
        let looked = record s { sessions = sessions } in
        let e = mixer.endpoint_snapshot now s.mixer in
        if not (is_execute r.operation)
        then reject s from r Move.stale now
        else if old
        then reject looked from r Move.stale now
        else elim (refusal looked r e) [
          | some status ↦ reject looked from r status now
          | none ↦ admit_move looked from r e now
        ]

    unfoldable pub move_request : Server M → Peer → Move.Request → ℕ → Server M
    move_request s from r now =
        if is_owned_by_other s.owner from
        then reject s from r Move.busy now
        else if not (r.epoch == s.server_epoch)
        then reject s from r Move.endpoint_changed now
        else elim (find_cache s.book.cache (move_key r)) [
          | some prior ↦ repeat_move s from r prior now
          | none ↦ new_move s from r now
        ]

    -- The branch for a datagram with UPM1.
    unfoldable pub on_move : Server M → Peer → List ℕ → ℕ → Server M
    on_move s from bytes now = elim (Move.parse bytes) [
      | none ↦ s
      | some r ↦ move_request s from r now
    ]

    unfoldable pub capabilities : Server M → EndpointSnapshot → ℕ → ℕ → Move.Capabilities
    capabilities s e session token = record {
      ready = e.ready;
      buttons = e.supported;
      session = session;
      token = token;
      epoch = s.server_epoch;
      generation = e.generation;
      layout = e.layout;
      poll_us = e.poll_us;
      max_segments = 32;
      xmin = e.xmin;
      xmax = e.xmax;
      ymin = e.ymin;
      ymax = e.ymax;
    }

    -- The branch for a datagram with UPQ1.
    unfoldable pub on_query : Server M → Peer → List ℕ → ℕ → Server M
    on_query s from bytes now = elim (Move.parse_query bytes) [
      | none ↦ s
      | some (session, token) ↦ record s {
        book = send_packet s.book from (
            Move.capability_packet
              (capabilities s (mixer.endpoint_snapshot now s.mixer) session token));
      }
    ]
