-- ===== src/Server/Motion.antt =====
-- udp_server.cpp: the branches for a UPX1 movement and a UPS subscription.
use usb_proxy_udp.Base.{ℕ, ◌+◌, ◌*◌, List, not, ◌&&◌, ◌||◌, ltb, ◌==◌, if◌then◌else◌, Bool}
use usb_proxy_udp.Base.Int.{ℤ, pos, sub_ℕ, is_zero}
use usb_proxy_udp.Wire.{byte_at, get32}
use usb_proxy_udp.Mouse.{
  MouseCommand, EndpointSnapshot, ok, movement, persistent_edge, any_activity, ReportRequest,
}
use usb_proxy_udp.Hid.{and_not, no_motion}
use usb_proxy_udp.Replay.{Peer, same_peer}
use usb_proxy_udp.Replay
use usb_proxy_udp.Executor.{is_running}
use usb_proxy_udp.Telemetry.{alive}
use usb_proxy_udp.Telemetry
use usb_proxy_udp.Server.State.{Mixer, Server}
use usb_proxy_udp.Server.Line.{codes}
use usb_proxy_udp.Server.Text.{reply, lease}

-- `read_i16`, and the same for one byte.
unfoldable pub read_i16 : List ℕ → ℕ → ℤ
read_i16 p at =
    let n = byte_at p at * 256 + byte_at p (at + 1) in if ltb n 32768 then pos n else sub_ℕ n 65536

unfoldable pub read_i8 : List ℕ → ℕ → ℤ
read_i8 p at = let n = byte_at p at in if ltb n 128 then pos n else sub_ℕ n 256

unfoldable pub movement_of : List ℕ → MouseCommand
movement_of p = record {
  x = read_i16 p 8;
  y = read_i16 p 10;
  wheel = read_i8 p 12;
  pan = read_i8 p 13;
  buttons = 0;
}

abbrev pub is_moving : MouseCommand → Bool
is_moving command = not (is_zero command.x) || not (is_zero command.y)

abbrev pub is_turning : MouseCommand → Bool
is_turning command = not (is_zero command.wheel) || not (is_zero command.pan)

module _ {M : Type 0} where
  abbrev pub is_transition : Server M → ℕ → Bool
  is_transition s next = not (next == s.persistent_buttons)

  abbrev pub asks_report : Server M → MouseCommand → ℕ → Bool
  asks_report s command next = is_transition s next || is_moving command || is_turning command

  -- The arguments of the call of `enqueue_report`.
  abbrev pub movement_report : Server M → MouseCommand → ℕ → ReportRequest
  movement_report s command next = record {
    command = command;
    persistent = next;
    scheduled = s.scheduled_buttons;
    kind = if is_transition s next then persistent_edge else movement;
    latest = not (is_transition s next) && is_moving command && not (is_turning command);
    session = 0;
    command_id = 0;
    click_index = 0;
    click_button = 0;
    expected_activity = any_activity;
    expected_generation = 0;
  }

  -- The movement was taken: the mask, the number and the lease are renewed.
  unfoldable pub moved : Server M → Peer → ℕ → ℕ → EndpointSnapshot → ℕ → Server M
  moved s from sequence next e now = record (lease s from now) {
    persistent_buttons = next;
    movement_replay = Replay.accept s.movement_replay from sequence now;
    tracked_generation = e.generation;
  }

  module _ (mixer : Mixer M) where
    -- A movement that is not stale, on an endpoint that is ready, while no transaction runs.
    unfoldable pub give_movement :
        Server M → Peer → ℕ → MouseCommand → ℕ → EndpointSnapshot → ℕ → Server M
    give_movement s from sequence command next e now =
        let (result, m) = mixer.enqueue_report (movement_report s command next) now s.mixer in
        let given = record s { mixer = m } in
        if not (asks_report s command next)
        then moved s from sequence next e now
        else elim result [ ok ↦ moved given from sequence next e now | _ ↦ given ]

    -- The branch for a datagram of 16 bytes with UPX1.
    unfoldable pub on_movement : Server M → Peer → List ℕ → ℕ → Server M
    on_movement s from p now =
        let sequence = get32 p 4 in
        let (replay, old) = Replay.stale s.movement_replay from sequence now in
        let looked = record s { movement_replay = replay } in
        let command = movement_of p in
        let next = byte_at p 14 in
        let e = mixer.endpoint_snapshot now s.mixer in
        if not (byte_at p 15 == 0)
        then s
        else if old
        then looked
        else if not e.ready || not (and_not next e.supported == 0)
        then looked
        else if is_running s.mover
        then (if no_motion command && next == 0 then lease looked from now else looked)
        else give_movement looked from sequence command next e now

  -- The branch for a datagram with UPS1, UPS2 or UPS3.
  unfoldable pub on_subscribe : Server M → Peer → List ℕ → ℕ → Server M
  on_subscribe s from p now =
      let (subscription, accepted) = Telemetry.accept s.subscription p now in
      if alive s.subscription now && not (same_peer s.subscriber from)
      then reply s from (codes "busy")
      else if accepted
      then record s { subscription = subscription; subscriber = from; last_telemetry = 0 }
      else s
