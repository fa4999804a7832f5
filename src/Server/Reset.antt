-- ===== src/Server/Reset.antt =====
-- udp_server.cpp: `sync_move`, `cancel_work`, `begin_reset` and `finish_front` on the server's variables,
-- at time `now`.
use usb_proxy_udp.Base.{
  ℕ, ◌+◌, [], ◌∷◌, Bool, true, false, not, ◌&&◌, length, ◌==◌, if◌then◌else◌, min, none,
}
use usb_proxy_udp.Click
use usb_proxy_udp.Move
use usb_proxy_udp.Executor.{stop}
use usb_proxy_udp.Server.State.{Key, same_key, Mixer, Server}
use usb_proxy_udp.Server.Book.{terminal, sync_ack, cancel_all}

module _ {M : Type 0} where
  abbrev pending_count : Server M → ℕ
  pending_count s = if s.release_pending then 1 else 0

  abbrev pub depth : Server M → ℕ
  depth s = min 65535 (length s.work + pending_count s)

  abbrev pub end_command : Server M → Key → Click.Status → Server M
  end_command s key status = record s { book = terminal s.server_epoch (depth s) s.book key status }

  unfoldable pub sync_move : Server M → Server M
  sync_move s = record s { book = sync_ack s.server_epoch (depth s) s.book s.mover.ack }

  unfoldable pub cancel_work : Server M → Server M
  cancel_work s = record s {
    book = cancel_all s.server_epoch (pending_count s) s.book s.work;
    work = [];
    scheduled_buttons = 0;
  }

  abbrev stop_mover : Server M → ℕ → Server M
  stop_mover s now = sync_move (record s { mover = stop s.mover Move.cancelled now })

  -- The release that another one takes the place of is cancelled.
  unfoldable pub displace_release : Server M → Bool → Key → Server M
  displace_release s attach key = record s {
    book =
        if attach && not (s.release_key.session == 0) && not (same_key s.release_key key)
        then terminal s.server_epoch (depth s) s.book s.release_key Click.cancelled
        else s.book;
  }

  unfoldable pub finish_front : Server M → Click.Status → Server M
  finish_front s status = elim s.work [
    | [] ↦ s
    | click ∷ rest ↦
        let popped = record s { work = rest; scheduled_buttons = 0 } in
        if click.binary then end_command popped click.key status else popped
  ]

  module _ (mixer : Mixer M) where
    unfoldable pub begin_reset : Server M → Bool → Key → ℕ → Server M
    begin_reset s attach key now =
        let stopped = stop_mover (displace_release (stop_mover s now) attach key) now in
        let idle = cancel_work stopped in
        let (cleared, m) = mixer.clear_synthetic_state now idle.mixer in
        record idle {
          persistent_buttons = 0;
          scheduled_buttons = 0;
          mixer = m;
          tracked_generation = cleared.generation;
          release_inflight = false;
          release_pending = true;
          release_key = if attach then key else idle.release_key;
        }

    -- begin_reset(false, {}); owned = false;
    abbrev pub abandon : Server M → ℕ → Server M
    abandon s now = record (begin_reset s false (record { session = 0; command = 0 }) now) {
      owner = none;
    }
