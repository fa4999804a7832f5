-- ===== src/Server/Owner.antt =====
-- udp_server.cpp: while a client owns the server, a datagram of another one changes nothing that the
-- owner's commands depend on.
use usb_proxy_udp.Server.Line.{same_text, trim_end, codes}
use usb_proxy_udp.Telemetry.{alive}
use usb_proxy_udp.Base.{ℕ, ◌≡◌, refl, List, true, if_cases, option_cases, not, ◌&&◌, arith}
use usb_proxy_udp.Click
use usb_proxy_udp.Move
use usb_proxy_udp.Telemetry
use usb_proxy_udp.Replay.{Peer, same_peer}
use usb_proxy_udp.Server.State.{Mixer, Server, Key, Datagram}
use usb_proxy_udp.Server.Book.{send_packet, send_ack}
use usb_proxy_udp.Server.Moves.{is_owned_by_other, move_request, on_move, on_query, reject}
use usb_proxy_udp.Server.Clicks.{click_request, on_click, malformed, refuse}
use usb_proxy_udp.Server.Motion.{on_subscribe}
use usb_proxy_udp.Server.Loop.{on_line, receive}

-- The states differ in what was sent, and in the subscription.
pub record Untouched {M : Type 0} (s t : Server M) : Type 0 where
  pub mixer : t.mixer ≡ s.mixer
  pub cache : t.book.cache ≡ s.book.cache
  pub work : t.work ≡ s.work
  pub mover : t.mover ≡ s.mover
  pub persistent_buttons : t.persistent_buttons ≡ s.persistent_buttons
  pub scheduled_buttons : t.scheduled_buttons ≡ s.scheduled_buttons
  pub tracked_generation : t.tracked_generation ≡ s.tracked_generation
  pub owner : t.owner ≡ s.owner
  pub last : t.last ≡ s.last
  pub sessions : t.sessions ≡ s.sessions
  pub movement_replay : t.movement_replay ≡ s.movement_replay
  pub accepted_total : t.accepted_total ≡ s.accepted_total
  pub completed_total : t.completed_total ≡ s.completed_total
  pub release_pending : t.release_pending ≡ s.release_pending
  pub release_inflight : t.release_inflight ≡ s.release_inflight
  pub release_key : t.release_key ≡ s.release_key

module _ {M : Type 0} (s : Server M) where
  talked :
      (sent : List Datagram) (subscription : Telemetry.Subscription) (subscriber : Peer) (last : ℕ)
      → Untouched s (record s {
        book = record (s.book) { sent = sent };
        subscription = subscription;
        subscriber = subscriber;
        last_telemetry = last;
      })
  talked sent subscription subscriber last = record {
    mixer = refl;
    cache = refl;
    work = refl;
    mover = refl;
    persistent_buttons = refl;
    scheduled_buttons = refl;
    tracked_generation = refl;
    owner = refl;
    last = refl;
    sessions = refl;
    movement_replay = refl;
    accepted_total = refl;
    completed_total = refl;
    release_pending = refl;
    release_inflight = refl;
    release_key = refl;
  }

  sent_only :
      (sent : List Datagram) → Untouched s (record s { book = record (s.book) { sent = sent } })
  sent_only sent = talked sent s.subscription s.subscriber s.last_telemetry

  on_subscribe-Untouched :
      (from : Peer) (p : List ℕ) (now : ℕ) → Untouched s (on_subscribe s from p now)
  unfolding on_subscribe send_packet
  on_subscribe-Untouched from p now =
      if_cases (Untouched s) (alive s.subscription now && not (same_peer s.subscriber from)) _ _
        (λ _. sent_only _)
        λ _.
          if_cases (Untouched s) (Telemetry.accept s.subscription p now).1 _ _ (λ _. talked _ _ _ _)
            (λ _. sent_only _)

  refuse-Untouched :
      (from : Peer) (key : Key) (button : ℕ) (status : Click.Status) (version : ℕ)
      → Untouched s (refuse s from key button status version)
  unfolding send_ack send_packet
  refuse-Untouched from key button status version = sent_only _

  malformed-Untouched : (from : Peer) (p : List ℕ) → Untouched s (malformed s from p)
  unfolding malformed
  malformed-Untouched from p = refuse-Untouched from _ _ _ _

  module _ (mixer : Mixer M) (from : Peer) (p : List ℕ) (now : ℕ) where
    on_query-Untouched : Untouched s (on_query mixer s from p now)
    unfolding on_query send_packet
    on_query-Untouched =
        option_cases (Untouched s) (Move.parse_query p) _ _ (λ _. sent_only _) (λ _ _. sent_only _)

    module _ (other : is_owned_by_other s.owner from ≡ true) where
      move_request-Untouched : (r : Move.Request) → Untouched s (move_request mixer s from r now)
      unfolding move_request reject send_packet
      move_request-Untouched r =
          if_cases (Untouched s) (is_owned_by_other s.owner from) _ _ (λ _. sent_only _)
            λ e. absurd (cc (e, other))

      click_request-Untouched : (r : Click.Request) → Untouched s (click_request mixer s from r now)
      unfolding click_request
      click_request-Untouched r =
          if_cases (Untouched s) (is_owned_by_other s.owner from) _ _
            (λ _. refuse-Untouched _ _ _ _ _) λ e. absurd (cc (e, other))

      on_move-Untouched : Untouched s (on_move mixer s from p now)
      unfolding on_move
      on_move-Untouched =
          option_cases (Untouched s) (Move.parse p) _ _ (λ _. sent_only _)
            (λ r _. move_request-Untouched r)

      on_click-Untouched : Untouched s (on_click mixer s from p now)
      unfolding on_click
      on_click-Untouched =
          option_cases (Untouched s) (Click.parse p) _ _ (λ _. malformed-Untouched from p)
            (λ r _. click_request-Untouched r)

      on_line-Untouched : Untouched s (on_line mixer s from p now)
      unfolding on_line send_packet
      on_line-Untouched =
          if_cases (Untouched s) (same_text (trim_end p) (codes "+state")) _ _ (λ _. sent_only _)
            λ _.
              if_cases (Untouched s) (is_owned_by_other s.owner from) _ _ (λ _. sent_only _)
                λ e. absurd (cc (e, other))

  -- While a client has the lease, a datagram of another one, of any kind and with any content, leaves the
  -- mixer, the layout that is tracked, the counts of clicks, the cache of commands, the queued clicks, the transaction, the masks of buttons, the owner with its lease,
  -- the sessions, the sequence numbers and the release that is owed as they are.
  pub receive-Untouched :
      (mixer : Mixer M) (from : Peer) (p : List ℕ) (now : ℕ)
      → is_owned_by_other s.owner from ≡ true
      → Untouched s (receive mixer s from p now)
  unfolding receive
  receive-Untouched mixer from p now other = ground (
    arith,
    on_subscribe-Untouched from p now,
    on_query-Untouched mixer from p now,
    on_move-Untouched mixer from p now other,
    on_click-Untouched mixer from p now other,
    on_line-Untouched mixer from p now other,
  )
