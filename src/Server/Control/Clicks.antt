-- ===== src/Server/Control/Clicks.antt =====
-- udp_server.cpp: click requests keep the rules of the output.
use usb_proxy_udp.Sessions.{admit}
use usb_proxy_udp.Server.Book.{find_cache, remove_old_cache, session_protected, is_full}
use usb_proxy_udp.Server.Moves.{is_owned_by_other}
use usb_proxy_udp.Base.{
  ℕ, ◌≡◌, ◌<◌, List, Bool, none, false, arith, length, Option, refl, true, ◌||◌, not, if_some,
}
use usb_proxy_udp.Click
use usb_proxy_udp.Sessions
use usb_proxy_udp.Mouse.{EndpointSnapshot}
use usb_proxy_udp.Replay.{Peer}
use usb_proxy_udp.Executor.{is_running}
use usb_proxy_udp.Server.State.{Mixer, Server, CachedCommand, Book}
use usb_proxy_udp.Server.Control.{Inv, IsClick, hold, Inv_if, Inv_option}
use usb_proxy_udp.Server.Control.Reset.{begin_reset-Inv}
use usb_proxy_udp.Server.Control.Requests.{append-Control}
use usb_proxy_udp.Server.Clicks.{
  malformed, repeat_click, click_refusal, new_click, accept_record, send_accepted, queue_click,
  admit_click, schedule_click, release_all, fresh_click, click_request, on_click, is_invalid,
  is_schedule, click_key, same_request,
}

module _ {M : Type 0} where
  -- What `click_refusal` leaves: a click that may be queued.
  abbrev HasRoom : Server M → Click.Request → ℕ → Type 0
  HasRoom s r now = (is_running s.mover ≡ false) × (length s.work < 64) × IsClick (new_click r now)

  click_refusal-HasRoom :
      (s : Server M) (r : Click.Request) (e : EndpointSnapshot) (now : ℕ)
      → click_refusal s r e ≡ none
      → HasRoom s r now
  unfolding click_refusal is_invalid new_click
  click_refusal-HasRoom s r e now fine = ground (arith, fine)

  queue_click-Inv :
      (s : Server M) (from : Peer) (r : Click.Request) (e : EndpointSnapshot) (now : ℕ)
      → HasRoom s r now
      → Inv s
      → Inv (queue_click s from r e now)
  unfolding queue_click send_accepted new_click
  queue_click-Inv s from r e now room v =
      hold (append-Control s (new_click r now) v room.0 room.1 room.2 refl)

  repeat_click-Inv :
      (s : Server M) (from : Peer) (r : Click.Request) (prior : CachedCommand) (now : ℕ)
      → Inv s
      → Inv (repeat_click s from r prior now)
  unfolding repeat_click
  repeat_click-Inv s from r prior now v =
      Inv_if (prior.movement || not (same_request prior.request r)) _ _ (λ _. hold v.control)
        (λ _. hold v.control)

  malformed-Inv :
      (s : Server M) (from : Peer) (bytes : List ℕ) → Inv s → Inv (malformed s from bytes)
  unfolding malformed
  malformed-Inv s from bytes v = hold v.control

  -- A command that is admitted changes the book, the sessions and the owner, and goes on.
  admit_click-Inv :
      (s : Server M) (from : Peer) (r : Click.Request) (accepted button : ℕ) (force : Bool)
      (go : Server M → Server M) (now : ℕ)
      → ((book : Book) (sessions : Sessions.Tracker) (owner : Option Peer) (last : ℕ)
          → Inv (go (record s { book = book; sessions = sessions; owner = owner; last = last })))
      → Inv s
      → Inv (admit_click s from r accepted button force go now)
  unfolding admit_click accept_record
  admit_click-Inv s from r accepted button force go now goes v =
      let trimmed = remove_old_cache s.book.cache in
      let asked = admit s.sessions r.session now force (session_protected trimmed) in
      let full = is_full (remove_old_cache trimmed) in
      Inv_if (is_full trimmed) _ _ (λ _. hold v.control)
        λ _.
          Inv_if (not asked.1) _ _ (λ _. hold v.control)
            λ _.
              Inv_option
                (accept_record
                  (record s { book = record (s.book) { cache = trimmed }; sessions = asked.0 }) from
                  r accepted asked.0 now)
                _ _ (λ _. hold v.control)
                λ t given. if_some (λ (u : Server M). Inv (go u)) full _ t given (goes _ _ _ _)

  module _ (mixer : Mixer M) where
    schedule_click-Inv :
        (s : Server M) (from : Peer) (r : Click.Request) (now : ℕ)
        → Inv s
        → Inv (schedule_click mixer s from r now)
    unfolding schedule_click
    schedule_click-Inv s from r now v =
        let e = mixer.endpoint_snapshot now s.mixer in
        Inv_option (click_refusal s r e) _ _
          (λ fine.
            admit_click-Inv s from r r.count r.button false (λ t. queue_click t from r e now) now
              (λ book sessions owner last.
                queue_click-Inv
                  (record s { book = book; sessions = sessions; owner = owner; last = last }) from r
                  e now (click_refusal-HasRoom s r e now fine) (hold v.control))
              v)
          (λ _ _. hold v.control)

    release_all-Inv :
        (s : Server M) (from : Peer) (r : Click.Request) (now : ℕ)
        → Inv s
        → Inv (release_all mixer s from r now)
    unfolding release_all
    release_all-Inv s from r now =
        admit_click-Inv s from r 0 0 true _ now
          λ book sessions owner last. begin_reset-Inv mixer _ true (click_key r) now

    fresh_click-Inv :
        (s : Server M) (from : Peer) (r : Click.Request) (now : ℕ)
        → Inv s
        → Inv (fresh_click mixer s from r now)
    unfolding fresh_click
    fresh_click-Inv s from r now v =
        let asked = Sessions.stale s.sessions r.session r.command now in
        let looked = record s { sessions = asked.0 } in
        Inv_if asked.1 _ _ (λ _. hold v.control)
          λ _.
            Inv_if (is_schedule r.operation) _ _
              (λ _. schedule_click-Inv looked from r now (hold v.control))
              (λ _. release_all-Inv looked from r now (hold v.control))

    click_request-Inv :
        (s : Server M) (from : Peer) (r : Click.Request) (now : ℕ)
        → Inv s
        → Inv (click_request mixer s from r now)
    unfolding click_request
    click_request-Inv s from r now v =
        Inv_if (is_owned_by_other s.owner from) _ _ (λ _. hold v.control)
          λ _.
            Inv_option (find_cache s.book.cache (click_key r)) _ _
              (λ _. fresh_click-Inv s from r now v) λ prior _. repeat_click-Inv s from r prior now v

    pub on_click-Inv :
        (s : Server M) (from : Peer) (bytes : List ℕ) (now : ℕ)
        → Inv s
        → Inv (on_click mixer s from bytes now)
    unfolding on_click
    on_click-Inv s from bytes now v =
        Inv_option (Click.parse bytes) _ _ (λ _. malformed-Inv s from bytes v)
          λ r _. click_request-Inv s from r now v
