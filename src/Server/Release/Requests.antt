-- ===== src/Server/Release/Requests.antt =====
-- udp_server.cpp: no request settles a release that is owed.
use usb_proxy_udp.Move.{upq1, upm1}
use usb_proxy_udp.Wire.{has_magic}
use usb_proxy_udp.Server.Book.{remove_old_cache, session_protected, find_cache, is_full}
use usb_proxy_udp.Replay.{Peer}
use usb_proxy_udp.Server.Loop.{receive, is_subscription}
use usb_proxy_udp.Server.Moves.{
  move_request, new_move, on_query, reject, admit_move, on_move, repeat_move, begin_move,
  is_owned_by_other, is_execute, move_key, refusal,
}
use usb_proxy_udp.Server.Clicks.{
  admit_click, click_request, malformed, schedule_click, accept_record, fresh_click, queue_click,
  repeat_click, send_accepted, click_refusal, on_click, click_key, is_schedule, same_request,
  release_all,
}
use usb_proxy_udp.Click.{upc1}
use usb_proxy_udp.Base.{
  ℕ, List, Bool, true, false, ◌&&◌, ◌||◌, not, if_cases, option_cases, leb, ◌==◌, if_some, length,
}
use usb_proxy_udp.Click
use usb_proxy_udp.Move
use usb_proxy_udp.Sessions
use usb_proxy_udp.Sessions.{admit}
use usb_proxy_udp.Server.State.{Mixer, Server}
use usb_proxy_udp.Server.Release.Kept.{Owes, still, begin_reset-Owes}
use usb_proxy_udp.Server.Release.Lines.{on_subscribe-Owes, on_line-Owes}

module _ {M : Type 0} where
  go_on :
      (s : Server M) (from : Peer) (r : Click.Request) (accepted button : ℕ) (force : Bool)
      (go : Server M → Server M) (now : ℕ)
      → ((t : Server M) → Owes t → Owes (go t))
      → Owes s
      → Owes (admit_click s from r accepted button force go now)
  unfolding admit_click accept_record
  go_on s from r accepted button force go now goes o =
      let trimmed = remove_old_cache s.book.cache in
      let asked = admit s.sessions r.session now force (session_protected trimmed) in
      let given =
        accept_record (record s { book = record (s.book) { cache = trimmed }; sessions = asked.0 })
          from r accepted asked.0 now in
      if_cases Owes (is_full trimmed) _ _ (λ _. still o.pending)
        λ _.
          if_cases Owes (not asked.1) _ _ (λ _. still o.pending)
            λ _.
              option_cases Owes given _ _ (λ _. still o.pending)
                λ t e.
                  if_some (λ (u : Server M). Owes (go u)) (is_full (remove_old_cache trimmed)) _ t e
                    (goes _ (still o.pending))

  malformed-Owes :
      (s : Server M) (from : Peer) (bytes : List ℕ) → Owes s → Owes (malformed s from bytes)
  unfolding malformed
  malformed-Owes s from bytes o = still o.pending

  module _ (mixer : Mixer M) where
    new_move-Owes :
        (s : Server M) (from : Peer) (r : Move.Request) (now : ℕ)
        → Owes s
        → Owes (new_move mixer s from r now)
    unfolding new_move reject admit_move begin_move
    new_move-Owes s from r now o =
        let asked = Sessions.stale s.sessions r.session r.command now in
        let looked = record s { sessions = asked.0 } in
        let trimmed = remove_old_cache s.book.cache in
        let e = mixer.endpoint_snapshot now s.mixer in
        let room = admit asked.0 r.session now false (session_protected trimmed) in
        if_cases Owes (not (is_execute r.operation)) _ _ (λ _. still o.pending)
          λ _.
            if_cases Owes asked.1 _ _ (λ _. still o.pending)
              λ _.
                option_cases Owes (refusal looked r e) _ _
                  (λ _.
                    if_cases Owes (is_full trimmed) _ _ (λ _. still o.pending)
                      λ _.
                        if_cases Owes (not room.1) _ _ (λ _. still o.pending)
                          (λ _. still o.pending))
                  (λ _ _. still o.pending)

    move_request-Owes :
        (s : Server M) (from : Peer) (r : Move.Request) (now : ℕ)
        → Owes s
        → Owes (move_request mixer s from r now)
    unfolding move_request reject repeat_move
    move_request-Owes s from r now o =
        if_cases Owes (is_owned_by_other s.owner from) _ _ (λ _. still o.pending)
          λ _.
            if_cases Owes (not (r.epoch == s.server_epoch)) _ _ (λ _. still o.pending)
              λ _.
                option_cases Owes (find_cache s.book.cache (move_key r)) _ _
                  (λ _. new_move-Owes s from r now o)
                  λ prior _.
                    if_cases Owes (not prior.movement || not (Move.same prior.move_request r)) _ _
                      (λ _. still o.pending) (λ _. still o.pending)

    schedule_click-Owes :
        (s : Server M) (from : Peer) (r : Click.Request) (now : ℕ)
        → Owes s
        → Owes (schedule_click mixer s from r now)
    unfolding schedule_click queue_click send_accepted
    schedule_click-Owes s from r now o =
        let e = mixer.endpoint_snapshot now s.mixer in
        option_cases Owes (click_refusal s r e) _ _
          (λ _. go_on s from r r.count r.button false _ now (λ t p. still p.pending) o)
          (λ _ _. still o.pending)

    release_all-Owes :
        (s : Server M) (from : Peer) (r : Click.Request) (now : ℕ)
        → Owes s
        → Owes (release_all mixer s from r now)
    unfolding release_all
    release_all-Owes s from r now =
        go_on s from r 0 0 true _ now λ t p. begin_reset-Owes mixer _ true (click_key r) now

    click_request-Owes :
        (s : Server M) (from : Peer) (r : Click.Request) (now : ℕ)
        → Owes s
        → Owes (click_request mixer s from r now)
    unfolding click_request fresh_click repeat_click
    click_request-Owes s from r now o =
        let asked = Sessions.stale s.sessions r.session r.command now in
        let looked = record s { sessions = asked.0 } in
        if_cases Owes (is_owned_by_other s.owner from) _ _ (λ _. still o.pending)
          λ _.
            option_cases Owes (find_cache s.book.cache (click_key r)) _ _
              (λ _.
                if_cases Owes asked.1 _ _ (λ _. still o.pending)
                  λ _.
                    if_cases Owes (is_schedule r.operation) _ _
                      (λ _. schedule_click-Owes looked from r now (still o.pending))
                      (λ _. release_all-Owes looked from r now (still o.pending)))
              λ prior _.
                if_cases Owes (prior.movement || not (same_request prior.request r)) _ _
                  (λ _. still o.pending) (λ _. still o.pending)

    pub receive-Owes :
        (s : Server M) (from : Peer) (p : List ℕ) (now : ℕ)
        → Owes s
        → Owes (receive mixer s from p now)
    unfolding receive on_query on_move on_click
    receive-Owes s from p now o =
        let long = leb 4 (length p) in
        if_cases Owes (long && is_subscription p) _ _ (λ _. on_subscribe-Owes s from p now o)
          λ _.
            if_cases Owes (long && has_magic p upq1) _ _
              (λ _. option_cases Owes (Move.parse_query p) _ _ (λ _. o) (λ _ _. still o.pending))
              λ _.
                if_cases Owes (long && has_magic p upm1) _ _
                  (λ _.
                    option_cases Owes (Move.parse p) _ _ (λ _. o)
                      (λ r _. move_request-Owes s from r now o))
                  λ _.
                    if_cases Owes (long && has_magic p upc1) _ _
                      (λ _.
                        option_cases Owes (Click.parse p) _ _ (λ _. malformed-Owes s from p o)
                          (λ r _. click_request-Owes s from r now o))
                      (λ _. on_line-Owes mixer s from p now o)
