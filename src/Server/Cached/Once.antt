-- ===== src/Server/Cached/Once.antt =====
-- udp_server.cpp: a click request that is sent again, as a client does that has lost the answer, queues
-- nothing, and is answered as a duplicate.
use usb_proxy_udp.Base.{
  ℕ, ◌≡◌, ◌≢◌, refl, List, [], ◌∷◌, ◌++◌, true, false, none, some, arith, not, ◌||◌, if_cases,
  option_cases, subst, if_some,
}
use usb_proxy_udp.Click
use usb_proxy_udp.Sessions
use usb_proxy_udp.Sessions.{admit}
use usb_proxy_udp.Mouse.{EndpointSnapshot}
use usb_proxy_udp.Replay.{Peer}
use usb_proxy_udp.Server.State.{Mixer, Server, CachedCommand}
use usb_proxy_udp.Server.Book.{
  find_cache, remove_old_cache, is_full, session_protected, new_record, send_cached, send_ack,
  send_packet,
}
use usb_proxy_udp.Server.Reset.{depth}
use usb_proxy_udp.Server.Moves.{is_owned_by_other}
use usb_proxy_udp.Server.Clicks.{
  same_request, click_key, repeat_click, click_refusal, accept_record, send_accepted, queue_click,
  admit_click, schedule_click, fresh_click, click_request, is_schedule,
}
use usb_proxy_udp.Server.Cached.{find-erase_none, find-append_none, Key}

same_request_refl : (r : Click.Request) → same_request r r ≡ true
unfolding same_request
same_request_refl r = ground arith

find-remove_none :
    (cs : List CachedCommand) (key : Key)
    → find_cache cs key ≡ none
    → find_cache (remove_old_cache cs) key ≡ none
unfolding remove_old_cache
find-remove_none cs key = find-erase_none _ cs key

-- The acknowledgment of a click that is known already, with nothing completed.
abbrev pub duplicate_ack : Click.Request → ℕ → ℕ → Click.Ack
duplicate_ack r epoch depth = record {
  status = Click.duplicate;
  button = r.button;
  session = r.session;
  command = r.command;
  server_epoch = epoch;
  accepted_count = r.count;
  completed_count = 0;
  queue_depth = depth;
  version = r.version;
}

module _ {M : Type 0} (from : Peer) (r : Click.Request) where
  -- If the clicks were queued, the record is in the cache and the sender has the lease.
  record Taken (s t : Server M) : Type 0 where
    taken :
        t.work ≢ s.work
        → (find_cache t.book.cache (click_key r) ≡ some (new_record r from r.count))
          × (t.owner ≡ some from)

  idle : (s t : Server M) → t.work ≡ s.work → Taken s t
  idle s t same = record { taken = λ moved. absurd (moved same) }

  accept_record-Taken :
      (s : Server M) (sessions : Sessions.Tracker) (now : ℕ) (t : Server M)
      → find_cache s.book.cache (click_key r) ≡ none
      → accept_record s from r r.count sessions now ≡ some t
      → (find_cache t.book.cache (click_key r) ≡ some (new_record r from r.count))
        × (t.owner ≡ some from)
  unfolding accept_record new_record
  accept_record-Taken s sessions now t fresh e =
      let trimmed = remove_old_cache s.book.cache in
      if_some
        (λ (u : Server M).
          (find_cache u.book.cache (click_key r) ≡ some (new_record r from r.count))
          × (u.owner ≡ some from))
        (is_full trimmed) _ t e
        (
          find-append_none trimmed (new_record r from r.count) (click_key r)
              (find-remove_none s.book.cache _ fresh) (ground arith),
          refl,
        )

  queue_click-Taken :
      (s t : Server M) (e : EndpointSnapshot) (now : ℕ)
      → (find_cache t.book.cache (click_key r) ≡ some (new_record r from r.count))
        × (t.owner ≡ some from)
      → Taken s (queue_click t from r e now)
  unfolding queue_click send_accepted send_cached send_ack send_packet new_record
  queue_click-Taken s t e now found = record { taken = λ _. found }

  schedule_click-Taken :
      (mixer : Mixer M) (s : Server M) (now : ℕ)
      → find_cache s.book.cache (click_key r) ≡ none
      → Taken s (schedule_click mixer s from r now)
  unfolding schedule_click admit_click
  schedule_click-Taken mixer s now fresh =
      let e = mixer.endpoint_snapshot now s.mixer in
      let trimmed = remove_old_cache s.book.cache in
      let asked = admit s.sessions r.session now false (session_protected trimmed) in
      let room = record s { book = record (s.book) { cache = trimmed }; sessions = asked.0 } in
      option_cases (Taken s) (click_refusal s r e) _ _
        (λ _.
          if_cases (Taken s) (is_full trimmed) _ _ (λ _. idle s _ refl)
            λ _.
              if_cases (Taken s) (not asked.1) _ _ (λ _. idle s _ refl)
                λ _.
                  option_cases (Taken s) (accept_record room from r r.count asked.0 now) _ _
                    (λ _. idle s _ refl)
                    λ t given. queue_click-Taken s t e now (
                      accept_record-Taken room asked.0 now t (find-remove_none s.book.cache _ fresh)
                        given))
        (λ _ _. idle s _ refl)

  click_request-Taken :
      (mixer : Mixer M) (s : Server M) (now : ℕ)
      → r.operation ≡ Click.schedule
      → Taken s (click_request mixer s from r now)
  unfolding click_request fresh_click repeat_click
  click_request-Taken mixer s now schedules =
      let asked = Sessions.stale s.sessions r.session r.command now in
      let looked = record s { sessions = asked.0 } in
      if_cases (Taken s) (is_owned_by_other s.owner from) _ _ (λ _. idle s _ refl)
        λ _.
          option_cases (Taken s) (find_cache s.book.cache (click_key r)) _ _
            (λ fresh.
              if_cases (Taken s) asked.1 _ _ (λ _. idle s _ refl)
                λ _.
                  if_cases (Taken s) (is_schedule r.operation) _ _
                    (λ _. record { taken = (schedule_click-Taken mixer looked now fresh).taken })
                    (λ other. absurd (ground (arith, other, schedules))))
            λ prior _.
              if_cases (Taken s) (prior.movement || not (same_request prior.request r)) _ _
                (λ _. idle s _ refl) (λ _. idle s _ refl)

  -- The request is answered, and nothing is queued.
  pub record Answered (t u : Server M) : Type 0 where
    pub work : u.work ≡ t.work
    pub mixer : u.mixer ≡ t.mixer
    pub mover : u.mover ≡ t.mover
    pub sessions : u.sessions ≡ t.sessions
    pub accepted_total : u.accepted_total ≡ t.accepted_total
    pub sent :
        u.book.sent
        ≡ t.book.sent ++ (from, Click.packet (duplicate_ack r t.server_epoch (depth t))) ∷ []

  repeat_click-Answered :
      (t : Server M) (now : ℕ) → Answered t (repeat_click t from r (new_record r from r.count) now)
  unfolding repeat_click new_record send_ack send_packet
  repeat_click-Answered t now =
      if_cases (Answered t) (not (same_request r r)) _ _
        (λ other. absurd (ground (arith, other, same_request_refl r)))
        λ _. record {
          work = refl;
          mixer = refl;
          mover = refl;
          sessions = refl;
          accepted_total = refl;
          sent = refl;
        }

  answered :
      (mixer : Mixer M) (t : Server M) (now : ℕ)
      → (find_cache t.book.cache (click_key r) ≡ some (new_record r from r.count))
        × (t.owner ≡ some from)
      → Answered t (click_request mixer t from r now)
  unfolding click_request
  answered mixer t now found =
      if_cases (Answered t) (is_owned_by_other t.owner from) _ _
        (λ other. absurd (ground (arith, other, found.1)))
        λ _.
          option_cases (Answered t) (find_cache t.book.cache (click_key r)) _ _
            (λ e. absurd (cc (e, found.0)))
            λ prior e.
              subst (λ p. Answered t (repeat_click t from r p now)) (cc (e, found.0))
                (repeat_click-Answered t now)

  -- If a request to schedule clicks has queued them, the same request, from the same client and at any later
  -- time, queues nothing, leaves the mixer, the transaction, the sessions and the count of accepted clicks as
  -- they are, and sends that client one packet: the acknowledgment of a duplicate, with the count that was
  -- accepted.
  pub scheduled_once :
      (mixer : Mixer M) (s : Server M) (now again : ℕ)
      → r.operation ≡ Click.schedule
      → (click_request mixer s from r now).work ≢ s.work
      → Answered
          (click_request mixer s from r now)
          (click_request mixer (click_request mixer s from r now) from r again)
  scheduled_once mixer s now again schedules moved =
      answered mixer (click_request mixer s from r now) again
        ((click_request-Taken mixer s now schedules).taken moved)
