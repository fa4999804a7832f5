-- ===== src/Server/Clicks.antt =====
-- udp_server.cpp: the branch for a UPC1 click request.
use usb_proxy_udp.Base.{
  ℕ, ◌+◌, ◌%◌, ◌^◌, List, [], ◌∷◌, ◌++◌, Bool, true, false, not, ◌&&◌, ◌||◌, Option, none, some,
  length, leb, ltb, ◌==◌, if◌then◌else◌, bit_and, bit_or,
}
use usb_proxy_udp.Mouse.{EndpointSnapshot}
use usb_proxy_udp.Wire.{byte_at, get64}
use usb_proxy_udp.Click
use usb_proxy_udp.Replay.{Peer}
use usb_proxy_udp.Sessions.{admit}
use usb_proxy_udp.Sessions
use usb_proxy_udp.Executor.{is_running}
use usb_proxy_udp.Server.State.{
  Key, CachedCommand, ClickWork, await_press, Mixer, Server, max_click_commands,
}
use usb_proxy_udp.Server.Book.{
  find_cache, put_cache, send_ack, send_cached, remove_old_cache, is_full, session_protected,
  new_record,
}
use usb_proxy_udp.Server.Reset.{depth, begin_reset}
use usb_proxy_udp.Server.Scheduler.{bit_of}
use usb_proxy_udp.Server.Moves.{is_owned_by_other}

abbrev same_operation : Click.Operation → Click.Operation → Bool
same_operation a b = Click.operation_code a == Click.operation_code b

unfoldable pub same_request : Click.Request → Click.Request → Bool
same_request a b =
    a.version == b.version
    && same_operation a.operation b.operation
    && a.button == b.button
    && a.count == b.count
    && a.press_us == b.press_us
    && a.interval_us == b.interval_us

abbrev pub click_key : Click.Request → Key
click_key r = record { session = r.session; command = r.command }

unfoldable pub is_invalid : Click.Request → EndpointSnapshot → Bool
is_invalid r e =
    r.count == 0
    || ltb 10_000 r.count
    || ltb r.press_us e.poll_us
    || ltb 5_000_000 r.press_us
    || ltb 60_000_000 r.interval_us
    || (r.version == Click.version1 && ltb r.interval_us (r.press_us + e.poll_us))

unfoldable pub new_click : Click.Request → ℕ → ClickWork
new_click r now = record {
  key = click_key r;
  button = r.button;
  count = r.count;
  press_us = r.press_us;
  interval_us = r.interval_us;
  index = 0;
  press_written_ns = 0;
  due_ns = now;
  phase = await_press;
  version = r.version;
  blocked = false;
  binary = true;
}

abbrev pub is_schedule : Click.Operation → Bool
is_schedule Click.schedule = true
is_schedule Click.release_all = false

module _ {M : Type 0} where
  -- send_ack(from, key, button, status, 0, 0, version)
  abbrev pub refuse : Server M → Peer → Key → ℕ → Click.Status → ℕ → Server M
  refuse s from key button status version = record s {
    book = send_ack s.server_epoch (depth s) s.book from key button status 0 0 version;
  }

  -- What is answered to a datagram that is no request.
  unfoldable pub malformed : Server M → Peer → List ℕ → Server M
  malformed s from bytes =
      let n = length bytes in
      let key : Key =
        if leb 24 n
        then record { session = get64 bytes 8; command = get64 bytes 16 }
        else record { session = 0; command = 0 } in
      refuse s from key (if ltb 6 n then byte_at bytes 6 else 0) Click.invalid
        (if ltb 4 n && byte_at bytes 4 == Click.version2 then Click.version2 else Click.version1)

  -- A request whose key is in the cache.
  unfoldable pub repeat_click : Server M → Peer → Click.Request → CachedCommand → ℕ → Server M
  repeat_click s from r prior now =
      let told = record prior { peer = from } in
      let book = record (s.book) { cache = put_cache s.book.cache told } in
      if prior.movement || not (same_request prior.request r)
      then refuse s from (click_key r) r.button Click.invalid r.version
      else record s {
        owner = some from;
        last = now;
        book =
            send_ack s.server_epoch (depth s) book from prior.key prior.button
              (if prior.terminal then prior.status else Click.duplicate) prior.accepted
              prior.completed prior.request.version;
      }

  -- The reasons to refuse a new click, in order, before the cache and the sessions are asked.
  unfoldable pub click_refusal : Server M → Click.Request → EndpointSnapshot → Option Click.Status
  click_refusal s r e =
      if is_running s.mover
      then some Click.busy
      else if not e.ready
      then some Click.not_ready
      else if ltb r.button 1 || ltb 8 r.button || bit_and e.supported (bit_of r.button) == 0
      then some Click.unsupported_button
      else if is_invalid r e
      then some Click.invalid
      else if not (bit_and (bit_or e.physical s.persistent_buttons) (bit_of r.button) == 0)
      then some Click.button_active
      else if leb max_click_commands (length s.work)
      then some Click.queue_full
      else none

  -- `accept_record`, and `sessions.accept`, where `sessions` is the tracker that has admitted. `none` is
  -- its null pointer.
  unfoldable pub accept_record :
      Server M → Peer → Click.Request → ℕ → Sessions.Tracker → ℕ → Option (Server M)
  accept_record s from r accepted sessions now =
      let trimmed = remove_old_cache s.book.cache in
      if is_full trimmed
      then none
      else some (record s {
        book = record (s.book) { cache = trimmed ++ new_record r from accepted ∷ [] };
        sessions = Sessions.accept sessions r.session r.command now;
        owner = some from;
        last = now;
      })

  -- send_cached(*record, Accepted)
  unfoldable pub send_accepted : Server M → Peer → Click.Request → ℕ → Server M
  send_accepted s from r accepted = record s {
    book = send_cached s.server_epoch (depth s) s.book (new_record r from accepted) Click.accepted;
  }

  -- The clicks are queued.
  unfoldable pub queue_click : Server M → Peer → Click.Request → EndpointSnapshot → ℕ → Server M
  queue_click s from r e now =
      send_accepted
        (record s {
          work = s.work ++ new_click r now ∷ [];
          accepted_total = (s.accepted_total + r.count) % 2 ^ 64;
          tracked_generation = e.generation;
        })
        from r r.count

  -- Room in the cache, and for the session; `force` lets a release take the place of any session.
  unfoldable pub admit_click :
      Server M → Peer → Click.Request → ℕ → ℕ → Bool → (Server M → Server M) → ℕ → Server M
  admit_click s from r accepted button force go now =
      let trimmed = record s { book = record (s.book) { cache = remove_old_cache s.book.cache } } in
      let (sessions, admitted) =
        admit s.sessions r.session now force (session_protected trimmed.book.cache) in
      let asked = record trimmed { sessions = sessions } in
      if is_full trimmed.book.cache
      then refuse trimmed from (click_key r) button Click.queue_full r.version
      else if not admitted
      then refuse asked from (click_key r) button Click.queue_full r.version
      else elim (accept_record asked from r accepted sessions now) [
        | none ↦ refuse asked from (click_key r) button Click.queue_full r.version
        | some t ↦ go t
      ]

  module _ (mixer : Mixer M) where
    unfoldable pub schedule_click : Server M → Peer → Click.Request → ℕ → Server M
    schedule_click s from r now =
        let e = mixer.endpoint_snapshot now s.mixer in
        elim (click_refusal s r e) [
          | some status ↦ refuse s from (click_key r) r.button status r.version
          | none ↦ admit_click s from r r.count r.button false (λ t. queue_click t from r e now) now
        ]

    unfoldable pub release_all : Server M → Peer → Click.Request → ℕ → Server M
    release_all s from r now =
        admit_click s from r 0 0 true
          (λ t. begin_reset mixer (send_accepted t from r 0) true (click_key r) now) now

    unfoldable pub fresh_click : Server M → Peer → Click.Request → ℕ → Server M
    fresh_click s from r now =
        let (sessions, old) = Sessions.stale s.sessions r.session r.command now in
        let looked = record s { sessions = sessions } in
        if old
        then refuse looked from (click_key r) r.button Click.stale_command r.version
        else if is_schedule r.operation
        then schedule_click looked from r now
        else release_all looked from r now

    unfoldable pub click_request : Server M → Peer → Click.Request → ℕ → Server M
    click_request s from r now =
        if is_owned_by_other s.owner from
        then refuse s from (click_key r) r.button Click.busy r.version
        else elim (find_cache s.book.cache (click_key r)) [
          | some prior ↦ repeat_click s from r prior now
          | none ↦ fresh_click s from r now
        ]

    -- The branch for a datagram with UPC1.
    unfoldable pub on_click : Server M → Peer → List ℕ → ℕ → Server M
    on_click s from bytes now = elim (Click.parse bytes) [
      | none ↦ malformed s from bytes
      | some r ↦ click_request s from r now
    ]
