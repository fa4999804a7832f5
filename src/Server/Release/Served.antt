-- ===== src/Server/Release/Served.antt =====
-- udp_server.cpp: the release that is owed goes to the mixer before anything else, and only the writer's
-- answer to it settles it.
use usb_proxy_udp.Move.{bytes_eq}
use usb_proxy_udp.Executor.{event}
use usb_proxy_udp.Server.Release.{
  ended_if, ended, same_key, find-put_same, find-put_other, cache-send_cached, find-terminal,
}
use usb_proxy_udp.Server.Reset.{sync_move, depth, end_command}
use usb_proxy_udp.Server.Events.{release_done, writer_event, answers_release}
use usb_proxy_udp.Server.Book.{sync_ack, find_cache, put_cache}
use usb_proxy_udp.Base.{
  ℕ, ◌≡◌, true, false, arith, List, Option, Bool, ◌≢◌, some, Bool-cases, ap, inl, inr, ◌∙◌,
  if_cases, option_cases, subst, ◌==◌, sym, refl,
}
use usb_proxy_udp.Click
use usb_proxy_udp.Move
use usb_proxy_udp.Mouse.{release_all_kind, ok, WriterEvent}
use usb_proxy_udp.Server.State.{Mixer, Server, no_key, Book, CachedCommand, Key}
use usb_proxy_udp.Server.Scheduler.{edge, owe_release, scheduler_tick}

-- A key that is in the cache stays there when records are written.
found-put :
    (cs : List CachedCommand) (c d : CachedCommand) (key : Key)
    → find_cache cs key ≡ some c
    → (x : CachedCommand) × (find_cache (put_cache cs d) key ≡ some x)
found-put cs c d key e = elim (Bool-cases (same_key d.key key)) [
  | inl same ↦ (d, find-put_same cs c d key e same)
  | inr other ↦ (c, find-put_other cs d key other ∙ e)
]

found-sync_ack :
    (epoch depth : ℕ) (b : Book) (a : Move.Ack) (c : CachedCommand) (key : Key)
    → find_cache b.cache key ≡ some c
    → (x : CachedCommand) × (find_cache (sync_ack epoch depth b a).cache key ≡ some x)
unfolding sync_ack
found-sync_ack epoch depth b a c key e =
    option_cases (λ (u : Book). (x : CachedCommand) × (find_cache u.cache key ≡ some x))
      (find_cache b.cache (record { session = a.session; command = a.command })) _ _ (λ _. (c, e))
      λ prior _.
        let d = record prior { move_ack = a; terminal = Move.terminal a.status } in
        let stays = found-put b.cache c d key e in
        if_cases (λ (u : Book). (x : CachedCommand) × (find_cache u.cache key ≡ some x))
          (a.session == 0) _ _ (λ _. (c, e))
          λ _.
            if_cases (λ (u : Book). (x : CachedCommand) × (find_cache u.cache key ≡ some x))
              (bytes_eq (Move.ack_packet prior.move_ack) (Move.ack_packet a)) _ _ (λ _. stays)
              (λ _. (stays.0, ap (λ cs. find_cache cs key) (cache-send_cached _ _ _ _ _) ∙ stays.1))

ended-some :
    (o : Option CachedCommand) (x : CachedCommand) (b : Bool)
    → o ≡ some x
    → b ≡ true
    → ended_if b Click.completed o ≡ some (ended Click.completed x)
ended-some o x b e same = cc (ap (ended_if true Click.completed) e, same)

module _ {M : Type 0} where
  -- The release that `s` owes has been served, and the client that waits for it was told.
  abbrev pub IsServed : Server M → Server M → Type 0
  IsServed s u =
      (u.release_pending ≡ false)
      × (u.release_inflight ≡ false)
      × (u.release_key ≡ no_key)
      × (u.work ≡ s.work)
      × ((d : CachedCommand) × (find_cache u.book.cache s.release_key ≡ some d)
          × (d.terminal ≡ true)
          × (d.status ≡ Click.completed))

  release_done-IsServed :
      (s : Server M) (c : CachedCommand)
      → s.release_key.session ≢ 0
      → find_cache s.book.cache s.release_key ≡ some c
      → IsServed s (release_done s)
  unfolding release_done
  release_done-IsServed s c named found =
      let t = record s { release_inflight = false; release_pending = false } in
      if_cases (λ (u : Server M). IsServed s (record u { release_key = no_key }))
        (s.release_key.session == 0) t (end_command t s.release_key Click.completed)
        (λ unnamed. absurd (ground (arith, unnamed, named)))
        λ _. (
          refl,
          refl,
          refl,
          refl,
          (
            ended Click.completed c,
            find-terminal _ _ s.book s.release_key s.release_key Click.completed
                ∙ ended-some _ c (same_key s.release_key s.release_key) found (ground arith),
            refl,
            refl,
          ),
        )

module _ {M : Type 0} (mixer : Mixer M) where
  -- The mixer takes the release: it is on its way, and nothing else has changed.
  pub tick_sends :
      (s : Server M) (now : ℕ)
      → s.release_pending ≡ true
      → s.release_inflight ≡ false
      → (mixer.enqueue_report (edge 0 0 release_all_kind s.release_key 0 0) now s.mixer).0 ≡ ok
      → scheduler_tick mixer s now ≡ record s {
        mixer = (mixer.enqueue_report (edge 0 0 release_all_kind s.release_key 0 0) now s.mixer).1;
        release_inflight = true;
      }
  unfolding scheduler_tick owe_release
  tick_sends s now pending free taken = ground (arith, pending, free, taken)

  event_serves :
      (s : Server M) (e : WriterEvent) (now : ℕ)
      → e.success ≡ true
      → answers_release s e ≡ true
      → writer_event mixer s e now ≡ release_done (sync_move (record s { mover = event s.mover e }))
  unfolding writer_event answers_release sync_move
  event_serves s e now success answers = ground (arith, success, answers)

  -- A release that is owed and not yet on its way, for a command with a session that is not 0 and a record
  -- in the cache, is served if the mixer takes it and the writer succeeds with it: once the writer has
  -- reported the success of a release with that session and command, no release is owed or on its way, no queued click was touched in between, and
  -- the record of the command that asked for the release says that it has completed.
  pub release-IsServed :
      (s : Server M) (now later : ℕ) (e : WriterEvent) (c : CachedCommand)
      → s.release_pending ≡ true
      → s.release_inflight ≡ false
      → (mixer.enqueue_report (edge 0 0 release_all_kind s.release_key 0 0) now s.mixer).0 ≡ ok
      → s.release_key.session ≢ 0
      → find_cache s.book.cache s.release_key ≡ some c
      → (e.success ≡ true)
        × (e.kind ≡ release_all_kind)
        × (e.session ≡ s.release_key.session)
        × (e.command ≡ s.release_key.command)
      → IsServed s (writer_event mixer (scheduler_tick mixer s now) e later)
  unfolding answers_release sync_move
  release-IsServed s now later e c pending free taken named found answer =
      let sent = record s {
        mixer = (mixer.enqueue_report (edge 0 0 release_all_kind s.release_key 0 0) now s.mixer).1;
        release_inflight = true;
      } in
      let synced = sync_move (record sent { mover = event s.mover e }) in
      let still =
        found-sync_ack s.server_epoch (depth sent) s.book (event s.mover e).ack c s.release_key
          found in
      subst (λ (u : Server M). IsServed s u)
        (sym (
          ap (λ (u : Server M). writer_event mixer u e later) (tick_sends s now pending free taken)
          ∙ event_serves sent e later answer.0 (ground (arith, answer))))
        (release_done-IsServed synced still.0 named still.1)
