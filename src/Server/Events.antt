-- ===== src/Server/Events.antt =====
-- udp_server.cpp: `process_writer_events`, what the server does when the writer has finished reports.
use usb_proxy_udp.Base.{
  ℕ, ◌+◌, ◌-◌, ◌*◌, ◌%◌, ◌^◌, List, [], ◌∷◌, Bool, true, false, not, ◌&&◌, ◌||◌, none, some, leb,
  ltb, ◌==◌, if◌then◌else◌, bit_and,
}
use usb_proxy_udp.Mouse.{ReportKind, release_all_kind, click_press, click_release, WriterEvent}
use usb_proxy_udp.Click
use usb_proxy_udp.Executor.{event}
use usb_proxy_udp.Server.State.{
  Key, no_key, ClickPhase, ClickWork, Mixer, Server, await_press, press_inflight, holding,
  await_release, release_inflight, CachedCommand,
}
use usb_proxy_udp.Server.Book.{find_cache, put_cache}
use usb_proxy_udp.Server.Reset.{sync_move, finish_front, end_command, abandon}
use usb_proxy_udp.Server.Scheduler.{bit_of, set_front}

-- base + delay, held at UINT64_MAX
abbrev pub later : ℕ → ℕ → ℕ
later base delay = if ltb (2 ^ 64 - 1 - delay) base then 2 ^ 64 - 1 else base + delay

abbrev pub is_press : ReportKind → ClickPhase → Bool
is_press click_press press_inflight = true
is_press _ _ = false

abbrev pub is_release : ReportKind → ClickPhase → Bool
is_release click_release release_inflight = true
is_release _ _ = false

abbrev pub is_release_all : ReportKind → Bool
is_release_all release_all_kind = true
is_release_all _ = false

-- The event answers the first click's edge.
unfoldable pub answers : WriterEvent → ClickWork → Bool
answers e click =
    e.session == click.key.session && e.command == click.key.command && e.index == click.index

unfoldable pub press_written : ClickWork → WriterEvent → ClickWork
press_written click e = record click {
  press_written_ns = e.written_ns;
  blocked = e.blocked;
  due_ns = later e.written_ns (if e.blocked then 0 else click.press_us * 1000);
  phase = if e.blocked then await_release else holding;
}

-- The click after one more press and release, with the next press due.
unfoldable pub next_click : ClickWork → WriterEvent → ClickWork
next_click click e = record click {
  index = (click.index + 1) % 2 ^ 32;
  phase = await_press;
  blocked = false;
  due_ns =
      later (if click.version == Click.version2 then e.written_ns else click.press_written_ns)
        (click.interval_us * 1000);
}

-- if(auto* c = find_cache(click.key)) c->completed = click.index;
unfoldable pub note_completed : List CachedCommand → Key → ℕ → List CachedCommand
note_completed cs key index = elim (find_cache cs key) [
  | none ↦ cs
  | some c ↦ put_cache cs (record c { completed = index })
]

module _ {M : Type 0} where
  unfoldable pub release_written : Server M → ClickWork → WriterEvent → Server M
  release_written s click e =
      let index = (click.index + 1) % 2 ^ 32 in
      let counted = record s {
        completed_total = (s.completed_total + 1) % 2 ^ 64;
        book = record (s.book) { cache = note_completed s.book.cache click.key index };
        work = set_front s.work (record click { index = index });
      } in
      if click.blocked || not (bit_and e.final_buttons (bit_of click.button) == 0)
      then finish_front s Click.button_active
      else if leb click.count index
      then finish_front counted Click.completed
      else record counted { work = set_front s.work (next_click click e) }

  unfoldable pub click_event : List ClickWork → Server M → WriterEvent → Server M
  click_event [] s e = s
  click_event (click ∷ rest) s e =
      if not (answers e click)
      then s
      else if is_press e.kind click.phase
      then record s { work = press_written click e ∷ rest }
      else if is_release e.kind click.phase
      then release_written s click e
      else s

  -- The release that was owed has been written.
  unfoldable pub release_done : Server M → Server M
  release_done s =
      let t = record s { release_inflight = false; release_pending = false } in
      let told =
        if s.release_key.session == 0 then t else end_command t s.release_key Click.completed in
      record told { release_key = no_key }

  unfoldable pub answers_release : Server M → WriterEvent → Bool
  answers_release s e =
      is_release_all e.kind
      && s.release_inflight
      && e.session == s.release_key.session
      && e.command == s.release_key.command

  module _ (mixer : Mixer M) where
    unfoldable pub writer_event : Server M → WriterEvent → ℕ → Server M
    writer_event s e now =
        let t = sync_move (record s { mover = event s.mover e }) in
        if not e.success
        then abandon mixer t now
        else if answers_release t e
        then release_done t
        else click_event t.work t e

    unfoldable pub writer_events : List WriterEvent → Server M → ℕ → Server M
    writer_events [] s now = s
    writer_events (e ∷ es) s now = writer_events es (writer_event s e now) now

    unfoldable pub process_writer_events : Server M → ℕ → Server M
    process_writer_events s now =
        let (es, m) = mixer.take_writer_events s.mixer in
        writer_events es (record s { mixer = m }) now
