-- ===== src/Server/Control/Events.antt =====
-- udp_server.cpp: `process_writer_events` keeps the rules of the output.
use usb_proxy_udp.Base.{
  ℕ, ◌+◌, ◌%◌, ◌^◌, ◌≡◌, refl, List, [], ◌∷◌, Bool, true, false, arith, leb, if◌then◌else◌, ◌∙◌,
  ◌||◌, not, bit_and, ◌==◌, if_cases,
}
use usb_proxy_udp.Click
use usb_proxy_udp.Mouse.{WriterEvent, ReportKind}
use usb_proxy_udp.Executor.{event}
use usb_proxy_udp.Executor.Running.{event_running}
use usb_proxy_udp.Server.State.{
  Mixer, Server, ClickWork, ClickPhase, holding, await_release, no_key,
}
use usb_proxy_udp.Server.Reset.{sync_move, end_command}
use usb_proxy_udp.Server.Scheduler.{bit_of}
use usb_proxy_udp.Server.Events.{
  press_written, next_click, release_written, click_event, release_done, writer_event,
  writer_events, process_writer_events, is_press, is_release, note_completed,
}
use usb_proxy_udp.Server.Control.{Inv, Control, phase_mask, hold, quieter, Inv_if}
use usb_proxy_udp.Server.Control.Reset.{abandon-Inv, finish_front-Inv, sync_move-Inv, finish_cons}
use usb_proxy_udp.Server.Control.Scheduler.{advance, advance}

press_mask :
    (kind : ReportKind) (phase : ClickPhase) (blocked : Bool) (button : ℕ)
    → is_press kind phase ≡ true
    → phase_mask phase button ≡ phase_mask (if blocked then await_release else holding) button
press_mask kind phase blocked button e = ground arith

release_mask :
    (kind : ReportKind) (phase : ClickPhase) (button : ℕ)
    → is_release kind phase ≡ true
    → phase_mask phase button ≡ 0
release_mask kind phase button e = ground arith

module _ {M : Type 0} where
  press_written-Inv :
      (s : Server M) (click : ClickWork) (rest : List ClickWork) (e : WriterEvent)
      → Inv (record s { work = click ∷ rest })
      → is_press e.kind click.phase ≡ true
      → Inv (record s { work = press_written click e ∷ rest })
  unfolding press_written
  press_written-Inv s click rest e v p =
      let c = v.control in
      hold (
        advance s click (press_written click e) rest s.scheduled_buttons v c.clicks.0
          (c.mask ∙ press_mask e.kind click.phase e.blocked click.button p))

  next_click-Inv :
      (s : Server M) (click : ClickWork) (rest : List ClickWork) (e : WriterEvent)
      → Inv (record s { work = click ∷ rest })
      → is_release e.kind click.phase ≡ true
      → leb click.count ((click.index + 1) % 2 ^ 32) ≡ false
      → Control s.mover
          (next_click click e ∷ rest)
          s.release_pending
          s.release_inflight
          s.persistent_buttons
          s.scheduled_buttons
  unfolding next_click
  next_click-Inv s click rest e v p more =
      let c = v.control in
      advance s click (next_click click e) rest s.scheduled_buttons v
        (c.clicks.0.0, c.clicks.0.1, ground (arith, more), c.clicks.0.3)
        (c.mask ∙ release_mask e.kind click.phase click.button p)

  release_written-Inv :
      (s : Server M) (click : ClickWork) (rest : List ClickWork) (e : WriterEvent)
      → Inv (record s { work = click ∷ rest })
      → is_release e.kind click.phase ≡ true
      → Inv (release_written (record s { work = click ∷ rest }) click e)
  unfolding release_written
  release_written-Inv s click rest e v p =
      let index = (click.index + 1) % 2 ^ 32 in
      let counted = record s {
        completed_total = (s.completed_total + 1) % 2 ^ 64;
        book = record (s.book) { cache = note_completed s.book.cache click.key index };
      } in
      Inv_if (click.blocked || not (bit_and e.final_buttons (bit_of click.button) == 0)) _ _
        (λ _. finish_front-Inv (record s { work = click ∷ rest }) Click.button_active v)
        λ _.
          Inv_if (leb click.count index) _ _
            (λ _.
              finish_cons counted (record click { index = index }) click rest Click.completed
                (hold v.control))
            (λ more. hold (next_click-Inv s click rest e v p more))

  click_event-Inv :
      (work : List ClickWork) (s : Server M) (e : WriterEvent)
      → Inv (record s { work = work })
      → Inv (click_event work (record s { work = work }) e)
  unfolding click_event
  click_event-Inv [] s e v = v
  click_event-Inv (click ∷ rest) s e v =
      ground (arith, v, press_written-Inv s click rest e v, release_written-Inv s click rest e v)

  release_done-Inv : (s : Server M) → Inv s → Inv (release_done s)
  unfolding release_done
  release_done-Inv s v =
      let c = v.control in
      let done : Control s.mover s.work false false s.persistent_buttons s.scheduled_buttons =
        record {
          exclusive = λ run. ((c.exclusive run).0, refl, (c.exclusive run).2);
          owed = λ on. absurd (cc on);
          bounded = c.bounded;
          clicks = c.clicks;
          mask = c.mask;
        } in
      let t = record s { release_inflight = false; release_pending = false } in
      if_cases (λ (u : Server M). Inv (record u { release_key = no_key }))
        (s.release_key.session == 0) t (end_command t s.release_key Click.completed)
        (λ _. hold done) (λ _. hold done)

  module _ (mixer : Mixer M) where
    writer_event-Inv :
        (s : Server M) (e : WriterEvent) (now : ℕ) → Inv s → Inv (writer_event mixer s e now)
    unfolding writer_event
    writer_event-Inv s e now v =
        let t = sync_move (record s { mover = event s.mover e }) in
        let w : Inv t = sync_move-Inv _ (hold (quieter (event_running s.mover e) v.control)) in
        ground
          (arith, w, abandon-Inv mixer t now, release_done-Inv t w, click_event-Inv t.work t e w)

    writer_events-Inv :
        (es : List WriterEvent) (s : Server M) (now : ℕ)
        → Inv s
        → Inv (writer_events mixer es s now)
    unfolding writer_events
    writer_events-Inv [] s now v = v
    writer_events-Inv (e ∷ es) s now v =
        writer_events-Inv es (writer_event mixer s e now) now (writer_event-Inv s e now v)

    pub process_writer_events-Inv :
        (s : Server M) (now : ℕ) → Inv s → Inv (process_writer_events mixer s now)
    unfolding process_writer_events
    process_writer_events-Inv s now v = writer_events-Inv _ _ now (hold v.control)
