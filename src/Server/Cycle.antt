-- ===== src/Server/Cycle.antt =====
-- udp_server.cpp: a queued click runs to its end. A cycle is a press and a release, each handed to the mixer
-- when it is due and then reported by the writer.
pub mod Run
use usb_proxy_udp.Executor.{event}
use usb_proxy_udp.Server.Reset.{sync_move, finish_front}
use usb_proxy_udp.Base.Int.{pos}
use usb_proxy_udp.Server.Events.{
  later, writer_event, answers_release, click_event, answers, press_written, release_written,
  next_click, note_completed,
}
use usb_proxy_udp.Base.{
  ℕ, ◌≡◌, ◌≤◌, List, ◌∷◌, true, false, arith, ◌*◌, ◌+◌, ◌%◌, leb, ◌^◌, bit_and,
}
use usb_proxy_udp.Mouse.{click_press, ok, ReportRequest, ReportKind, WriterEvent, click_release}
use usb_proxy_udp.Server.State.{
  ClickWork, await_press, press_inflight, Mixer, Server, ClickPhase, holding, release_inflight,
}
use usb_proxy_udp.Server.Scheduler.{
  bit_of, edge, scheduler_tick, owe_release, work_tick, click_tick, start_press, pressed,
  start_release, released,
}
use usb_proxy_udp.Server.Control.Scheduler.{bit_laws}

-- The click is the first of the queue, in a phase, with the mask of scheduled buttons; no release is owed
-- and no button is held.
abbrev pub at_front :
    {M : Type 0} → Server M → ClickPhase → ℕ → ClickWork → List ClickWork → Server M
at_front s phase mask c rest = record s {
  work = record c { phase = phase } ∷ rest;
  release_pending = false;
  scheduled_buttons = mask;
  persistent_buttons = 0;
}

-- The event says that the click's edge was written.
abbrev pub Reports : ClickWork → ReportKind → WriterEvent → Type 0
Reports c kind e =
    (e.success ≡ true)
    × (e.kind ≡ kind)
    × (e.session ≡ c.key.session)
    × (e.command ≡ c.key.command)
    × (e.index ≡ c.index)

abbrev pub pressed_at : ClickWork → WriterEvent → ClickWork
pressed_at c e = record c {
  press_written_ns = e.written_ns;
  blocked = false;
  due_ns = later e.written_ns (c.press_us * 1000);
}

-- What happens around the server in a press and a release: the times of the calls, the writer's events, and
-- the mixer's state after its other callers, the writer and the mouse, have acted.
pub record Turn (M : Type 0) : Type 0 where
  pub press_now : ℕ
  pub after_press : M
  pub press_event : WriterEvent
  pub release_now : ℕ
  pub after_release : M
  pub release_event : WriterEvent

-- One more press and release are counted.
abbrev pub counted : {M : Type 0} → Server M → ClickWork → Server M
counted s c = record s {
  completed_total = (s.completed_total + 1) % 2 ^ 64;
  book = record (s.book) { cache = note_completed s.book.cache c.key ((c.index + 1) % 2 ^ 32) };
}

-- The click has left the queue after `n` more presses and releases.
abbrev pub Ended : {M : Type 0} → ℕ → Server M → List ClickWork → Server M → Type 0
Ended n s rest u =
    (u.work ≡ rest)
    × (u.scheduled_buttons ≡ 0)
    × (u.completed_total ≡ (s.completed_total + n) % 2 ^ 64)

module _ {M : Type 0} (mixer : Mixer M) where
  -- The turn lets the click, with the mixer in state `m`, be pressed and released: it is due, the endpoint is
  -- ready, of generation `g` and without a physical button, the mixer takes the two reports, and the writer
  -- writes both, the press on a free button and the release with the button up.
  abbrev pub IsServed : ℕ → M → ClickWork → Turn M → Type 0
  IsServed g m c t =
      let d = pressed_at c t.press_event in
      let snapshot = mixer.endpoint_snapshot t.press_now m in
      let press = edge 0 (bit_of c.button) click_press c.key c.index c.button in
      let release = edge 0 0 click_release c.key c.index c.button in
      (c.due_ns ≤ t.press_now)
      × (snapshot.ready ≡ true)
      × (snapshot.generation ≡ g)
      × (snapshot.physical ≡ 0)
      × ((mixer.enqueue_report press t.press_now m).0 ≡ ok)
      × Reports c click_press t.press_event
      × (t.press_event.blocked ≡ false)
      × (d.due_ns ≤ t.release_now)
      × ((mixer.enqueue_report release t.release_now t.after_press).0 ≡ ok)
      × Reports d click_release t.release_event
      × (bit_and t.release_event.final_buttons (bit_of c.button) ≡ 0)

  -- The server over another state of the mixer.
  abbrev pub over : Server M → M → Server M
  over s m = record s { mixer = m }

  -- The server after the transaction has seen an event.
  abbrev pub seen : Server M → WriterEvent → Server M
  seen s e = sync_move (record s { mover = event s.mover e })

  pub tick_presses :
      (s : Server M) (c : ClickWork) (rest : List ClickWork) (t : Turn M)
      → IsServed s.tracked_generation s.mixer c t
      → c.button ≤ 8
      → over (scheduler_tick mixer (at_front s await_press 0 c rest) t.press_now) t.after_press
        ≡ at_front (over s t.after_press) press_inflight (bit_of c.button) c rest
  unfolding scheduler_tick owe_release work_tick click_tick start_press pressed
  tick_presses s c rest t (due, ready, same, free, taken, _, _, _, _, _, _) high =
      ground (arith, due, ready, same, free, taken, bit_laws c.button high)

  pub tick_releases :
      (s : Server M) (c : ClickWork) (rest : List ClickWork) (now : ℕ) (after : M)
      → c.due_ns ≤ now
      → (mixer.enqueue_report (edge 0 0 click_release c.key c.index c.button) now s.mixer).0 ≡ ok
      → c.button ≤ 8
      → over (scheduler_tick mixer (at_front s holding (bit_of c.button) c rest) now) after
        ≡ at_front (over s after) release_inflight 0 c rest
  unfolding scheduler_tick owe_release work_tick click_tick start_release released
  tick_releases s c rest now after due taken high =
      ground (arith, due, taken, bit_laws c.button high)

  pub event_presses :
      (s : Server M) (c : ClickWork) (rest : List ClickWork) (mask : ℕ) (e : WriterEvent) (now : ℕ)
      → Reports c click_press e
      → e.blocked ≡ false
      → writer_event mixer (at_front s press_inflight mask c rest) e now
        ≡ at_front
            (seen (at_front s press_inflight mask c rest) e)
            holding
            mask
            (pressed_at c e)
            rest
  unfolding writer_event answers_release click_event answers press_written sync_move
  event_presses s c rest mask e now (done, kind, session, command, index) free =
      ground (arith, done, kind, session, command, index, free)

  -- The release was written and the click has presses left: it waits for the next one.
  pub event_goes_on :
      (s : Server M) (c : ClickWork) (rest : List ClickWork) (e : WriterEvent) (now : ℕ)
      → Reports c click_release e
      → bit_and e.final_buttons (bit_of c.button) ≡ 0
      → c.blocked ≡ false
      → leb c.count ((c.index + 1) % 2 ^ 32) ≡ false
      → writer_event mixer (at_front s release_inflight 0 c rest) e now
        ≡ at_front
            (counted (seen (at_front s release_inflight 0 c rest) e) c)
            await_press
            0
            (next_click c e)
            rest
  unfolding writer_event answers_release click_event answers release_written next_click sync_move
  event_goes_on s c rest e now (done, kind, session, command, index) up free more =
      ground (arith, done, kind, session, command, index, up, free, more)

  pub event_ends :
      (s : Server M) (c : ClickWork) (rest : List ClickWork) (e : WriterEvent) (now : ℕ)
      → Reports c click_release e
      → bit_and e.final_buttons (bit_of c.button) ≡ 0
      → c.blocked ≡ false
      → leb c.count ((c.index + 1) % 2 ^ 32) ≡ true
      → Ended 1 s rest (writer_event mixer (at_front s release_inflight 0 c rest) e now)
  unfolding writer_event answers_release click_event answers release_written finish_front sync_move
  event_ends s c rest e now (done, kind, session, command, index) up free last =
      ground (arith, done, kind, session, command, index, up, free, last)
