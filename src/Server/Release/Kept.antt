-- ===== src/Server/Release/Kept.antt =====
-- udp_server.cpp: nothing but the writer's answer settles a release that is owed.
use usb_proxy_udp.Base.{
  ℕ, ◌≡◌, refl, List, [], ◌∷◌, Bool, true, false, arith, ◌&&◌, ◌||◌, not, if_cases, bit_and, ◌==◌,
  leb, ◌+◌, ◌%◌, ◌^◌,
}
use usb_proxy_udp.Click
use usb_proxy_udp.Mouse.{WriterEvent}
use usb_proxy_udp.Executor.{event}
use usb_proxy_udp.Server.State.{Key, no_key, ClickWork, Mixer, Server}
use usb_proxy_udp.Server.Reset.{sync_move, begin_reset, abandon, finish_front}
use usb_proxy_udp.Server.Scheduler.{bit_of}
use usb_proxy_udp.Server.Events.{
  release_written, click_event, writer_event, writer_events, process_writer_events, answers_release,
  is_release_all, answers, is_press, is_release,
}

pub record Owes {M : Type 0} (s : Server M) : Type 0 where
  pub pending : s.release_pending ≡ true

-- The events tell of a release that was written.
abbrev pub has_release : List WriterEvent → Bool
has_release [] = false
has_release (e ∷ es) = (e.success && is_release_all e.kind) || has_release es

-- A state with the release that another owes.
abbrev pub still : {M : Type 0} {t : Server M} → t.release_pending ≡ true → Owes t
still p = record { pending = p }

module _ {M : Type 0} where
  finish_work-Owes :
      (work : List ClickWork) (s : Server M) (status : Click.Status)
      → Owes s
      → Owes (finish_front (record s { work = work }) status)
  unfolding finish_front
  finish_work-Owes [] s status o = still o.pending
  finish_work-Owes (click ∷ rest) s status o =
      if_cases Owes click.binary _ _ (λ _. still o.pending) (λ _. still o.pending)

  finish_front-Owes : (s : Server M) (status : Click.Status) → Owes s → Owes (finish_front s status)
  finish_front-Owes s = finish_work-Owes s.work s

  release_written-Owes :
      (s : Server M) (click : ClickWork) (e : WriterEvent)
      → Owes s
      → Owes (release_written s click e)
  unfolding release_written
  release_written-Owes s click e o =
      if_cases Owes (click.blocked || not (bit_and e.final_buttons (bit_of click.button) == 0)) _ _
        (λ _. finish_front-Owes s Click.button_active o)
        λ _.
          if_cases Owes (leb click.count ((click.index + 1) % 2 ^ 32)) _ _
            (λ _. finish_front-Owes _ Click.completed (still o.pending)) (λ _. still o.pending)

  click_event-Owes :
      (work : List ClickWork) (s : Server M) (e : WriterEvent)
      → Owes s
      → Owes (click_event work s e)
  unfolding click_event
  click_event-Owes [] s e o = o
  click_event-Owes (click ∷ rest) s e o =
      if_cases Owes (not (answers e click)) _ _ (λ _. o)
        λ _.
          if_cases Owes (is_press e.kind click.phase) _ _ (λ _. still o.pending)
            λ _.
              if_cases Owes (is_release e.kind click.phase) _ _
                (λ _. release_written-Owes s click e o) (λ _. o)

  module _ (mixer : Mixer M) where
    pub begin_reset-Owes :
        (s : Server M) (attach : Bool) (key : Key) (now : ℕ)
        → Owes (begin_reset mixer s attach key now)
    unfolding begin_reset
    begin_reset-Owes s attach key now = still refl

    abandon-Owes : (s : Server M) (now : ℕ) → Owes (abandon mixer s now)
    abandon-Owes s now = still (begin_reset-Owes s false no_key now).pending

    event_keeps :
        (s : Server M) (e : WriterEvent) (now : ℕ)
        → (e.success && is_release_all e.kind) ≡ false
        → Owes s
        → Owes (writer_event mixer s e now)
    unfolding writer_event sync_move answers_release
    event_keeps s e now other o =
        let t = sync_move (record s { mover = event s.mover e }) in
        if_cases Owes (not e.success) _ _ (λ _. abandon-Owes t now)
          λ succeeded.
            if_cases Owes (answers_release t e) _ _
              (λ answers. absurd (ground (arith, other, succeeded, answers)))
              (λ _. click_event-Owes t.work t e (still o.pending))

    events_keep :
        (es : List WriterEvent) (s : Server M) (now : ℕ)
        → has_release es ≡ false
        → Owes s
        → Owes (writer_events mixer es s now)
    unfolding writer_events
    events_keep [] s now other o = o
    events_keep (e ∷ es) s now other o =
        events_keep es (writer_event mixer s e now) now (ground (arith, other))
          (event_keeps s e now (ground (arith, other)) o)

    pub process_keeps :
        (s : Server M) (now : ℕ)
        → has_release (mixer.take_writer_events s.mixer).0 ≡ false
        → Owes s
        → Owes (process_writer_events mixer s now)
    unfolding process_writer_events
    process_keeps s now other o = events_keep _ _ now other (still o.pending)
