-- ===== src/Server/Scheduler.antt =====
-- udp_server.cpp: `scheduler_tick`, which hands the mixer the release that is owed, or the next edge of
-- the first click.
use usb_proxy_udp.Base.{
  ℕ, ◌-◌, ◌^◌, ◌%◌, List, [], ◌∷◌, true, false, not, ◌&&◌, ◌||◌, leb, ◌==◌, if◌then◌else◌, bit_and,
  bit_or,
}
use usb_proxy_udp.Mouse.{
  no_command, ReportKind, release_all_kind, click_press, click_release, EnqueueResult, ok,
  unsupported, any_activity, ReportRequest,
}
use usb_proxy_udp.Hid.{and_not}
use usb_proxy_udp.Click
use usb_proxy_udp.Server.State.{
  Key, no_key, ClickPhase, ClickWork, Mixer, Server, await_press, press_inflight, holding,
  await_release, release_inflight,
}
use usb_proxy_udp.Server.Reset.{begin_reset, finish_front}

-- uint8_t(1u << (button - 1)), for a button from 1 to 8
abbrev pub bit_of : ℕ → ℕ
bit_of button = 2 ^ (button - 1) % 256

-- The arguments of a call of `enqueue_report` without motion.
abbrev pub edge : ℕ → ℕ → ReportKind → Key → ℕ → ℕ → ReportRequest
edge persistent scheduled kind key index button = record {
  command = no_command;
  persistent = persistent;
  scheduled = scheduled;
  kind = kind;
  latest = false;
  session = key.session;
  command_id = key.command;
  click_index = index;
  click_button = button;
  expected_activity = any_activity;
  expected_generation = 0;
}

-- The first click of the queue, after a change.
abbrev pub set_front : List ClickWork → ClickWork → List ClickWork
set_front [] click = []
set_front (old ∷ rest) click = click ∷ rest

module _ {M : Type 0} (mixer : Mixer M) where
  -- The release that is owed, if it is not on its way.
  unfoldable pub owe_release : Server M → ℕ → Server M
  owe_release s now =
      let (result, m) =
        mixer.enqueue_report (edge 0 0 release_all_kind s.release_key 0 0) now s.mixer in
      let asked = s.release_pending && not s.release_inflight in
      record s {
        mixer = if asked then m else s.mixer;
        release_inflight =
            if asked
            then elim result [ ok ↦ true | _ ↦ s.release_inflight ]
            else s.release_inflight;
      }

  -- What becomes of the first click when the mixer has answered.
  unfoldable pub pressed : Server M → ClickWork → ℕ → ℕ → EnqueueResult × M → Server M
  pressed s click next now (ok, m) = record s {
    mixer = m;
    scheduled_buttons = next;
    work = set_front s.work (record click { phase = press_inflight });
  }
  pressed s click next now (unsupported, m) =
      begin_reset mixer (record s { mixer = m }) false no_key now
  pressed s click next now (_, m) = record s { mixer = m }

  unfoldable pub released : Server M → ClickWork → ℕ → ℕ → EnqueueResult × M → Server M
  released s click next now (ok, m) = record s {
    mixer = m;
    scheduled_buttons = next;
    work = set_front s.work (record click { phase = release_inflight });
  }
  released s click next now (unsupported, m) =
      begin_reset mixer (record s { mixer = m }) false no_key now
  released s click next now (_, m) = record s {
    mixer = m;
    work = set_front s.work (record click { phase = await_release });
  }

  unfoldable pub start_press : Server M → ClickWork → ℕ → Server M
  start_press s click now =
      let e = mixer.endpoint_snapshot now s.mixer in
      let bit = bit_of click.button in
      let next = bit_or s.scheduled_buttons bit in
      let busy =
        bit_and (bit_or (bit_or e.physical s.persistent_buttons) s.scheduled_buttons) bit in
      if not e.ready || not (e.generation == s.tracked_generation)
      then begin_reset mixer s false no_key now
      else if not (busy == 0)
      then finish_front s Click.button_active
      else pressed s click next now (
          mixer.enqueue_report
            (edge s.persistent_buttons next click_press click.key click.index click.button) now
            s.mixer)

  unfoldable pub start_release : Server M → ClickWork → ℕ → Server M
  start_release s click now =
      let next = and_not s.scheduled_buttons (bit_of click.button) in
      released s click next now (
        mixer.enqueue_report
          (edge s.persistent_buttons next click_release click.key click.index click.button) now
          s.mixer)

  unfoldable pub click_tick : ClickPhase → Server M → ClickWork → ℕ → Server M
  click_tick await_press s click now = if leb click.due_ns now then start_press s click now else s
  click_tick holding s click now = if leb click.due_ns now then start_release s click now else s
  click_tick await_release s click now =
      if leb click.due_ns now then start_release s click now else s
  click_tick _ s click now = s

  unfoldable pub work_tick : List ClickWork → Server M → ℕ → Server M
  work_tick [] s now = s
  work_tick (click ∷ rest) s now = click_tick click.phase s click now

  unfoldable pub scheduler_tick : Server M → ℕ → Server M
  scheduler_tick s now =
      let t = owe_release s now in if t.release_pending then t else work_tick t.work t now
