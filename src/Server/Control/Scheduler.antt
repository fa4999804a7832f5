-- ===== src/Server/Control/Scheduler.antt =====
-- udp_server.cpp: `scheduler_tick` keeps the rules of the output.
use usb_proxy_udp.Base.Bits.{every_sound, every}
use usb_proxy_udp.Base.{
  ℕ, ◌≡◌, ◌≤◌, refl, List, [], ◌∷◌, Bool, false, arith, bit_or, ap, ◌==◌, ◌∙◌, ◌&&◌, bit_and,
}
use usb_proxy_udp.Click
use usb_proxy_udp.Mouse.{EnqueueResult, ok, not_ready, unsupported, queue_full, click_press}
use usb_proxy_udp.Hid.{and_not}
use usb_proxy_udp.Server.State.{
  Mixer, Server, ClickWork, ClickPhase, await_press, press_inflight, holding, await_release,
  release_inflight, no_key,
}
use usb_proxy_udp.Server.Scheduler.{
  bit_of, owe_release, pressed, released, start_press, start_release, click_tick, work_tick,
  scheduler_tick, edge,
}
use usb_proxy_udp.Server.Control.{Inv, IsClick, phase_mask, hold, Control}
use usb_proxy_udp.Server.Control.Reset.{begin_reset-Inv, finish_front-Inv}

abbrev bit_test : ℕ → Bool
bit_test button =
    bit_or 0 (bit_of button) == bit_of button
    && and_not (bit_of button) (bit_of button) == 0
    && bit_and 0 (bit_of button) == 0

-- A bit is added to an empty mask, which does not have it, and taken off its own.
pub bit_laws :
    (button : ℕ)
    → button ≤ 8
    → (bit_or 0 (bit_of button) ≡ bit_of button)
      × (and_not (bit_of button) (bit_of button) ≡ 0)
      × (bit_and 0 (bit_of button) ≡ 0)
unfolding every
bit_laws button high = ground (arith, every_sound bit_test 9 button (omega arith) refl)

module _ {M : Type 0} where
  -- The first click goes on to another phase, with the mask that belongs to it.
  pub advance :
      (s : Server M) (click next : ClickWork) (rest : List ClickWork) (mask : ℕ)
      → Inv (record s { work = click ∷ rest })
      → IsClick next
      → mask ≡ phase_mask next.phase next.button
      → Control s.mover (next ∷ rest) s.release_pending s.release_inflight s.persistent_buttons mask
  advance s click next rest mask v is e =
      let c = v.control in
      record {
        exclusive = λ run. absurd (cc ((c.exclusive run).0));
        owed = c.owed;
        bounded = c.bounded;
        clicks = (is, c.clicks.1);
        mask = e;
      }

  module _ (mixer : Mixer M) where
    owe_release-Inv : (s : Server M) (now : ℕ) → Inv s → Inv (owe_release mixer s now)
    unfolding owe_release
    owe_release-Inv s now v =
        let c = v.control in
        hold (record {
          exclusive = c.exclusive;
          owed = λ on. ground (arith, c.owed, on);
          bounded = c.bounded;
          clicks = c.clicks;
          mask = c.mask;
        })

    pressed-Inv :
        (s : Server M) (click : ClickWork) (rest : List ClickWork) (now : ℕ)
        (answer : EnqueueResult × M)
        → click.phase ≡ await_press
        → Inv (record s { work = click ∷ rest })
        → Inv (
            pressed mixer
              (record s { work = click ∷ rest })
              click
              (bit_or s.scheduled_buttons (bit_of click.button))
              now
              answer)
    unfolding pressed
    pressed-Inv s click rest now (ok, m) e v =
        let c = v.control in
        hold (
          advance s click (record click { phase = press_inflight }) rest _ v c.clicks.0
            (cc (c.mask, e, (bit_laws click.button c.clicks.0.1).0)))
    pressed-Inv s click rest now (not_ready, m) e v = hold v.control
    pressed-Inv s click rest now (unsupported, m) e v = begin_reset-Inv mixer _ false no_key now
    pressed-Inv s click rest now (queue_full, m) e v = hold v.control

    released-Inv :
        (s : Server M) (click : ClickWork) (rest : List ClickWork) (now : ℕ)
        (answer : EnqueueResult × M)
        → phase_mask click.phase click.button ≡ bit_of click.button
        → Inv (record s { work = click ∷ rest })
        → Inv (
            released mixer
              (record s { work = click ∷ rest })
              click
              (and_not s.scheduled_buttons (bit_of click.button))
              now
              answer)
    unfolding released
    released-Inv s click rest now (ok, m) e v =
        let c = v.control in
        hold (
          advance s click (record click { phase = release_inflight }) rest _ v c.clicks.0
            (cc (c.mask, e, (bit_laws click.button c.clicks.0.1).1)))
    released-Inv s click rest now (not_ready, m) e v =
        let c = v.control in
        hold (
          advance s click (record click { phase = await_release }) rest s.scheduled_buttons v
            c.clicks.0 (c.mask ∙ e))
    released-Inv s click rest now (unsupported, m) e v = begin_reset-Inv mixer _ false no_key now
    released-Inv s click rest now (queue_full, m) e v =
        let c = v.control in
        hold (
          advance s click (record click { phase = await_release }) rest s.scheduled_buttons v
            c.clicks.0 (c.mask ∙ e))

    start_press-Inv :
        (s : Server M) (click : ClickWork) (rest : List ClickWork) (now : ℕ)
        → click.phase ≡ await_press
        → Inv (record s { work = click ∷ rest })
        → Inv (start_press mixer (record s { work = click ∷ rest }) click now)
    unfolding start_press
    start_press-Inv s click rest now e v =
        let t = record s { work = click ∷ rest } in
        let next = bit_or s.scheduled_buttons (bit_of click.button) in
        ground (
          arith,
          begin_reset-Inv mixer t false no_key now,
          finish_front-Inv t Click.button_active v,
          pressed-Inv s click rest now
              (mixer.enqueue_report
                (edge s.persistent_buttons next click_press click.key click.index click.button) now
                s.mixer)
              e v,
        )

    start_release-Inv :
        (s : Server M) (click : ClickWork) (rest : List ClickWork) (now : ℕ)
        → phase_mask click.phase click.button ≡ bit_of click.button
        → Inv (record s { work = click ∷ rest })
        → Inv (start_release mixer (record s { work = click ∷ rest }) click now)
    unfolding start_release
    start_release-Inv s click rest now = released-Inv s click rest now _

    click_tick-Inv :
        (phase : ClickPhase) (s : Server M) (click : ClickWork) (rest : List ClickWork) (now : ℕ)
        → click.phase ≡ phase
        → Inv (record s { work = click ∷ rest })
        → Inv (click_tick mixer phase (record s { work = click ∷ rest }) click now)
    unfolding click_tick
    click_tick-Inv await_press s click rest now e v =
        ground (arith, v, start_press-Inv s click rest now e v)
    click_tick-Inv press_inflight s click rest now e v = v
    click_tick-Inv holding s click rest now e v =
        ground
          (arith, v, start_release-Inv s click rest now (ap (λ p. phase_mask p click.button) e) v)
    click_tick-Inv await_release s click rest now e v =
        ground
          (arith, v, start_release-Inv s click rest now (ap (λ p. phase_mask p click.button) e) v)
    click_tick-Inv release_inflight s click rest now e v = v

    work_tick-Inv :
        (work : List ClickWork) (s : Server M) (now : ℕ)
        → Inv (record s { work = work })
        → Inv (work_tick mixer work (record s { work = work }) now)
    unfolding work_tick
    work_tick-Inv [] s now v = v
    work_tick-Inv (click ∷ rest) s now v = click_tick-Inv click.phase s click rest now refl v

    pub scheduler_tick-Inv : (s : Server M) (now : ℕ) → Inv s → Inv (scheduler_tick mixer s now)
    unfolding scheduler_tick
    scheduler_tick-Inv s now v =
        let owed = owe_release-Inv s now v in
        let t = owe_release mixer s now in ground (arith, owed, work_tick-Inv t.work t now owed)
