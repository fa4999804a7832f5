-- ===== src/Server/Control/Reset.antt =====
-- udp_server.cpp: `begin_reset`, `finish_front` and the answers to commands keep the rules of the output.
use usb_proxy_udp.Base.{ℕ, ◌≡◌, refl, List, [], ◌∷◌, Bool, false, arith, ap, sym}
use usb_proxy_udp.Click
use usb_proxy_udp.Executor.Running.{stop_running}
use usb_proxy_udp.Server.State.{Key, no_key, Mixer, Server, ClickWork}
use usb_proxy_udp.Server.Reset.{
  sync_move, cancel_work, displace_release, begin_reset, finish_front, abandon,
}
use usb_proxy_udp.Server.Control.{Inv, AllWait, AreClicks, front_mask, phase_mask, Inv_if, hold}

-- Clicks that all wait are clicks of a queue, with no mask handed to the mixer.
waiting_clicks : (work : List ClickWork) → AllWait work → AreClicks work
waiting_clicks [] w = tt
waiting_clicks (c ∷ cs) w = (w.0, w.2)

waiting_mask : (work : List ClickWork) → AllWait work → 0 ≡ front_mask work
waiting_mask [] w = refl
waiting_mask (c ∷ cs) w = ap (λ p. phase_mask p c.button) (sym w.1)

module _ {M : Type 0} where
  pub sync_move-Inv : (s : Server M) → Inv s → Inv (sync_move s)
  unfolding sync_move
  sync_move-Inv s v = hold v.control

  pub pop-Inv :
      (s : Server M) (click : ClickWork) (rest : List ClickWork)
      → Inv (record s { work = click ∷ rest })
      → Inv (record s { work = rest; scheduled_buttons = 0 })
  pop-Inv s click rest v =
      let c = v.control in
      hold (record {
        exclusive = λ run. absurd (cc ((c.exclusive run).0));
        owed = c.owed;
        bounded = omega (arith, c.bounded);
        clicks = waiting_clicks rest c.clicks.1;
        mask = waiting_mask rest c.clicks.1;
      })

  -- The first click is finished, whatever it has become.
  pub finish_cons :
      (s : Server M) (click old : ClickWork) (rest : List ClickWork) (status : Click.Status)
      → Inv (record s { work = old ∷ rest })
      → Inv (finish_front (record s { work = click ∷ rest }) status)
  unfolding finish_front
  finish_cons s click old rest status v =
      let popped = pop-Inv s old rest v in
      Inv_if click.binary _ _ (λ _. hold popped.control) (λ _. hold popped.control)

  finish_work :
      (work : List ClickWork) (s : Server M) (status : Click.Status)
      → Inv (record s { work = work })
      → Inv (finish_front (record s { work = work }) status)
  unfolding finish_front
  finish_work [] s status v = hold v.control
  finish_work (click ∷ rest) s status v = finish_cons s click click rest status v

  pub finish_front-Inv :
      (s : Server M) (status : Click.Status) → Inv s → Inv (finish_front s status)
  finish_front-Inv s = finish_work s.work s

  module _ (mixer : Mixer M) where
    -- A reset leaves no click, no held button and no transaction, and owes a release that is not on its way.
    pub begin_reset-Inv :
        (s : Server M) (attach : Bool) (key : Key) (now : ℕ)
        → Inv (begin_reset mixer s attach key now)
    unfolding begin_reset sync_move cancel_work displace_release
    begin_reset-Inv s attach key now = hold (record {
      exclusive = λ run. absurd (cc (run, stop_running _ now));
      owed = λ h. refl;
      bounded = omega arith;
      clicks = tt;
      mask = refl;
    })

    pub abandon-Inv : (s : Server M) (now : ℕ) → Inv (abandon mixer s now)
    abandon-Inv s now = hold (begin_reset-Inv s false no_key now).control
