-- ===== src/Server/Cycle/Run.antt =====
-- udp_server.cpp: a click at the front of the queue ends after as many turns as it has presses left.
use usb_proxy_udp.Base.{
  ℕ, ◌≡◌, ◌≤◌, List, [], ◌∷◌, suc, ap, ◌∙◌, ◌+◌, subst, sym, arith, refl, length,
}
use usb_proxy_udp.Server.State.{
  ClickWork, await_press, press_inflight, release_inflight, Mixer, Server,
}
use usb_proxy_udp.Server.Scheduler.{bit_of, scheduler_tick}
use usb_proxy_udp.Server.Events.{writer_event, next_click}
use usb_proxy_udp.Server.Reset.{sync_move}
use usb_proxy_udp.Server.Cycle.{
  at_front, pressed_at, Turn, IsServed, over, seen, tick_presses, tick_releases, event_presses,
  Ended, counted, event_goes_on, event_ends,
}

module _ {M : Type 0} (mixer : Mixer M) where
  -- A press is handed over and reported, then a release.
  abbrev pub turn : Server M → Turn M → Server M
  turn s t =
      let pressing = over mixer (scheduler_tick mixer s t.press_now) t.after_press in
      let held = writer_event mixer pressing t.press_event t.press_now in
      let releasing = over mixer (scheduler_tick mixer held t.release_now) t.after_release in
      writer_event mixer releasing t.release_event t.release_now

  abbrev pub run : Server M → List (Turn M) → Server M
  run s [] = s
  run s (t ∷ ts) = run (turn s t) ts

  -- Each turn serves the click as the turns before it have left it.
  abbrev pub AllServed : ℕ → M → ClickWork → List (Turn M) → Type 0
  AllServed g m c [] = Unit {0}
  AllServed g m c (t ∷ ts) =
      IsServed mixer g m c t
      × AllServed g t.after_release (next_click (pressed_at c t.press_event) t.release_event) ts

  -- The server when the release is on its way, except for the click.
  abbrev base : Server M → ClickWork → List ClickWork → Turn M → Server M
  base s c rest t =
      let given = over mixer s t.after_press in
      over mixer (seen mixer (at_front given press_inflight (bit_of c.button) c rest) t.press_event)
        t.after_release

  turn_releases :
      (s : Server M) (c : ClickWork) (rest : List ClickWork) (t : Turn M)
      → IsServed mixer s.tracked_generation s.mixer c t
      → c.button ≤ 8
      → turn (at_front s await_press 0 c rest) t
        ≡ writer_event mixer
            (at_front (base s c rest t) release_inflight 0 (pressed_at c t.press_event) rest)
            t.release_event
            t.release_now
  unfolding sync_move
  turn_releases s c rest t served high =
      let (_, _, _, _, _, wrote, free, due, taken, _, _) = served in
      let mask = bit_of c.button in
      let given = over mixer s t.after_press in
      let d = pressed_at c t.press_event in
      let finish : Server M → Server M = λ u.
        writer_event mixer (over mixer (scheduler_tick mixer u t.release_now) t.after_release)
          t.release_event t.release_now in
      ap (λ u. finish (writer_event mixer u t.press_event t.press_now))
        (tick_presses mixer s c rest t served high)
      ∙ ap finish (event_presses mixer given c rest mask t.press_event t.press_now wrote free)
      ∙ ap (λ u. writer_event mixer u t.release_event t.release_now)
          (tick_releases mixer
            (seen mixer (at_front given press_inflight mask c rest) t.press_event) d rest
            t.release_now t.after_release due taken high)

  -- A click of at most 10,000 presses of a button up to 8 waits at the front of the queue with as many
  -- presses left as there are turns, at least one, on a server with no release owed and no button held. In
  -- each turn the click's press is handed over when it is due or later, the writer reports it, and the same
  -- with the release; meanwhile the mixer's state may change in any way. If at the calls of each turn the
  -- endpoint is ready, unchanged and without a physical button, the mixer takes both reports, and the writer
  -- writes them, the press on a free button and the release with the button up, then the click ends: the
  -- clicks behind it are left, no button is scheduled, and as many more presses and releases are counted.
  pub run-Ended :
      (t : Turn M) (ts : List (Turn M)) (s : Server M) (c : ClickWork) (rest : List ClickWork)
      → AllServed s.tracked_generation s.mixer c (t ∷ ts)
      → c.button ≤ 8
      → c.index + suc (length ts) ≡ c.count
      → c.count ≤ 10_000
      → Ended (suc (length ts)) s rest (run (at_front s await_press 0 c rest) (t ∷ ts))
  unfolding next_click sync_move
  run-Ended t [] s c rest (served, _) high left few =
      let (_, _, _, _, _, _, _, _, _, wrote, up) = served in
      let d = pressed_at c t.press_event in
      subst (λ u. Ended 1 s rest u) (sym (turn_releases s c rest t served high))
        (event_ends mixer (base s c rest t) d rest t.release_event t.release_now wrote up refl
          (ground (arith, left, few)))
  run-Ended t (t' ∷ ts) s c rest (served, later) high left few =
      let (_, _, _, _, _, _, _, _, _, wrote, up) = served in
      let d = pressed_at c t.press_event in
      let e = t.release_event in
      let b = counted (seen mixer (at_front (base s c rest t) release_inflight 0 d rest) e) d in
      let more =
        event_goes_on mixer (base s c rest t) d rest e t.release_now wrote up refl
          (ground (arith, left, few)) in
      let ended =
        run-Ended t' ts b (next_click d e) rest later high (omega (arith, left, few)) few in
      subst (λ u. Ended (suc (suc (length ts))) s rest (run u (t' ∷ ts)))
        (sym (turn_releases s c rest t served high ∙ more))
        (ended.0, ended.1, ground (arith, ended.2))
