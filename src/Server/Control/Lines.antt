-- ===== src/Server/Control/Lines.antt =====
-- udp_server.cpp: movements, subscriptions and text commands keep the rules of the output.
use mathlib.Core.Option.{none}
use mathlib.Core.Bool.{true}
use usb_proxy_udp.Base.Int.{ℤ, negsuc, pos}
use usb_proxy_udp.Hid.{and_not, no_motion}
use usb_proxy_udp.Wire.{get32, byte_at}
use usb_proxy_udp.Base.{
  ℕ, ◌≡◌, ◌≤◌, List, false, arith, not, ◌&&◌, ◌||◌, ◌==◌, bit_and, bit_or, leb, length, refl, Bool,
  Option, if◌then◌else◌, true, some, if_cases, none,
}
use usb_proxy_udp.Mouse.{
  EndpointSnapshot, EnqueueResult, MouseCommand, ok, not_ready, unsupported, queue_full, no_command,
}
use usb_proxy_udp.Replay.{Peer, same_peer}
use usb_proxy_udp.Replay
use usb_proxy_udp.Telemetry.{alive}
use usb_proxy_udp.Telemetry
use usb_proxy_udp.Executor.{is_running}
use usb_proxy_udp.Server.State.{Mixer, Server, no_key}
use usb_proxy_udp.Server.Control.{Inv, Control, hold, Inv_if, Inv_option, bit_of}
use usb_proxy_udp.Server.Control.Reset.{begin_reset-Inv}
use usb_proxy_udp.Server.Control.Requests.{append-Control}
use usb_proxy_udp.Server.Line.{codes, unwrap_call, drop_km, read_word, same_text, is_blank}
use usb_proxy_udp.Server.Text.{
  Asked, motion, buttons, click, bad_button, bad_command, ask_move, ask_one, ask_named, asked_by,
  is_bad, text_report, text_click, text_do, text_command, text_release, on_text, text_motion,
  text_work, ask_which, read_button,
}
use usb_proxy_udp.Server.Motion.{
  moved, give_movement, on_movement, on_subscribe, asks_report, movement_of, movement_report,
}

-- A click names a button that the mask has.
abbrev Names : Asked → Type 0
Names (click button) = (1 ≤ button) × (button ≤ 8)
Names _ = Unit {0}

ask_move-Names : (cs : List ℕ) → Names (ask_move cs)
unfolding ask_move
ask_move-Names cs = ground arith

ask_one-Names : (command : ℤ → MouseCommand) (cs : List ℕ) → Names (ask_one command cs)
unfolding ask_one
ask_one-Names command cs = ground arith

ask_named-Names : (button held : ℕ) (cs : List ℕ) → Names (ask_named button held cs)
unfolding ask_named
ask_named-Names button held cs = ground arith

ask_which-Names :
    (asked : ℕ → Asked) (o : Option (ℤ × List ℕ))
    → ((n : ℕ) → 1 ≤ n → n ≤ 8 → Names (asked n))
    → Names (ask_which asked o)
unfolding ask_which
ask_which-Names asked none fits = tt
ask_which-Names asked (some (negsuc n, left)) fits = tt
ask_which-Names asked (some (pos n, left)) fits =
    if_cases Names (leb 1 n && leb n 8 && is_blank left) (asked n) bad_command
      (λ fine. fits n (ground (arith, fine)) (ground (arith, fine))) (λ _. tt)

Names-if : (b : Bool) (x y : Asked) → Names x → Names y → Names (if b then x else y)
Names-if true x y then_Names else_Names = then_Names
Names-if false x y then_Names else_Names = else_Names

asked_by-Names : (held : ℕ) (name cs : List ℕ) → Names (asked_by held name cs)
unfolding asked_by
asked_by-Names held name cs = Names-if (same_text name (codes "+move")) _ _ (ask_move-Names cs) (
    Names-if (same_text name (codes "+wheel")) _ _ (ask_one-Names _ cs) (
      Names-if (same_text name (codes "+pan")) _ _ (ask_one-Names _ cs) (
        Names-if (same_text name (codes "+mousedown")) _ _
          (ask_which-Names _ (read_button cs) (λ n low high. tt))
          (Names-if (same_text name (codes "+mouseup")) _ _
            (ask_which-Names _ (read_button cs) (λ n low high. tt))
            (Names-if (same_text name (codes "+click")) _ _
              (ask_which-Names _ (read_button cs) (λ n low high. (low, high)))
              (Names-if (same_text name (codes "+left")) _ _ (ask_named-Names 1 held cs) (
                Names-if (same_text name (codes "+right")) _ _ (ask_named-Names 2 held cs) (
                  Names-if (same_text name (codes "+middle")) _ _ (ask_named-Names 3 held cs) (
                    Names-if (same_text name (codes "+side1")) _ _ (ask_named-Names 4 held cs) (
                      Names-if (same_text name (codes "+side2")) _ _ (ask_named-Names 5 held cs)
                        tt))))))))))

module _ {M : Type 0} where
  -- While no transaction runs, the mask of held buttons may change.
  change_held :
      (s : Server M) (held : ℕ)
      → is_running s.mover ≡ false
      → Inv s
      → Control s.mover s.work s.release_pending s.release_inflight held s.scheduled_buttons
  change_held s held off v =
      let c = v.control in
      record {
        exclusive = λ run. absurd (cc (run, off));
        owed = c.owed;
        bounded = c.bounded;
        clicks = c.clicks;
        mask = c.mask;
      }

  Inv_result :
      (result : EnqueueResult) (s t : Server M)
      → Inv s
      → Inv t
      → Inv (elim result [ ok ↦ s | _ ↦ t ])
  Inv_result ok s t taken refused = taken
  Inv_result not_ready s t taken refused = refused
  Inv_result unsupported s t taken refused = refused
  Inv_result queue_full s t taken refused = refused

  pub on_subscribe-Inv :
      (s : Server M) (from : Peer) (p : List ℕ) (now : ℕ) → Inv s → Inv (on_subscribe s from p now)
  unfolding on_subscribe
  on_subscribe-Inv s from p now v =
      Inv_if (alive s.subscription now && not (same_peer s.subscriber from)) _ _
        (λ _. hold v.control)
        λ _. Inv_if (Telemetry.accept s.subscription p now).1 _ _ (λ _. hold v.control) (λ _. v)

  module _ (mixer : Mixer M) where
    give_movement-Inv :
        (s : Server M) (from : Peer) (sequence : ℕ) (command : MouseCommand) (next : ℕ)
        (e : EndpointSnapshot) (now : ℕ)
        → is_running s.mover ≡ false
        → Inv s
        → Inv (give_movement mixer s from sequence command next e now)
    unfolding give_movement moved
    give_movement-Inv s from sequence command next e now off v =
        let c = change_held s next off v in
        Inv_if (not (asks_report s command next)) _ _ (λ _. hold c)
          λ _.
            Inv_result (mixer.enqueue_report (movement_report s command next) now s.mixer).0 _ _
              (hold c) (hold v.control)

    pub on_movement-Inv :
        (s : Server M) (from : Peer) (p : List ℕ) (now : ℕ)
        → Inv s
        → Inv (on_movement mixer s from p now)
    unfolding on_movement
    on_movement-Inv s from p now v =
        let asked = Replay.stale s.movement_replay from (get32 p 4) now in
        let looked = record s { movement_replay = asked.0 } in
        let command = movement_of p in
        let next = byte_at p 14 in
        let e = mixer.endpoint_snapshot now s.mixer in
        Inv_if (not (byte_at p 15 == 0)) _ _ (λ _. v)
          λ _.
            Inv_if asked.1 _ _ (λ _. hold v.control)
              λ _.
                Inv_if (not e.ready || not (and_not next e.supported == 0)) _ _
                  (λ _. hold v.control)
                  λ _.
                    Inv_if (is_running s.mover) _ _
                      (λ _.
                        Inv_if (no_motion command && next == 0) _ _ (λ _. hold v.control)
                          (λ _. hold v.control))
                      λ off.
                        give_movement-Inv looked from (get32 p 4) command next e now off
                          (hold v.control)

    text_report-Inv :
        (s : Server M) (from : Peer) (command : MouseCommand) (next : ℕ) (e : EndpointSnapshot)
        (now : ℕ)
        → is_running s.mover ≡ false
        → Inv s
        → Inv (text_report mixer s from command next e now)
    unfolding text_report
    text_report-Inv s from command next e now off v =
        Inv_result (mixer.enqueue_report (text_motion s command next) now s.mixer).0 _ _
          (hold (change_held s next off v)) (hold v.control)

    text_click-Inv :
        (s : Server M) (from : Peer) (button : ℕ) (e : EndpointSnapshot) (now : ℕ)
        → is_running s.mover ≡ false
        → (1 ≤ button) × (button ≤ 8)
        → Inv s
        → Inv (text_click mixer s from button e now)
    unfolding text_click text_work
    text_click-Inv s from button e now off range v =
        Inv_if (not (bit_and (bit_or e.physical s.persistent_buttons) (bit_of button) == 0)) _ _
          (λ _. hold v.control)
          λ _.
            Inv_if (leb 64 (length s.work)) _ _ (λ _. hold v.control)
              λ room. hold (
                append-Control s (text_work button e now) v off (ground (arith, room))
                  (range.0, range.1, omega arith, omega arith) refl)

    text_do-Inv :
        (s : Server M) (from : Peer) (asked : Asked) (e : EndpointSnapshot) (now : ℕ)
        → is_running s.mover ≡ false
        → Names asked
        → Inv s
        → Inv (text_do mixer s from asked e now)
    unfolding text_do
    text_do-Inv s from (motion command) e now off names v =
        Inv_if (not (and_not s.persistent_buttons e.supported == 0)) _ _ (λ _. hold v.control)
          (λ _. text_report-Inv s from command s.persistent_buttons e now off v)
    text_do-Inv s from (buttons button next) e now off names v =
        Inv_if (not (and_not next e.supported == 0)) _ _ (λ _. hold v.control)
          (λ _. text_report-Inv s from no_command next e now off v)
    text_do-Inv s from (click button) e now off names v =
        Inv_if
          (not (and_not s.persistent_buttons e.supported == 0)
            || bit_and e.supported (bit_of button) == 0)
          _ _ (λ _. hold v.control) (λ _. text_click-Inv s from button e now off names v)
    text_do-Inv s from bad_button e now off names v = hold v.control
    text_do-Inv s from bad_command e now off names v = hold v.control

    text_command-Inv :
        (s : Server M) (from : Peer) (name rest : List ℕ) (now : ℕ)
        → Inv s
        → Inv (text_command mixer s from name rest now)
    unfolding text_command
    text_command-Inv s from name rest now v =
        let asked = asked_by s.persistent_buttons name rest in
        let e = mixer.endpoint_snapshot now s.mixer in
        Inv_if (is_running s.mover) _ _ (λ _. hold v.control)
          λ off.
            Inv_if (not (is_bad asked) && not e.ready) _ _ (λ _. hold v.control)
              λ _.
                text_do-Inv s from asked e now off (asked_by-Names s.persistent_buttons name rest) v

    text_release-Inv :
        (s : Server M) (from : Peer) (rest : List ℕ) (now : ℕ)
        → Inv s
        → Inv (text_release mixer s from rest now)
    unfolding text_release
    text_release-Inv s from rest now v =
        Inv_if (is_blank rest) _ _ (λ _. hold (begin_reset-Inv mixer s false no_key now).control)
          (λ _. hold v.control)

    pub on_text-Inv :
        (s : Server M) (from : Peer) (text : List ℕ) (now : ℕ)
        → Inv s
        → Inv (on_text mixer s from text now)
    unfolding on_text
    on_text-Inv s from text now v =
        Inv_option (unwrap_call (drop_km text)) _ _ (λ _. hold v.control)
          λ line _.
            let word = read_word line in
            Inv_if (same_text word.0 (codes "+release")) _ _
              (λ _. text_release-Inv s from word.1 now v)
              (λ _. text_command-Inv s from word.0 word.1 now v)
