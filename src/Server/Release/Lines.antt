-- ===== src/Server/Release/Lines.antt =====
-- udp_server.cpp: no movement, subscription or text command settles a release that is owed.
use usb_proxy_udp.Server.Scheduler.{bit_of}
use usb_proxy_udp.Executor.{is_running}
use usb_proxy_udp.Hid.{and_not, no_motion}
use usb_proxy_udp.Wire.{get32, byte_at, has_magic}
use usb_proxy_udp.Server.Line.{
  trim_end, same_text, unwrap_call, codes, drop_km, read_word, is_blank,
}
use usb_proxy_udp.Telemetry.{alive}
use usb_proxy_udp.Replay.{Peer, same_peer}
use usb_proxy_udp.Server.Loop.{on_line, upx1}
use usb_proxy_udp.Server.Text.{
  on_text, text_do, text_report, text_click, text_release, Asked, text_command, motion, text_motion,
  asked_by, buttons, click, is_bad, bad_button, bad_command,
}
use usb_proxy_udp.Server.Moves.{is_owned_by_other}
use usb_proxy_udp.Mouse.{
  EnqueueResult, MouseCommand, EndpointSnapshot, no_command, ok, not_ready, unsupported, queue_full,
}
use usb_proxy_udp.Server.Motion.{
  on_movement, on_subscribe, give_movement, moved, movement_of, asks_report, movement_report,
}
use usb_proxy_udp.Base.{
  ℕ, List, false, ◌&&◌, ◌||◌, not, if_cases, option_cases, leb, ◌==◌, length, bit_and, bit_or,
}
use usb_proxy_udp.Replay
use usb_proxy_udp.Telemetry
use usb_proxy_udp.Server.State.{no_key, Mixer, Server}
use usb_proxy_udp.Server.Release.Kept.{Owes, still, begin_reset-Owes}

module _ {M : Type 0} where
  pub on_subscribe-Owes :
      (s : Server M) (from : Peer) (p : List ℕ) (now : ℕ)
      → Owes s
      → Owes (on_subscribe s from p now)
  unfolding on_subscribe
  on_subscribe-Owes s from p now o =
      if_cases Owes (alive s.subscription now && not (same_peer s.subscriber from)) _ _
        (λ _. still o.pending)
        λ _.
          if_cases Owes (Telemetry.accept s.subscription p now).1 _ _ (λ _. still o.pending)
            (λ _. o)

  result_cases :
      (result : EnqueueResult) (s t : Server M)
      → Owes s
      → Owes t
      → Owes (elim result [ ok ↦ s | _ ↦ t ])
  result_cases ok s t a b = a
  result_cases not_ready s t a b = b
  result_cases unsupported s t a b = b
  result_cases queue_full s t a b = b

  module _ (mixer : Mixer M) where
    on_movement-Owes :
        (s : Server M) (from : Peer) (p : List ℕ) (now : ℕ)
        → Owes s
        → Owes (on_movement mixer s from p now)
    unfolding on_movement give_movement moved
    on_movement-Owes s from p now o =
        let asked = Replay.stale s.movement_replay from (get32 p 4) now in
        let looked = record s { movement_replay = asked.0 } in
        let command = movement_of p in
        let next = byte_at p 14 in
        let e = mixer.endpoint_snapshot now s.mixer in
        if_cases Owes (not (byte_at p 15 == 0)) _ _ (λ _. o)
          λ _.
            if_cases Owes asked.1 _ _ (λ _. still o.pending)
              λ _.
                if_cases Owes (not e.ready || not (and_not next e.supported == 0)) _ _
                  (λ _. still o.pending)
                  λ _.
                    if_cases Owes (is_running s.mover) _ _
                      (λ _.
                        if_cases Owes (no_motion command && next == 0) _ _ (λ _. still o.pending)
                          (λ _. still o.pending))
                      λ _.
                        if_cases Owes (not (asks_report looked command next)) _ _
                          (λ _. still o.pending)
                          (λ _.
                            result_cases
                              (mixer.enqueue_report (movement_report looked command next) now
                                s.mixer).0
                              _ _ (still o.pending) (still o.pending))

    text_report-Owes :
        (s : Server M) (from : Peer) (command : MouseCommand) (next : ℕ) (e : EndpointSnapshot)
        (now : ℕ)
        → Owes s
        → Owes (text_report mixer s from command next e now)
    unfolding text_report
    text_report-Owes s from command next e now o =
        result_cases (mixer.enqueue_report (text_motion s command next) now s.mixer).0 _ _
          (still o.pending) (still o.pending)

    text_do-Owes :
        (s : Server M) (from : Peer) (asked : Asked) (e : EndpointSnapshot) (now : ℕ)
        → Owes s
        → Owes (text_do mixer s from asked e now)
    unfolding text_do text_click
    text_do-Owes s from (motion command) e now o =
        if_cases Owes (not (and_not s.persistent_buttons e.supported == 0)) _ _
          (λ _. still o.pending) (λ _. text_report-Owes s from command s.persistent_buttons e now o)
    text_do-Owes s from (buttons button next) e now o =
        if_cases Owes (not (and_not next e.supported == 0)) _ _ (λ _. still o.pending)
          (λ _. text_report-Owes s from no_command next e now o)
    text_do-Owes s from (click button) e now o =
        if_cases Owes
          (not (and_not s.persistent_buttons e.supported == 0)
            || bit_and e.supported (bit_of button) == 0)
          _ _ (λ _. still o.pending)
          λ _.
            if_cases Owes
              (not (bit_and (bit_or e.physical s.persistent_buttons) (bit_of button) == 0)) _ _
              (λ _. still o.pending)
              λ _.
                if_cases Owes (leb 64 (length s.work)) _ _ (λ _. still o.pending)
                  (λ _. still o.pending)
    text_do-Owes s from bad_button e now o = still o.pending
    text_do-Owes s from bad_command e now o = still o.pending

    on_text-Owes :
        (s : Server M) (from : Peer) (text : List ℕ) (now : ℕ)
        → Owes s
        → Owes (on_text mixer s from text now)
    unfolding on_text text_release text_command
    on_text-Owes s from text now o =
        let e = mixer.endpoint_snapshot now s.mixer in
        option_cases Owes (unwrap_call (drop_km text)) _ _ (λ _. still o.pending)
          λ line _.
            let word = read_word line in
            let asked = asked_by s.persistent_buttons word.0 word.1 in
            if_cases Owes (same_text word.0 (codes "+release")) _ _
              (λ _.
                if_cases Owes (is_blank word.1) _ _
                  (λ _. still (begin_reset-Owes mixer s false no_key now).pending)
                  (λ _. still o.pending))
              λ _.
                if_cases Owes (is_running s.mover) _ _ (λ _. still o.pending)
                  λ _.
                    if_cases Owes (not (is_bad asked) && not e.ready) _ _ (λ _. still o.pending)
                      (λ _. text_do-Owes s from asked e now o)

    pub on_line-Owes :
        (s : Server M) (from : Peer) (p : List ℕ) (now : ℕ)
        → Owes s
        → Owes (on_line mixer s from p now)
    unfolding on_line
    on_line-Owes s from p now o =
        let text = trim_end p in
        if_cases Owes (same_text text (codes "+state")) _ _ (λ _. still o.pending)
          λ _.
            if_cases Owes (is_owned_by_other s.owner from) _ _ (λ _. still o.pending)
              λ _.
                if_cases Owes (length p == 16 && has_magic p upx1) _ _
                  (λ _. on_movement-Owes s from p now o) (λ _. on_text-Owes s from text now o)
