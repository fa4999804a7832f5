-- ===== src/Server/Text.antt =====
-- udp_server.cpp: the text commands. `mouse_state_text` is that of mouse_mixer.cpp.
use usb_proxy_udp.Base.{
  ℕ, ◌+◌, ◌*◌, List, [], ◌∷◌, ◌++◌, Bool, true, false, not, ◌&&◌, ◌||◌, none, some, length, leb,
  ◌==◌, if◌then◌else◌, bit_and, bit_or, max, ◌%◌, ◌^◌, Option,
}
use usb_proxy_udp.Base.Int.{ℤ, pos, negsuc}
use usb_proxy_udp.Mouse.{
  MouseCommand, no_command, EndpointSnapshot, ok, movement, persistent_edge, any_activity,
  ReportRequest,
}
use usb_proxy_udp.Hid.{and_not}
use usb_proxy_udp.Click
use usb_proxy_udp.Replay.{Peer}
use usb_proxy_udp.Executor.{is_running}
use usb_proxy_udp.Server.State.{no_key, ClickWork, await_press, Mixer, Server, max_click_commands}
use usb_proxy_udp.Server.Book.{send_packet}
use usb_proxy_udp.Server.Reset.{begin_reset}
use usb_proxy_udp.Server.Scheduler.{bit_of}
use usb_proxy_udp.Server.Line.{
  codes, same_text, read_word, read_int, is_blank, unwrap_call, drop_km, show_nat, show_int,
  skip_space,
}

-- What a text asks for. `buttons` is the new mask of held buttons, with the button that was named.
pub data Asked : Type 0 where
  motion : MouseCommand → Asked
  buttons : ℕ → ℕ → Asked
  click : ℕ → Asked
  bad_button bad_command : Asked

-- The end of the line, and the test that the command is valid.
abbrev finished : Bool → List ℕ → Asked → Asked
finished valid rest asked = if valid && is_blank rest then asked else bad_command

unfoldable pub ask_move : List ℕ → Asked
ask_move cs = elim (read_int cs) [
  | none ↦ bad_command
  | some (x, cs1) ↦ elim (read_int cs1) [
    | none ↦ bad_command
    | some (y, cs2) ↦ finished true cs2 (motion (record no_command { x = x; y = y }))
  ]
]

unfoldable pub ask_one : (ℤ → MouseCommand) → List ℕ → Asked
ask_one command cs = elim (read_int cs) [
  | none ↦ bad_command
  | some (n, rest) ↦ finished true rest (motion (command n))
]

-- The button's number, which is 1 if none is given.
unfoldable pub read_button : List ℕ → Option (ℤ × List ℕ)
read_button cs = elim (skip_space cs) [ [] ↦ some (pos 1, []) | c ∷ rest ↦ read_int (c ∷ rest) ]

unfoldable pub ask_which : (ℕ → Asked) → Option (ℤ × List ℕ) → Asked
ask_which asked none = bad_button
ask_which asked (some (negsuc n, left)) = bad_command
ask_which asked (some (pos n, left)) = finished (leb 1 n && leb n 8) left (asked n)

abbrev pub ask_button : (ℕ → Asked) → List ℕ → Asked
ask_button asked cs = ask_which asked (read_button cs)

-- A named button with 0 or 1.
unfoldable pub ask_named : ℕ → ℕ → List ℕ → Asked
ask_named button held cs = elim (read_int cs) [
  | none ↦ bad_command
  | some (negsuc n, rest) ↦ bad_command
  | some (pos n, rest) ↦
      finished (leb n 1) rest
        (buttons button (bit_or (and_not held (bit_of button)) (n * bit_of button)))
]

-- The command of a line, where `held` is the mask of held buttons.
unfoldable pub asked_by : ℕ → List ℕ → List ℕ → Asked
asked_by held name cs =
    if same_text name (codes "+move")
    then ask_move cs
    else if same_text name (codes "+wheel")
    then ask_one (λ n. record no_command { wheel = n }) cs
    else if same_text name (codes "+pan")
    then ask_one (λ n. record no_command { pan = n }) cs
    else if same_text name (codes "+mousedown")
    then ask_button (λ b. buttons b (bit_or held (bit_of b))) cs
    else if same_text name (codes "+mouseup")
    then ask_button (λ b. buttons b (and_not held (bit_of b))) cs
    else if same_text name (codes "+click")
    then ask_button click cs
    else if same_text name (codes "+left")
    then ask_named 1 held cs
    else if same_text name (codes "+right")
    then ask_named 2 held cs
    else if same_text name (codes "+middle")
    then ask_named 3 held cs
    else if same_text name (codes "+side1")
    then ask_named 4 held cs
    else if same_text name (codes "+side2")
    then ask_named 5 held cs
    else bad_command

unfoldable pub mouse_state_text : EndpointSnapshot → List ℕ
mouse_state_text e =
    let synthetic = bit_or e.persistent e.scheduled in
    let space : List ℕ = 32 ∷ [] in
    if not e.ready
    then codes "not_ready"
    else codes "state "
      ++ (show_nat e.physical
          ++ (space
              ++ (show_nat synthetic
                  ++ (space
                      ++ (show_nat (bit_or e.physical synthetic)
                          ++ (space
                              ++ (show_int e.xmin
                                  ++ (space
                                      ++ (show_int e.xmax
                                          ++ (space
                                              ++ (show_int e.ymin
                                                  ++ (space ++ show_int e.ymax))))))))))))

abbrev pub is_bad : Asked → Bool
is_bad bad_button = true
is_bad bad_command = true
is_bad _ = false

-- `operation`: one click, without a key.
unfoldable pub text_work : ℕ → EndpointSnapshot → ℕ → ClickWork
text_work button e now = record {
  key = no_key;
  button = button;
  count = 1;
  press_us = max 10_000 e.poll_us;
  interval_us = (max 10_000 e.poll_us + e.poll_us) % 2 ^ 32;
  index = 0;
  press_written_ns = 0;
  due_ns = now;
  phase = await_press;
  version = Click.version1;
  blocked = false;
  binary = false;
}

module _ {M : Type 0} where
  abbrev pub reply : Server M → Peer → List ℕ → Server M
  reply s to text = record s { book = send_packet s.book to text }

  -- owner = from; owned = true; last = Clock::now();
  abbrev pub lease : Server M → Peer → ℕ → Server M
  lease s from now = record s { owner = some from; last = now }

  -- The arguments of the call of `enqueue_report`.
  abbrev pub text_motion : Server M → MouseCommand → ℕ → ReportRequest
  text_motion s command next = record {
    command = command;
    persistent = next;
    scheduled = s.scheduled_buttons;
    kind = if next == s.persistent_buttons then movement else persistent_edge;
    latest = false;
    session = 0;
    command_id = 0;
    click_index = 0;
    click_button = 0;
    expected_activity = any_activity;
    expected_generation = 0;
  }

  module _ (mixer : Mixer M) where
    -- The mixer is given the motion with the new mask.
    unfoldable pub text_report :
        Server M → Peer → MouseCommand → ℕ → EndpointSnapshot → ℕ → Server M
    text_report s from command next e now =
        let (result, m) = mixer.enqueue_report (text_motion s command next) now s.mixer in
        let given = record s { mixer = m } in
        elim result [
          | ok ↦
              reply
                (record (lease given from now) {
                  persistent_buttons = next;
                  tracked_generation = e.generation;
                })
                from (codes "ok")
          | _ ↦ reply given from (codes "error not_ready_range_or_queue_full")
        ]

    unfoldable pub text_click : Server M → Peer → ℕ → EndpointSnapshot → ℕ → Server M
    text_click s from button e now =
        if not (bit_and (bit_or e.physical s.persistent_buttons) (bit_of button) == 0)
        then reply s from (codes "error button_active")
        else if leb max_click_commands (length s.work)
        then reply s from (codes "error queue_full")
        else reply
            (record (lease s from now) {
              work = s.work ++ text_work button e now ∷ [];
              tracked_generation = e.generation;
            })
            from (codes "ok")

    -- A valid command, on an endpoint that is ready.
    unfoldable pub text_do : Server M → Peer → Asked → EndpointSnapshot → ℕ → Server M
    text_do s from (motion command) e now =
        if not (and_not s.persistent_buttons e.supported == 0)
        then reply s from (codes "error button")
        else text_report s from command s.persistent_buttons e now
    text_do s from (buttons button next) e now =
        if not (and_not next e.supported == 0)
        then reply s from (codes "error button")
        else text_report s from no_command next e now
    text_do s from (click button) e now =
        if not (and_not s.persistent_buttons e.supported == 0)
          || bit_and e.supported (bit_of button) == 0
        then reply s from (codes "error button")
        else text_click s from button e now
    text_do s from bad_button e now = reply s from (codes "error button")
    text_do s from bad_command e now = reply s from (codes "error command")

    -- A command other than `+release`.
    unfoldable pub text_command : Server M → Peer → List ℕ → List ℕ → ℕ → Server M
    text_command s from name rest now =
        let asked = asked_by s.persistent_buttons name rest in
        let e = mixer.endpoint_snapshot now s.mixer in
        if is_running s.mover
        then reply s from (codes "busy")
        else if not (is_bad asked) && not e.ready
        then reply s from (codes "error not_ready_range_or_queue_full")
        else text_do s from asked e now

    unfoldable pub text_release : Server M → Peer → List ℕ → ℕ → Server M
    text_release s from rest now =
        if is_blank rest
        then reply (lease (begin_reset mixer s false no_key now) from now) from (codes "ok")
        else reply s from (codes "error command")

    -- The text branch, after `+state` and the test of the owner.
    unfoldable pub on_text : Server M → Peer → List ℕ → ℕ → Server M
    on_text s from text now = elim (unwrap_call (drop_km text)) [
      | none ↦ reply s from (codes "error syntax")
      | some line ↦
          let (name, rest) = read_word line in
          if same_text name (codes "+release")
          then text_release s from rest now
          else text_command s from name rest now
    ]
