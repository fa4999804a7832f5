-- ===== src/Server/Desk/Tests.antt =====
-- udp_server.cpp with mouse_mixer.cpp: a server over the mixer of a mouse in the boot protocol.
use usb_proxy_udp.Base.{arith, ℕ, ◌≡◌, refl, [], ◌∷◌, true, false, some}
use usb_proxy_udp.Base.Int.{◌-ℤ◌}
use usb_proxy_udp.Mouse.{no_command}
use usb_proxy_udp.Hid.{
  split_mouse_command, split_loop, next_parts, take_part, take_all, take_axis, supported_of,
}
use usb_proxy_udp.Mixer.State.{Endpoint}
use usb_proxy_udp.Mixer.Registry.{find, fresh_endpoint, boot_profile}
use usb_proxy_udp.Mixer.Enqueue.{is_empty}
use usb_proxy_udp.Server.State.{Server}
use usb_proxy_udp.Server.Start.{initial}
use usb_proxy_udp.Server.Reset.{begin_reset}
use usb_proxy_udp.Server.Scheduler.{scheduler_tick}
use usb_proxy_udp.Server.Desk.{Desk, mixer, selected}
use usb_proxy_udp.Server.Desk.Reset.{IsReleasing, reset_then_release}
use usb_proxy_udp.Base.{Option, none, false, ◌+◌}
use usb_proxy_udp.Mouse.{WriterEvent, click_press, click_release}
use usb_proxy_udp.Hid.{encode, put_buttons, put_mask, clear_fields, put_motion}
use usb_proxy_udp.Mixer.State.{Transfer, blank_transfer}
use usb_proxy_udp.Mixer.Enqueue.{enqueue, supersede, is_outdated, new_item}
use usb_proxy_udp.Mixer.Take.{
  take_report, pick, ready_item, expire_front, expire_item, send_standalone, describe,
  needs_buttons,
}
use usb_proxy_udp.Mixer.Written.{
  notify_written, count_write, settle_front, settle_item, remove_finished, carries, event_of,
}
use usb_proxy_udp.Mixer.Snapshot.{endpoint_snapshot, snapshot_of}
use usb_proxy_udp.Server.State.{ClickWork, await_press}
use usb_proxy_udp.Server.Events.{next_click}
use usb_proxy_udp.Server.Scheduler.{edge}
use usb_proxy_udp.Server.Cycle.{Turn, Ended, at_front}
use usb_proxy_udp.Server.Cycle.Run.{run, run-Ended}
use usb_proxy_udp.Server.Desk.{enqueue_report, put_selected, put}

-- A mouse of the boot protocol that has sent a report, the selected endpoint.
abbrev boot_mouse : Endpoint
boot_mouse = record (fresh_endpoint 2 1 []) { profile = boot_profile; latest = 0 ∷ 0 ∷ 0 ∷ [] }

abbrev desk : Desk
desk = record {
  registry = record {
    endpoints = record { address = 129; interface_number = 0; endpoint = boot_mouse } ∷ [];
    descriptors = λ number. [];
    report_descriptors = λ number. [];
    boot_protocol = λ number. true;
    selected = some 129;
    next_generation = 2;
    next_instance = 1;
  };
  events = record { events = []; overflow = false };
}

abbrev polling : ℕ → ℕ
polling address = 1000

abbrev at_desk : Server Desk
at_desk = initial 5 desk 0

desk_selected : selected desk.registry ≡ some boot_mouse
unfolding selected find
desk_selected = refl

boot_mouse_fits : is_empty (split_mouse_command boot_mouse.profile no_command) ≡ false
unfolding split_mouse_command split_loop next_parts take_part take_all take_axis supported_of ◌-ℤ◌
boot_mouse_fits = refl

reset_then_release_example : IsReleasing boot_mouse 20 (
    scheduler_tick
      (mixer polling)
      (begin_reset (mixer polling) at_desk true (record { session = 7; command = 30 }) 10)
      20)
reset_then_release_example =
    reset_then_release polling at_desk true (record { session = 7; command = 30 }) 10 20 boot_mouse
      desk_selected refl boot_mouse_fits

-- A double click of the left button, due at once, with 20 ms of press and 70 ms between presses.
abbrev double : ClickWork
double = record {
  key = record { session = 7; command = 30 };
  button = 1;
  count = 2;
  press_us = 20_000;
  interval_us = 70_000;
  index = 0;
  press_written_ns = 0;
  due_ns = 10;
  phase = await_press;
  version = 2;
  blocked = false;
  binary = true;
}

-- The server has seen the endpoint of the mouse.
abbrev following : Server Desk
following = record at_desk { tracked_generation = 2 }

abbrev or_mouse : Option Endpoint → Endpoint
or_mouse none = boot_mouse
or_mouse (some e) = e

abbrev or_blank : Option Transfer → Transfer
or_blank none = blank_transfer []
or_blank (some io) = io

-- The writer takes a report of the mixer and writes it.
abbrev written : Desk → ℕ → Endpoint × Option WriterEvent
written d now =
    let (e, io) = take_report (or_mouse (selected d.registry)) now in
    notify_written e (or_blank io) true now

abbrev after : Desk → ℕ → Desk
after d now = put_selected d (written d now).0

abbrev no_event : WriterEvent
no_event = event_of (blank_transfer []) false false 0

abbrev or_no_event : Option WriterEvent → WriterEvent
or_no_event none = no_event
or_no_event (some e) = e

abbrev given_press : ℕ → ℕ → Desk → Desk
given_press index now d = (enqueue_report (edge 0 1 click_press double.key index 1) now d).1

abbrev given_release : ℕ → ℕ → Desk → Desk
given_release index now d = (enqueue_report (edge 0 0 click_release double.key index 1) now d).1

-- The mixer takes the press at `now` and the release 30 ms later, and writes each a microsecond later.
abbrev real_turn : ℕ → ℕ → Desk → Turn Desk
real_turn index now d =
    let pressing = given_press index now d in
    let held = after pressing (now + 1000) in
    let releasing = given_release index (now + 30_000_000) held in
    record {
      press_now = now;
      after_press = held;
      press_event = or_no_event (written pressing (now + 1000)).1;
      release_now = now + 30_000_000;
      after_release = after releasing (now + 30_001_000);
      release_event = or_no_event (written releasing (now + 30_001_000)).1;
    }

abbrev first_turn : Turn Desk
first_turn = real_turn 0 20 desk

abbrev second_turn : Turn Desk
second_turn = real_turn 1 200_000_000 first_turn.after_release

run-Ended_example : Ended 2 following [] (
    run
      (mixer polling)
      (at_front following await_press 0 double [])
      (first_turn ∷ second_turn ∷ []))
unfolding mixer enqueue_report put_selected selected find put enqueue supersede is_outdated new_item
    split_mouse_command split_loop next_parts take_part take_all take_axis supported_of ◌-ℤ◌
    take_report pick ready_item expire_front expire_item send_standalone describe encode put_buttons
    put_mask clear_fields put_motion notify_written count_write settle_front settle_item
    remove_finished carries event_of endpoint_snapshot snapshot_of next_click needs_buttons
run-Ended_example =
    run-Ended (mixer polling) first_turn (second_turn ∷ []) following double []
      (
        (
          omega arith,
          refl,
          refl,
          refl,
          refl,
          (refl, refl, refl, refl, refl),
          refl,
          omega arith,
          refl,
          (refl, refl, refl, refl, refl),
          refl,
        ),
        (
          (
            omega arith,
            refl,
            refl,
            refl,
            refl,
            (refl, refl, refl, refl, refl),
            refl,
            omega arith,
            refl,
            (refl, refl, refl, refl, refl),
            refl,
          ),
          tt,
        ),
      )
      (omega arith) refl (omega arith)
