-- ===== src/Mixer/Tests.antt =====
-- mouse_mixer.cpp: a mouse with two 8-bit axes and one button, and a queued synthetic movement.
use usb_proxy_udp.Hid.Split.{AddsUp}
use usb_proxy_udp.Base.{
  ◌≡◌, refl, true, false, List, [], ◌∷◌, ◌++◌, none, some, arith, Option, if◌then◌else◌, ◌⊎◌,
}
use usb_proxy_udp.Base.Int.{pos, negsuc, ◌-ℤ◌, ◌+ℤ◌}
use usb_proxy_udp.Mouse.{no_command, movement, transaction_out, ReportRequest, any_activity}
use usb_proxy_udp.Hid.{
  split_mouse_command, supported_of, split_loop, next_parts, take_part, take_all, take_axis,
  HidField, MouseProfile, no_motion,
}
use usb_proxy_udp.Base.{◌≢◌, inl}
use usb_proxy_udp.Hid.{get, put, put_bits, set_bit, put_buttons, put_mask}
use usb_proxy_udp.Mixer.Take.{apply_known_fields}
use usb_proxy_udp.Base.{inr}
use usb_proxy_udp.Hid.{matches, get_bits, bit_at, button_mask, mask_of}
use usb_proxy_udp.Mixer.Physical.{matching_profile, queue_physical, saturating_add}
use usb_proxy_udp.Mixer.Through.{arrived, take_report_passes_holds}
use usb_proxy_udp.Mixer.State.{SyntheticItem, Transfer, blank_transfer, Endpoint}
use usb_proxy_udp.Mixer.Enqueue.{is_outdated, supersede, drop_back, enqueue, gives_way, new_item}
use usb_proxy_udp.Mixer.Take.{
  pick, ready_item, expire_front, expire_item, choose, goes_alone, fuses, motion_fits, field_fits,
  fusion_motion, send_physical, carried_by, describe, take_report,
}
use usb_proxy_udp.Mixer.Written.{notify_written, settle_item, remove_finished, is_edge, event_of}
use usb_proxy_udp.Mixer.Queue.{
  Inv, AllReplaceable, LastStays, enqueue_order, enqueue-Inv, take_report-Inv, notify_written-Inv,
}
use usb_proxy_udp.Mixer.Buttons.{HasBit, take_report_keeps_holds}
use usb_proxy_udp.Mixer.Registry.{Registered, invalidate_all}
use usb_proxy_udp.Mixer.Stale.{old_layout_ignored, AllRenewed, invalidate_all_lem}
use usb_proxy_udp.Mixer.Ledger.{Answers, written_settles, carried_motion}

abbrev no_field : HidField
no_field = record { offset = 0; bits = 0; minimum = pos 0; maximum = pos 0 }

abbrev small_mouse : MouseProfile
small_mouse = record {
  id = 0;
  size = 3;
  x = record { offset = 8; bits = 8; minimum = negsuc 126; maximum = pos 127 };
  y = record { offset = 16; bits = 8; minimum = negsuc 126; maximum = pos 127 };
  wheel = no_field;
  pan = no_field;
  buttons = (1, record { offset = 0; bits = 1; minimum = pos 0; maximum = pos 1 }) ∷ [];
  relative = [];
}

-- 10 counts to the right, which a newer movement may replace.
abbrev queued : SyntheticItem
queued = record {
  id = 4;
  generation = 2;
  deadline_ns = 0;
  physical_barrier = 1;
  session = 7;
  command_id = 30;
  guard_activity = any_activity;
  click_index = 0;
  remaining = record no_command { x = pos 10 };
  persistent = 0;
  scheduled = 0;
  click_button = 0;
  kind = movement;
  latest = true;
  buttons_committed = false;
}

-- The physical mouse reports its button as held, without motion.
abbrev held_report : Transfer
held_report = record (blank_transfer (1 ∷ 0 ∷ 0 ∷ [])) {
  generation = 2;
  instance_id = 1;
  physical_buttons = 1;
  physical = true;
  physical_match = true;
}

abbrev mouse : Endpoint
mouse = record {
  profile = small_mouse;
  latest = 1 ∷ 0 ∷ 0 ∷ [];
  submitted_template = [];
  synthetic = queued ∷ [];
  queue = held_report ∷ [];
  residence_ns = [];
  physical_buttons = 1;
  submitted_physical_buttons = 0;
  persistent_buttons = 0;
  scheduled_buttons = 0;
  physical_dx = pos 0;
  physical_dy = pos 0;
  cumulative_x = pos 0;
  cumulative_y = pos 0;
  generation = 2;
  instance_id = 1;
  next_item = 5;
  physical_barrier = 1;
  last_motion_ns = 0;
  physical_received = 1;
  physical_submitted = 0;
  superseded = 0;
  writer_failures = 0;
  activity = 4;
  physical_successes = 0;
  inflight = false;
  inflight_id = 0;
}

mouse-Inv : Inv mouse
mouse-Inv = ground arith

-- A newer movement.
abbrev newer : ReportRequest
newer = record {
  command = record no_command { y = pos 3 };
  persistent = 0;
  scheduled = 0;
  kind = movement;
  latest = true;
  session = 7;
  command_id = 31;
  click_index = 0;
  click_button = 0;
  expected_activity = any_activity;
  expected_generation = 2;
}

-- The movement went out with the physical report, all of it.
abbrev fused : Transfer
fused = record held_report {
  managed = true;
  synthetic_item_id = 4;
  synthetic_x = pos 10;
  report_kind = transaction_out;
  apply_buttons = true;
  final_buttons = 1;
}

abbrev sending : Endpoint
sending = record mouse { inflight = true; inflight_id = 4 }

sending-Inv : Inv sending
sending-Inv = ground arith

fused-Answers : Answers sending fused queued
fused-Answers = ground arith

enqueue_order_example :
    (kept dropped : List SyntheticItem) × (mouse.synthetic ≡ kept ++ dropped)
    × ((enqueue newer 900 mouse).1.synthetic ≡ kept ++ new_item mouse newer 900 ∷ [])
    × AllReplaceable mouse newer.persistent dropped
    × (((newer.latest ≡ false) × (dropped ≡ []))
        ⊎ ((newer.latest ≡ true) × LastStays mouse newer.persistent kept))
unfolding enqueue is_outdated split_mouse_command supported_of split_loop next_parts take_part
    take_all take_axis ◌-ℤ◌ supersede drop_back gives_way
enqueue_order_example = enqueue_order newer 900 mouse refl

enqueue-Inv_example : Inv (enqueue newer 900 mouse).1
enqueue-Inv_example = enqueue-Inv newer 900 mouse mouse-Inv

take_report-Inv_example : Inv (take_report mouse 900).0
take_report-Inv_example = take_report-Inv mouse 900 mouse-Inv

notify_written-Inv_example : Inv (notify_written sending fused true 950).0
notify_written-Inv_example = notify_written-Inv sending fused true 950 sending-Inv

written_settles_example :
    (let (t, event) = notify_written sending fused true 950 in
      let settled = settle_item queued fused in
      AddsUp queued.remaining (carried_motion fused) settled.remaining
      × (t.inflight ≡ false)
      × (t.persistent_buttons ≡ fused.persistent_buttons)
      × (t.scheduled_buttons ≡ fused.scheduled_buttons)
      × (t.synthetic ≡ (if no_motion settled.remaining then remove_finished [] else settled ∷ []))
      × (event ≡ (
          if is_edge fused.report_kind
          then some (event_of fused true (no_motion settled.remaining) 950)
          else none)))
written_settles_example = written_settles sending fused 950 queued [] refl fused-Answers refl

abbrev or_blank : Option Transfer → Transfer
or_blank none = blank_transfer []
or_blank (some io) = io

-- What the writer is given: the physical report with the movement in it.
abbrev given : Transfer
given = or_blank (take_report mouse 900).1

abbrev button_field : HidField
button_field = record { offset = 0; bits = 1; minimum = pos 0; maximum = pos 1 }

-- The button that the physical mouse holds.
take_report_keeps_holds_example :
    HasBit given.final_buttons 0 × (get button_field given.bytes ≢ pos 0)
unfolding take_report pick ready_item expire_front expire_item choose goes_alone fuses motion_fits
    field_fits fusion_motion ◌+ℤ◌ send_physical carried_by describe apply_known_fields put put_bits
    set_bit put_buttons put_mask
take_report_keeps_holds_example =
    take_report_keeps_holds mouse 900 1 button_field given refl refl (refl, omega arith, tt, tt)
      (inl (refl, refl)) refl refl refl

-- The layout was changed while the report was on its way.
abbrev renewed_mouse : Endpoint
renewed_mouse = record mouse { generation = 3 }

old_layout_ignored_example :
    (let (t, event) = notify_written renewed_mouse fused true 950 in
      (t.synthetic ≡ renewed_mouse.synthetic)
      × (t.persistent_buttons ≡ renewed_mouse.persistent_buttons)
      × (t.scheduled_buttons ≡ renewed_mouse.scheduled_buttons)
      × (t.inflight ≡ renewed_mouse.inflight)
      × (t.inflight_id ≡ renewed_mouse.inflight_id)
      × (event ≡ none))
old_layout_ignored_example = old_layout_ignored renewed_mouse fused true 950 (omega arith)

-- Two endpoints of different interfaces.
abbrev two_endpoints : List Registered
two_endpoints =
    record { address = 0x81; interface_number = 0; endpoint = mouse }
    ∷ record { address = 0x82; interface_number = 1; endpoint = sending }
    ∷ []

invalidate_all_lem_example : AllRenewed 1 7 two_endpoints (invalidate_all 1 two_endpoints 7).0
invalidate_all_lem_example = invalidate_all_lem 1 two_endpoints 7 (omega arith)

-- The bytes of the mouse: its button is held and it has moved 3 counts.
abbrev raw_report : Transfer
raw_report = blank_transfer (1 ∷ 3 ∷ 0 ∷ [])

-- What the writer is given of it, with the queued movement.
abbrev passed_report : Transfer
passed_report = or_blank (take_report (arrived (small_mouse ∷ []) mouse raw_report 800).0 900).1

take_report_passes_holds_example : get button_field passed_report.bytes ≢ pos 0
unfolding matching_profile matches queue_physical get get_bits bit_at button_mask mask_of
    saturating_add take_report pick ready_item expire_front expire_item choose goes_alone fuses
    motion_fits field_fits fusion_motion ◌+ℤ◌ send_physical carried_by describe apply_known_fields
    put put_bits set_bit put_buttons put_mask
take_report_passes_holds_example =
    take_report_passes_holds (small_mouse ∷ []) mouse raw_report 800 900 1 small_mouse button_field
      passed_report refl (inr refl) refl refl (refl, omega arith, tt, tt) (inl (refl, refl))
      (omega arith) refl refl refl
