-- ===== src/Mixer/State.antt =====
-- mouse_mixer.cpp: `SyntheticItem`, `Endpoint` and the transfers of host-raw-gadget.h, as far as the
-- mixer reads and writes them. The registry's lock is held by every operation, so an operation is a
-- function of the endpoint. `queue` is the output queue of physical reports that `info` points to; the
-- condition variable and the `mouse_synthetic_pending` flag, which wake the writer, are left out.
use usb_proxy_udp.Base.{ℕ, ◌+◌, ◌%◌, ◌^◌, List, Bool, false}
use usb_proxy_udp.Base.Int.{ℤ, pos}
use usb_proxy_udp.Mouse.{MouseCommand, ReportKind, none_kind}
use usb_proxy_udp.Hid.{MouseProfile}

abbrev pub max_synthetic_items : ℕ
max_synthetic_items = 8

abbrev pub max_writer_events : ℕ
max_writer_events = 32

abbrev pub max_residence_samples : ℕ
max_residence_samples = 1024

-- uint64_t a + b
abbrev pub add64 : ℕ → ℕ → ℕ
add64 a b = (a + b) % 2 ^ 64

pub record SyntheticItem : Type 0 where
  pub id : ℕ
  pub generation : ℕ
  pub deadline_ns : ℕ
  pub physical_barrier : ℕ
  pub session : ℕ
  pub command_id : ℕ
  pub guard_activity : ℕ
  pub click_index : ℕ
  pub remaining : MouseCommand
  pub persistent : ℕ
  pub scheduled : ℕ
  pub click_button : ℕ
  pub kind : ReportKind
  pub latest : Bool
  pub buttons_committed : Bool

-- usb_raw_transfer_io; `bytes` is `data` up to `inner.length`.
pub record Transfer : Type 0 where
  pub bytes : List ℕ
  pub generation : ℕ
  pub instance_id : ℕ
  pub click_session : ℕ
  pub click_command : ℕ
  pub synthetic_item_id : ℕ
  pub physical_queued_ns : ℕ
  pub click_index : ℕ
  pub synthetic_x : ℤ
  pub synthetic_y : ℤ
  pub synthetic_wheel : ℤ
  pub synthetic_pan : ℤ
  pub physical_x : ℤ
  pub physical_y : ℤ
  pub physical_wheel : ℤ
  pub physical_pan : ℤ
  pub persistent_buttons : ℕ
  pub scheduled_buttons : ℕ
  pub physical_buttons : ℕ
  pub report_kind : ReportKind
  pub click_button : ℕ
  pub click_blocked : Bool
  pub final_buttons : ℕ
  pub managed : Bool
  pub physical : Bool
  pub physical_match : Bool
  pub standalone : Bool
  pub competing : Bool
  pub apply_buttons : Bool

-- The value-initialised transfer around a buffer.
abbrev pub blank_transfer : List ℕ → Transfer
blank_transfer bytes = record {
  bytes = bytes;
  generation = 0;
  instance_id = 0;
  click_session = 0;
  click_command = 0;
  synthetic_item_id = 0;
  physical_queued_ns = 0;
  click_index = 0;
  synthetic_x = pos 0;
  synthetic_y = pos 0;
  synthetic_wheel = pos 0;
  synthetic_pan = pos 0;
  physical_x = pos 0;
  physical_y = pos 0;
  physical_wheel = pos 0;
  physical_pan = pos 0;
  persistent_buttons = 0;
  scheduled_buttons = 0;
  physical_buttons = 0;
  report_kind = none_kind;
  click_button = 0;
  click_blocked = false;
  final_buttons = 0;
  managed = false;
  physical = false;
  physical_match = false;
  standalone = false;
  competing = false;
  apply_buttons = false;
}

pub record Endpoint : Type 0 where
  pub profile : MouseProfile
  pub latest : List ℕ
  pub submitted_template : List ℕ
  pub synthetic : List SyntheticItem
  pub queue : List Transfer
  pub residence_ns : List ℕ
  pub physical_buttons : ℕ
  pub submitted_physical_buttons : ℕ
  pub persistent_buttons : ℕ
  pub scheduled_buttons : ℕ
  pub physical_dx : ℤ
  pub physical_dy : ℤ
  pub cumulative_x : ℤ
  pub cumulative_y : ℤ
  pub generation : ℕ
  pub instance_id : ℕ
  pub next_item : ℕ
  pub physical_barrier : ℕ
  pub last_motion_ns : ℕ
  pub physical_received : ℕ
  pub physical_submitted : ℕ
  pub superseded : ℕ
  pub writer_failures : ℕ
  pub activity : ℕ
  pub physical_successes : ℕ
  pub inflight : Bool
  pub inflight_id : ℕ
