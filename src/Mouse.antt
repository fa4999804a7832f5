-- ===== src/Mouse.antt =====
-- The types that the mixer, the executor and the server share: `MouseCommand` of mouse_protocol.h and
-- the declarations of mouse_mixer.h.
use usb_proxy_udp.Base.{ℕ, Bool, true, false, ◌^◌, ◌-◌}
use usb_proxy_udp.Base.Int.{ℤ, pos}

pub record MouseCommand : Type 0 where
  pub x : ℤ
  pub y : ℤ
  pub wheel : ℤ
  pub pan : ℤ
  pub buttons : ℕ

abbrev pub no_command : MouseCommand
no_command = record { x = pos 0; y = pos 0; wheel = pos 0; pan = pos 0; buttons = 0 }

-- REPORT_NONE … REPORT_TRANSACTION_RETURN, in the order of their codes.
pub data ReportKind : Type 0 where
  none_kind movement persistent_edge click_press click_release release_all_kind : ReportKind
  transaction_out transaction_press transaction_release transaction_return : ReportKind

-- kind >= REPORT_TRANSACTION_OUT
abbrev pub is_transaction : ReportKind → Bool
is_transaction transaction_out = true
is_transaction transaction_press = true
is_transaction transaction_release = true
is_transaction transaction_return = true
is_transaction _ = false

pub data EnqueueResult : Type 0 where
  ok not_ready unsupported queue_full : EnqueueResult

pub record EndpointSnapshot : Type 0 where
  pub ready : Bool
  pub physical : ℕ
  pub persistent : ℕ
  pub scheduled : ℕ
  pub supported : ℕ
  pub xmin : ℤ
  pub xmax : ℤ
  pub ymin : ℤ
  pub ymax : ℤ
  pub physical_dx : ℤ
  pub physical_dy : ℤ
  pub poll_us : ℕ
  pub physical_age_us : ℕ
  pub physical_received : ℕ
  pub physical_submitted : ℕ
  pub superseded : ℕ
  pub writer_failures : ℕ
  pub output_queue : ℕ
  pub synthetic_pending : ℕ
  pub generation : ℕ
  pub snapshot_ns : ℕ
  pub last_motion_ns : ℕ
  pub p99_residence_ns : ℕ
  pub activity : ℕ
  pub layout : ℕ
  pub cumulative_x : ℤ
  pub cumulative_y : ℤ

pub record WriterEvent : Type 0 where
  pub session : ℕ
  pub command : ℕ
  pub generation : ℕ
  pub written_ns : ℕ
  pub index : ℕ
  pub kind : ReportKind
  pub button : ℕ
  pub blocked : Bool
  pub final_buttons : ℕ
  pub success : Bool
  pub dx : ℤ
  pub dy : ℤ
  pub finished : Bool

-- UINT64_MAX, the value of `expected_activity` that asks for no check.
abbrev pub any_activity : ℕ
any_activity = 2 ^ 64 - 1

-- The arguments of `enqueue_report`.
pub record ReportRequest : Type 0 where
  pub command : MouseCommand
  pub persistent : ℕ
  pub scheduled : ℕ
  pub kind : ReportKind
  pub latest : Bool
  pub session : ℕ
  pub command_id : ℕ
  pub click_index : ℕ
  pub click_button : ℕ
  pub expected_activity : ℕ
  pub expected_generation : ℕ
