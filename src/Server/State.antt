-- ===== src/Server/State.antt =====
-- udp_server.cpp: `Key`, `CachedCommand`, `ClickWork` and the variables of `server_loop`. The mixer is
-- behind an interface: a record of the calls that the server makes, over the mixer's own state.
use usb_proxy_udp.Base.{ℕ, ◌*◌, List, Bool, Option, ◌&&◌, ◌==◌}
use usb_proxy_udp.Mouse.{ReportRequest, EnqueueResult, EndpointSnapshot, WriterEvent}
use usb_proxy_udp.Click
use usb_proxy_udp.Move
use usb_proxy_udp.Sessions
use usb_proxy_udp.Replay
use usb_proxy_udp.Replay.{Peer}
use usb_proxy_udp.Executor.{Executor}
use usb_proxy_udp.Telemetry.{Snapshot, Subscription}

abbrev pub max_click_commands : ℕ
max_click_commands = 64

abbrev pub max_cache_records : ℕ
max_cache_records = 256

-- std::chrono::milliseconds(250)
abbrev pub lease_ns : ℕ
lease_ns = 250 * 1_000_000

pub record Key : Type 0 where
  pub session : ℕ
  pub command : ℕ

abbrev pub same_key : Key → Key → Bool
same_key a b = a.session == b.session && a.command == b.command

-- The value-initialised `Key`.
abbrev pub no_key : Key
no_key = record { session = 0; command = 0 }

pub record CachedCommand : Type 0 where
  pub key : Key
  pub request : Click.Request
  pub button : ℕ
  pub accepted : ℕ
  pub completed : ℕ
  pub status : Click.Status
  pub terminal : Bool
  pub peer : Peer
  pub movement : Bool
  pub move_request : Move.Request
  pub move_ack : Move.Ack

pub data ClickPhase : Type 0 where
  await_press press_inflight holding await_release release_inflight : ClickPhase

pub record ClickWork : Type 0 where
  pub key : Key
  pub button : ℕ
  pub count : ℕ
  pub press_us : ℕ
  pub interval_us : ℕ
  pub index : ℕ
  pub press_written_ns : ℕ
  pub due_ns : ℕ
  pub phase : ClickPhase
  pub version : ℕ
  pub blocked : Bool
  pub binary : Bool

-- A datagram that was sent, with its address.
abbrev pub Datagram : Type 0
Datagram = Peer × List ℕ

-- The cache, oldest first, and what was sent, in order.
pub record Book : Type 0 where
  pub cache : List CachedCommand
  pub sent : List Datagram

-- The calls of mouse_mixer.h that the server makes; the number is the time at the call.
pub record Mixer (M : Type 0) : Type 0 where
  pub enqueue_report : ReportRequest → ℕ → M → EnqueueResult × M
  pub endpoint_snapshot : ℕ → M → EndpointSnapshot
  pub clear_synthetic_state : ℕ → M → EndpointSnapshot × M
  pub take_writer_events : M → List WriterEvent × M
  pub take_writer_overflow : M → Bool × M

-- `owner` is `none` while `owned` is false; `subscriber` is read only with a live subscription.
pub record Server (M : Type 0) : Type 0 where
  pub server_epoch : ℕ
  pub mixer : M
  pub book : Book
  pub work : List ClickWork
  pub mover : Executor
  pub persistent_buttons : ℕ
  pub scheduled_buttons : ℕ
  pub tracked_generation : ℕ
  pub owner : Option Peer
  pub last : ℕ
  pub sessions : Sessions.Tracker
  pub movement_replay : Replay.Tracker
  pub accepted_total : ℕ
  pub completed_total : ℕ
  pub release_pending : Bool
  pub release_inflight : Bool
  pub release_key : Key
  pub subscription : Subscription
  pub subscriber : Peer
  pub previous_telemetry : Snapshot
  pub last_telemetry : ℕ
