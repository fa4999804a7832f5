-- ===== src/Server/Start.antt =====
-- udp_server.cpp: the variables of `server_loop` before its first round, with the initial values of
-- `MoveExecutor`, `Subscription` and `Snapshot`.
use usb_proxy_udp.Base.{ℕ, [], false, none}
use usb_proxy_udp.Base.Int.{pos}
use usb_proxy_udp.Executor.{Executor, empty_ack}
use usb_proxy_udp.Replay.{Peer}
use usb_proxy_udp.Telemetry.{Snapshot, Subscription}
use usb_proxy_udp.Server.State.{Server, no_key}
use usb_proxy_udp.Server.Book.{default_move}

abbrev pub idle_executor : Executor
idle_executor = record {
  request = default_move;
  ack = empty_ack;
  due = 0;
  deadline = 0;
  activity = 0;
  pending = false;
  continued = false;
  cancel_asked = false;
}

abbrev pub no_snapshot : Snapshot
no_snapshot = record {
  ready = false;
  physical = 0;
  persistent = 0;
  scheduled = 0;
  xmin = pos 0;
  xmax = pos 0;
  ymin = pos 0;
  ymax = pos 0;
  physical_dx = pos 0;
  physical_dy = pos 0;
  accepted = 0;
  completed = 0;
  active = 0;
  queued = 0;
  generation = 0;
  poll_us = 0;
  physical_age_us = 0xffff_ffff;
  physical_received = 0;
  physical_submitted = 0;
  output_queue = 0;
  synthetic_pending = 0;
  superseded = 0;
  writer_failures = 0;
  snapshot_ns = 0;
  cumulative_x = pos 0;
  cumulative_y = pos 0;
}

abbrev pub no_subscription : Subscription
no_subscription = record { client = 0; token = 0; last_ns = 0; sequence = 0; version = 0 }

-- The value-initialised `sockaddr_in`.
abbrev pub no_peer : Peer
no_peer = record { address = 0; port = 0 }

-- `server_epoch` is the value of `random_epoch`, and `m` the state of the mixer.
abbrev pub initial : {M : Type 0} → ℕ → M → ℕ → Server M
initial server_epoch m now = record {
  server_epoch = server_epoch;
  mixer = m;
  book = record { cache = []; sent = [] };
  work = [];
  mover = idle_executor;
  persistent_buttons = 0;
  scheduled_buttons = 0;
  tracked_generation = 0;
  owner = none;
  last = now;
  sessions = record { active = []; retired = [] };
  movement_replay = [];
  accepted_total = 0;
  completed_total = 0;
  release_pending = false;
  release_inflight = false;
  release_key = no_key;
  subscription = no_subscription;
  subscriber = no_peer;
  previous_telemetry = no_snapshot;
  last_telemetry = 0;
}
