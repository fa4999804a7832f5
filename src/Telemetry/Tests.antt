-- ===== src/Telemetry/Tests.antt =====
-- telemetry_protocol.h: a client that asks twice.
use usb_proxy_udp.Base.{ℕ, ◌+◌, ◌≡◌, List, [], ◌∷◌, true, arith, length, ◌%◌, ◌^◌}
use usb_proxy_udp.Base.Int.{pos, negsuc}
use usb_proxy_udp.Telemetry.{Snapshot, Subscription, packet1, packet2, packet3}
use usb_proxy_udp.Telemetry.Packets.{IsValid, Names, packets_name}

abbrev nobody : Subscription
nobody = record { client = 0; token = 0; last_ns = 0; sequence = 0; version = 0 }

-- UPS3 of client 9 with token 4.
abbrev ask : List ℕ
ask =
    b'U' ∷ b'P' ∷ b'S' ∷ b'3' ∷ 0 ∷ 0 ∷ 0 ∷ 0 ∷ 0 ∷ 0 ∷ 0 ∷ 0 ∷ 0 ∷ 0 ∷ 0 ∷ 9 ∷ 0 ∷ 0 ∷ 0 ∷ 0 ∷ 0
    ∷ 0 ∷ 0 ∷ 4 ∷ []

abbrev state : Snapshot
state = record {
  ready = true;
  physical = 1;
  persistent = 0;
  scheduled = 0;
  xmin = negsuc 126;
  xmax = pos 127;
  ymin = negsuc 126;
  ymax = pos 127;
  physical_dx = negsuc 2;
  physical_dy = pos 4;
  accepted = 3;
  completed = 2;
  active = 1;
  queued = 0;
  generation = 2;
  poll_us = 1000;
  physical_age_us = 10;
  physical_received = 5;
  physical_submitted = 5;
  output_queue = 0;
  synthetic_pending = 0;
  superseded = 0;
  writer_failures = 0;
  snapshot_ns = 77;
  cumulative_x = negsuc 9;
  cumulative_y = pos 12;
}

abbrev known : Subscription
known = record { client = 9; token = 4; last_ns = 100; sequence = 0xffff_ffff; version = 3 }

known-IsValid : IsValid known
known-IsValid = ground arith

packets_name_example :
    (let (p1, s1) = packet1 known 11 state in
      let (p2, s2) = packet2 known 11 state in
      let (p3, s3) = packet3 known 11 state in
      (Names known 11 p1 × Names known 11 p2 × Names known 11 p3)
      × ((length p1 ≡ 56) × (length p2 ≡ 80) × (length p3 ≡ 128))
      × ((s1.sequence ≡ (known.sequence + 1) % 2 ^ 32) × (s2 ≡ s1) × (s3 ≡ s1)))
packets_name_example = packets_name known 11 state known-IsValid (omega arith)
