-- ===== src/Mixer/Snapshot.antt =====
-- mouse_mixer.cpp: `endpoint_snapshot`, what the server sees of the selected endpoint at time `now`, with
-- the fingerprint of its report layout. `poll_us` is the polling interval of the endpoint's thread.
use usb_proxy_udp.Base.{
  ℕ, zero, suc, ◌+◌, ◌-◌, ◌*◌, ◌/◌, ◌%◌, ◌^◌, List, [], ◌∷◌, true, false, not, ◌&&◌, length, leb,
  ◌==◌, if◌then◌else◌, min, max, bit_xor, Option, none, some, get_or,
}
use usb_proxy_udp.Base.Int.{pos, to_u32}
use usb_proxy_udp.Mouse.{EndpointSnapshot}
use usb_proxy_udp.Hid.{HidField, MouseProfile, supported_of}
use usb_proxy_udp.Mixer.State.{Endpoint}
use usb_proxy_udp.Mixer.Enqueue.{is_empty}

abbrev saturate32 : ℕ → ℕ
saturate32 n = min n 0xffff_ffff

abbrev saturate16 : ℕ → ℕ
saturate16 n = min n 0xffff

-- The loop of the lambda `hash`, for the `k` low bytes of `n`.
unfoldable pub hash_bytes : ℕ → ℕ → ℕ → ℕ
hash_bytes zero layout n = layout
hash_bytes (suc k) layout n =
    hash_bytes k (bit_xor layout (n % 256) * 1_099_511_628_211 % 2 ^ 64) (n / 256)

abbrev hash : ℕ → ℕ → ℕ
hash layout n = hash_bytes 8 layout n

-- The lambda `field`.
abbrev hash_field : ℕ → HidField → ℕ
hash_field layout f =
    hash (hash (hash (hash layout f.offset) f.bits) (to_u32 f.minimum)) (to_u32 f.maximum)

unfoldable pub hash_buttons : ℕ → List (ℕ × HidField) → ℕ
hash_buttons layout [] = layout
hash_buttons layout ((b, f) ∷ bs) = hash_buttons (hash_field (hash layout b) f) bs

unfoldable pub layout_of : MouseProfile → ℕ
layout_of m =
    let named = hash (hash 1_469_598_103_934_665_603 m.id) m.size in
    let axes = hash_field (hash_field (hash_field (hash_field named m.x) m.y) m.wheel) m.pan in
    let layout = hash_buttons axes m.buttons in if layout == 0 then 1 else layout

abbrev insert : ℕ → List ℕ → List ℕ
insert n [] = n ∷ []
insert n (k ∷ ks) = if leb n k then n ∷ k ∷ ks else k ∷ insert n ks

abbrev sorted : List ℕ → List ℕ
sorted [] = []
sorted (n ∷ ns) = insert n (sorted ns)

-- The sample that `nth_element` puts at 99 of 100.
unfoldable pub p99 : List ℕ → ℕ
p99 [] = 0
p99 (n ∷ ns) = get_or (sorted (n ∷ ns)) ((length (n ∷ ns) * 99 + 99) / 100 - 1) 0

unfoldable pub no_endpoint : ℕ → ℕ → EndpointSnapshot
no_endpoint generation now = record {
  ready = false;
  physical = 0;
  persistent = 0;
  scheduled = 0;
  supported = 0;
  xmin = pos 0;
  xmax = pos 0;
  ymin = pos 0;
  ymax = pos 0;
  physical_dx = pos 0;
  physical_dy = pos 0;
  poll_us = 1000;
  physical_age_us = 0xffff_ffff;
  physical_received = 0;
  physical_submitted = 0;
  superseded = 0;
  writer_failures = 0;
  output_queue = 0;
  synthetic_pending = 0;
  generation = generation;
  snapshot_ns = now;
  last_motion_ns = 0;
  p99_residence_ns = 0;
  activity = 0;
  layout = 0;
  cumulative_x = pos 0;
  cumulative_y = pos 0;
}

unfoldable pub snapshot_of : Endpoint → ℕ → ℕ → EndpointSnapshot
snapshot_of e poll_us now = record {
  ready = true;
  physical = e.physical_buttons;
  persistent = e.persistent_buttons;
  scheduled = e.scheduled_buttons;
  supported = supported_of e.profile.buttons;
  xmin = e.profile.x.minimum;
  xmax = e.profile.x.maximum;
  ymin = e.profile.y.minimum;
  ymax = e.profile.y.maximum;
  physical_dx = e.physical_dx;
  physical_dy = e.physical_dy;
  poll_us = max 1 poll_us;
  physical_age_us =
      if not (e.last_motion_ns == 0) && leb e.last_motion_ns now
      then saturate32 ((now - e.last_motion_ns) / 1000)
      else 0xffff_ffff;
  physical_received = saturate32 e.physical_received;
  physical_submitted = saturate32 e.physical_submitted;
  superseded = saturate32 e.superseded;
  writer_failures = saturate32 e.writer_failures;
  output_queue = saturate16 (length e.queue);
  synthetic_pending = saturate16 (length e.synthetic);
  generation = e.generation;
  snapshot_ns = now;
  last_motion_ns = e.last_motion_ns;
  p99_residence_ns = p99 e.residence_ns;
  activity = e.activity;
  layout = layout_of e.profile;
  cumulative_x = e.cumulative_x;
  cumulative_y = e.cumulative_y;
}

-- `found` is the selected endpoint, if there is one.
unfoldable pub endpoint_snapshot : Option Endpoint → ℕ → ℕ → ℕ → EndpointSnapshot
endpoint_snapshot none next_generation poll_us now = no_endpoint next_generation now
endpoint_snapshot (some e) next_generation poll_us now =
    if is_empty e.latest then no_endpoint next_generation now else snapshot_of e poll_us now
