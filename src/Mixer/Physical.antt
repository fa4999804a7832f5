-- ===== src/Mixer/Physical.antt =====
-- mouse_mixer.cpp: `queue_physical_mouse_report`, which reads a report of the physical mouse on its
-- way to the output queue, `seed_mouse_report`, and the invalidation of an interface's layout.
use usb_proxy_udp.Base.{
  ℕ, ◌-◌, ◌^◌, List, [], ◌∷◌, true, false, not, ◌&&◌, ◌||◌, Option, none, some, ◌==◌, if◌then◌else◌,
}
use usb_proxy_udp.Base.Int.{ℤ, pos, negsuc, ◌+ℤ◌, is_zero, ltb_ℤ}
use usb_proxy_udp.Hid.{MouseProfile, matches, get, button_mask, clear_fields, put_buttons}
use usb_proxy_udp.Mixer.State.{Transfer, Endpoint, add64}
use usb_proxy_udp.Mixer.Enqueue.{is_empty}

-- int64_t value + delta, held at the ends of the range.
unfoldable pub saturating_add : ℤ → ℤ → ℤ
saturating_add value delta =
    let sum = value +ℤ delta in
    if ltb_ℤ (pos (2 ^ 63 - 1)) sum
    then pos (2 ^ 63 - 1)
    else if ltb_ℤ sum (negsuc (2 ^ 63 - 1))
    then negsuc (2 ^ 63 - 1)
    else sum

-- The first of the interface's profiles that matches, and that is the endpoint's once it has one.
unfoldable pub matching_profile : List MouseProfile → Endpoint → List ℕ → Option MouseProfile
matching_profile [] e bytes = none
matching_profile (m ∷ ms) e bytes =
    if matches m bytes && (is_empty e.latest || m.id == e.profile.id)
    then some m
    else matching_profile ms e bytes

-- The transfer is returned with its physical fields; the caller appends it to the output queue.
unfoldable pub queue_physical : List MouseProfile → Endpoint → Transfer → ℕ → Endpoint × Transfer
queue_physical profiles e io now =
    let io1 = record io {
      managed = true;
      physical = true;
      physical_queued_ns = now;
      generation = e.generation;
      instance_id = e.instance_id;
    } in
    let e1 = record e { physical_barrier = add64 e.physical_barrier 1 } in
    elim (matching_profile profiles e io.bytes) [
      | none ↦ (e1, io1)
      | some m ↦
          let x = get m.x io.bytes in
          let y = get m.y io.bytes in
          let wheel = get m.wheel io.bytes in
          let pan = get m.pan io.bytes in
          let buttons = button_mask m io.bytes in
          let moved = not (is_zero x) || not (is_zero y) in
          let used =
            moved
            || not (is_zero wheel)
            || not (is_zero pan)
            || not (e.physical_buttons == buttons) in
          (
            record e1 {
              profile = if is_empty e.latest then m else e.profile;
              latest = io.bytes;
              activity = if used then add64 e.activity 1 else e.activity;
              physical_buttons = buttons;
              physical_dx = x;
              physical_dy = y;
              cumulative_x = saturating_add e.cumulative_x x;
              cumulative_y = saturating_add e.cumulative_y y;
              last_motion_ns = if moved then now else e.last_motion_ns;
              physical_received = add64 e.physical_received 1;
            },
            record io1 {
              physical_match = true;
              physical_buttons = buttons;
              physical_x = x;
              physical_y = y;
              physical_wheel = wheel;
              physical_pan = pan;
            },
          )
    ]

-- The report is made a neutral one, which is also written back into the transfer's bytes.
unfoldable pub seed : List MouseProfile → Endpoint → List ℕ → Endpoint × List ℕ
seed profiles e bytes = elim (matching_profile profiles e bytes) [
  | none ↦ (e, bytes)
  | some m ↦
      let blank = put_buttons m (clear_fields m.relative bytes) 0 in
      (
        record e {
          profile = m;
          latest = blank;
          submitted_template = blank;
          physical_buttons = 0;
          submitted_physical_buttons = 0;
        },
        blank,
      )
]

-- `invalidate_interface` for an endpoint of the interface, with the next generation number.
unfoldable pub invalidate : Endpoint → ℕ → Endpoint
invalidate e generation = record e {
  latest = [];
  submitted_template = [];
  synthetic = [];
  persistent_buttons = 0;
  scheduled_buttons = 0;
  inflight = false;
  inflight_id = 0;
  generation = generation;
}
