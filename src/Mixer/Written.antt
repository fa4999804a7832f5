-- ===== src/Mixer/Written.antt =====
-- mouse_mixer.cpp: `notify_mouse_report_written`, which accounts for a report that the writer has
-- finished with at time `written`, and the bounded queue of writer events.
use usb_proxy_udp.Base.{
  ℕ, ◌+◌, ◌-◌, List, [], ◌∷◌, ◌++◌, Bool, true, false, not, ◌&&◌, ◌||◌, Option, none, some, length,
  ◌==◌, ltb, leb, if◌then◌else◌, min,
}
use usb_proxy_udp.Base.Int.{◌-ℤ◌}
use usb_proxy_udp.Mouse.{
  MouseCommand, ReportKind, click_press, click_release, release_all_kind, is_transaction,
  WriterEvent,
}
use usb_proxy_udp.Hid.{no_motion}
use usb_proxy_udp.Mixer.State.{
  SyntheticItem, Transfer, Endpoint, add64, max_residence_samples, max_writer_events,
}
use usb_proxy_udp.Mixer.Take.{apply_known_fields}

unfoldable pub remove_finished : List SyntheticItem → List SyntheticItem
remove_finished [] = []
remove_finished (item ∷ items) =
    let rest = remove_finished items in
    if no_motion item.remaining && item.buttons_committed then rest else item ∷ items

-- push_back, and pop_front beyond the limit
abbrev push_sample : List ℕ → ℕ → List ℕ
push_sample [] sample = sample ∷ []
push_sample (s ∷ samples) sample =
    if ltb max_residence_samples (length samples + 2)
    then samples ++ sample ∷ []
    else s ∷ samples ++ sample ∷ []

-- What a successful write of a physical report that the profile matched leaves.
unfoldable pub physical_written : Endpoint → Transfer → Bool → ℕ → Endpoint
physical_written e io current written =
    let motion : MouseCommand = record {
      x = io.physical_x;
      y = io.physical_y;
      wheel = io.physical_wheel;
      pan = io.physical_pan;
      buttons = io.physical_buttons;
    } in
    record e {
      physical_submitted = add64 e.physical_submitted 1;
      submitted_physical_buttons = io.physical_buttons;
      submitted_template =
          if current then apply_known_fields e.profile io.bytes motion else e.submitted_template;
      residence_ns =
          if not (io.physical_queued_ns == 0) && leb io.physical_queued_ns written
          then push_sample e.residence_ns (written - io.physical_queued_ns)
          else e.residence_ns;
    }

unfoldable pub count_write : Endpoint → Transfer → Bool → Bool → ℕ → Endpoint
count_write e io success current written =
    let failed =
      if not success && current
      then record e { writer_failures = add64 e.writer_failures 1 }
      else e in
    let more = record failed { physical_successes = min 3 (failed.physical_successes + 1) } in
    let counted =
      if success && io.physical
      then (if io.physical_match then physical_written more io current written else more)
      else failed in
    if success && io.competing then record counted { physical_successes = 0 } else counted

-- The item after a successful write of a part of it.
unfoldable pub settle_item : SyntheticItem → Transfer → SyntheticItem
settle_item item io = record item {
  remaining = record (item.remaining) {
    x = item.remaining.x -ℤ io.synthetic_x;
    y = item.remaining.y -ℤ io.synthetic_y;
    wheel = item.remaining.wheel -ℤ io.synthetic_wheel;
    pan = item.remaining.pan -ℤ io.synthetic_pan;
  };
  buttons_committed = if io.apply_buttons then true else item.buttons_committed;
}

-- The transfer carried the item that is in flight, which is still the first one.
unfoldable pub carries : Endpoint → Transfer → Bool → SyntheticItem → Bool
carries e io current item =
    current
    && not (io.synthetic_item_id == 0)
    && e.inflight
    && e.inflight_id == io.synthetic_item_id
    && item.id == io.synthetic_item_id

-- The account of the first item; the flag is `finished`.
unfoldable pub settle_front :
    Endpoint → Transfer → Bool → Bool → List SyntheticItem → Endpoint × Bool
settle_front e io success current [] = (e, false)
settle_front e io success current (item ∷ items) =
    let settled = settle_item item io in
    let landed = record e { inflight = false; inflight_id = 0 } in
    let committed =
      if io.apply_buttons
      then record landed {
        persistent_buttons = io.persistent_buttons;
        scheduled_buttons = io.scheduled_buttons;
      }
      else landed in
    if not (carries e io current item)
    then (e, false)
    else if success
    then (
      record committed { synthetic = remove_finished (settled ∷ items) },
      no_motion settled.remaining && settled.buttons_committed,
    )
    else (landed, false)

abbrev pub is_edge : ReportKind → Bool
is_edge click_press = true
is_edge click_release = true
is_edge release_all_kind = true
is_edge k = is_transaction k

unfoldable pub event_of : Transfer → Bool → Bool → ℕ → WriterEvent
event_of io success finished written = record {
  session = io.click_session;
  command = io.click_command;
  generation = io.generation;
  written_ns = written;
  index = io.click_index;
  kind = io.report_kind;
  button = io.click_button;
  blocked = io.click_blocked;
  final_buttons = io.final_buttons;
  success = success;
  dx = io.synthetic_x;
  dy = io.synthetic_y;
  finished = finished;
}

unfoldable pub notify_written : Endpoint → Transfer → Bool → ℕ → Endpoint × Option WriterEvent
notify_written e io success written =
    let current = io.generation == e.generation in
    let counted = count_write e io success current written in
    let (settled, finished) = settle_front counted io success current counted.synthetic in
    if not io.managed || not (io.instance_id == e.instance_id) then (e, none) else (
      settled,
      if current && (is_edge io.report_kind || not success)
          then some (event_of io success finished written)
          else none,
    )

-- The writer's events on their way to the server.
pub record EventQueue : Type 0 where
  pub events : List WriterEvent
  pub overflow : Bool

unfoldable pub push_event : EventQueue → Option WriterEvent → EventQueue
push_event q none = q
push_event q (some event) =
    if leb max_writer_events (length q.events)
    then record q { overflow = true }
    else record q { events = q.events ++ event ∷ [] }

unfoldable pub take_events : EventQueue → List WriterEvent × EventQueue
take_events q = (q.events, record q { events = [] })

unfoldable pub take_overflow : EventQueue → Bool × EventQueue
take_overflow q = (q.overflow, record q { overflow = false })
