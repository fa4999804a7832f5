-- ===== src/Mixer/Enqueue.antt =====
-- mouse_mixer.cpp: `enqueue_report` and `clear_synthetic_state` on the selected endpoint.
use usb_proxy_udp.Base.{
  ℕ, ◌-◌, List, [], ◌∷◌, ◌++◌, Bool, true, false, not, ◌&&◌, ◌||◌, length, ◌==◌, leb, if◌then◌else◌,
  bit_or,
}
use usb_proxy_udp.Mouse.{
  ReportKind, movement, EnqueueResult, ok, not_ready, unsupported, queue_full, any_activity,
  ReportRequest,
}
use usb_proxy_udp.Hid.{split_mouse_command}
use usb_proxy_udp.Mixer.State.{SyntheticItem, Endpoint, max_synthetic_items, add64}

abbrev pub is_empty {ℓ} : {A : Type ℓ} → List A → Bool
is_empty [] = true
is_empty (x ∷ xs) = false

abbrev is_movement : ReportKind → Bool
is_movement movement = true
is_movement _ = false

-- The loop's `break` test, negated: the item at the tail gives way to a newer movement.
unfoldable pub gives_way : Endpoint → ℕ → SyntheticItem → Bool
gives_way e persistent tail = not (
    (e.inflight && tail.id == e.inflight_id)
    || not tail.latest
    || not (is_movement tail.kind)
    || not (tail.persistent == persistent)
    || not (tail.physical_barrier == e.physical_barrier))

-- while (!synthetic.empty()) { if (!test(synthetic.back())) break; synthetic.pop_back(); }
unfoldable pub drop_back {ℓ} : {A : Type ℓ} → (A → Bool) → List A → List A
drop_back test [] = []
drop_back test (x ∷ xs) = elim (drop_back test xs) [
  | [] ↦ if test x then [] else x ∷ []
  | y ∷ ys ↦ x ∷ y ∷ ys
]

unfoldable pub supersede : Endpoint → ReportRequest → List SyntheticItem
supersede e r = if r.latest then drop_back (gives_way e r.persistent) e.synthetic else e.synthetic

-- The item that is appended, at time `now`.
unfoldable pub new_item : Endpoint → ReportRequest → ℕ → SyntheticItem
new_item e r now = record {
  id = e.next_item;
  generation = e.generation;
  deadline_ns = if r.latest then add64 now 25_000_000 else 0;
  physical_barrier = e.physical_barrier;
  session = r.session;
  command_id = r.command_id;
  guard_activity = r.expected_activity;
  click_index = r.click_index;
  remaining = record (r.command) { buttons = bit_or r.persistent r.scheduled };
  persistent = r.persistent;
  scheduled = r.scheduled;
  click_button = r.click_button;
  kind = r.kind;
  latest = r.latest;
  buttons_committed = false;
}

-- The endpoint has changed since the caller looked at it.
unfoldable pub is_outdated : Endpoint → ReportRequest → Bool
is_outdated e r =
    (not (r.expected_generation == 0) && not (e.generation == r.expected_generation))
    || (not (r.expected_activity == any_activity) && not (e.activity == r.expected_activity))

unfoldable pub enqueue : ReportRequest → ℕ → Endpoint → EnqueueResult × Endpoint
enqueue r now e =
    let command = record (r.command) { buttons = bit_or r.persistent r.scheduled } in
    let left = supersede e r in
    let dropped = length e.synthetic - length left in
    let cleared = record e { synthetic = left; superseded = add64 e.superseded dropped } in
    if is_empty e.latest || is_outdated e r
    then (not_ready, e)
    else if is_empty (split_mouse_command e.profile command)
    then (unsupported, e)
    else if leb max_synthetic_items (length left)
    then (queue_full, cleared)
    else (
      ok,
      record cleared { synthetic = left ++ new_item e r now ∷ []; next_item = add64 e.next_item 1 },
    )

-- Drops what is queued; the masks stay, since they describe the last report that was written.
unfoldable pub clear_synthetic : Endpoint → Endpoint
clear_synthetic e = record e { synthetic = []; inflight = false; inflight_id = 0 }
