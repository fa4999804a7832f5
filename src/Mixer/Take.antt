-- ===== src/Mixer/Take.antt =====
-- mouse_mixer.cpp: `take_mouse_report`, which gives the writer its next report, at time `now`.
use usb_proxy_udp.Base.{
  ℕ, ◌-◌, ◌^◌, List, [], ◌∷◌, Bool, true, false, not, ◌&&◌, ◌||◌, Option, none, some, ◌==◌, ltb,
  leb, if◌then◌else◌, bit_or, bit_and,
}
use usb_proxy_udp.Base.Int.{ℤ, pos, ◌+ℤ◌, is_zero, leb_ℤ}
use usb_proxy_udp.Mouse.{
  MouseCommand, no_command, ReportKind, click_press, release_all_kind, transaction_press,
  is_transaction, any_activity,
}
use usb_proxy_udp.Hid.{
  HidField, MouseProfile, put, put_buttons, clear_fields, encode, no_motion, split_mouse_command,
}
use usb_proxy_udp.Mixer.State.{SyntheticItem, Transfer, blank_transfer, Endpoint}
use usb_proxy_udp.Mixer.Enqueue.{is_empty}

unfoldable pub field_fits : HidField → ℤ → ℤ → Bool
field_fits f physical synthetic =
    if is_zero synthetic
    then true
    else if f.bits == 0
    then false
    else leb_ℤ f.minimum (physical +ℤ synthetic) && leb_ℤ (physical +ℤ synthetic) f.maximum

unfoldable pub motion_fits : MouseProfile → Transfer → MouseCommand → Bool
motion_fits m io c =
    field_fits m.x io.physical_x c.x
    && field_fits m.y io.physical_y c.y
    && field_fits m.wheel io.physical_wheel c.wheel
    && field_fits m.pan io.physical_pan c.pan

unfoldable pub apply_known_fields : MouseProfile → List ℕ → MouseCommand → List ℕ
apply_known_fields m p c =
    let moved = (put m.pan (put m.wheel (put m.y (put m.x p c.x).0 c.y).0 c.wheel).0 c.pan).0 in
    put_buttons m moved c.buttons

abbrev is_release_all : ReportKind → Bool
is_release_all release_all_kind = true
is_release_all _ = false

abbrev is_press : ReportKind → Bool
is_press click_press = true
is_press transaction_press = true
is_press _ = false

-- The item still has to bring its button masks to the host.
unfoldable pub needs_buttons : Endpoint → SyntheticItem → Bool
needs_buttons e item =
    not item.buttons_committed
    && (not (item.persistent == e.persistent_buttons)
        || not (item.scheduled == e.scheduled_buttons)
        || is_release_all item.kind
        || is_transaction item.kind)

abbrev pub still : MouseCommand → MouseCommand
still c = record c { x = pos 0; y = pos 0; wheel = pos 0; pan = pos 0 }

-- A movement past its deadline loses its motion.
unfoldable pub expire_item : ℕ → SyntheticItem → SyntheticItem
expire_item now item =
    if not (item.deadline_ns == 0) && ltb item.deadline_ns now
    then record item { remaining = still item.remaining }
    else item

unfoldable pub expire_front : Endpoint → ℕ → List SyntheticItem → List SyntheticItem
expire_front e now [] = []
expire_front e now (item ∷ items) =
    let first = expire_item now item in
    let rest = expire_front e now items in
    if no_motion first.remaining && not (needs_buttons e first) then rest else first ∷ items

-- `describe_synthetic`: what the transfer says of the item that it carries.
unfoldable pub describe :
    Endpoint → SyntheticItem → Transfer → MouseCommand → Bool → Bool → Transfer
describe e item io applied standalone competing =
    let visible =
      bit_or (bit_or e.submitted_physical_buttons e.persistent_buttons) e.scheduled_buttons in
    record io {
      managed = true;
      generation = e.generation;
      synthetic_item_id = item.id;
      instance_id = e.instance_id;
      click_session = item.session;
      click_command = item.command_id;
      click_index = item.click_index;
      click_button = item.click_button;
      report_kind = item.kind;
      persistent_buttons = item.persistent;
      scheduled_buttons = item.scheduled;
      synthetic_x = applied.x;
      synthetic_y = applied.y;
      synthetic_wheel = applied.wheel;
      synthetic_pan = applied.pan;
      apply_buttons = true;
      standalone = standalone;
      competing = competing;
      click_blocked =
          if is_press item.kind && not (item.click_button == 0)
          then not (bit_and visible (2 ^ (item.click_button - 1)) == 0)
          else io.click_blocked;
    }

abbrev or_first : List MouseCommand → MouseCommand → MouseCommand
or_first [] c = c
or_first (p ∷ ps) c = p

-- The motion that may go out with a physical report: for a transaction the first part only.
unfoldable pub fusion_motion : Endpoint → SyntheticItem → MouseCommand
fusion_motion e item =
    if is_transaction item.kind
    then or_first (split_mouse_command e.profile item.remaining) item.remaining
    else item.remaining

-- A physical report with `applied` and the masks of the item, or with the committed masks.
unfoldable pub send_physical :
    Endpoint
    → Transfer
    → List Transfer
    → Option (SyntheticItem × MouseCommand)
    → Endpoint × Option Transfer
send_physical e candidate rest carried =
    let io0 = record candidate { managed = true; physical = true } in
    let compatible = io0.physical_match && io0.generation == e.generation in
    let popped = record e { queue = rest } in
    elim carried [
      | none ↦
          let final =
            bit_or (bit_or io0.physical_buttons e.persistent_buttons) e.scheduled_buttons in
          let motion : MouseCommand = record {
            x = io0.physical_x +ℤ pos 0;
            y = io0.physical_y +ℤ pos 0;
            wheel = io0.physical_wheel +ℤ pos 0;
            pan = io0.physical_pan +ℤ pos 0;
            buttons = final;
          } in
          (
            popped,
            some (
                if compatible
                then record io0 {
                  final_buttons = final;
                  bytes = apply_known_fields e.profile io0.bytes motion;
                }
                else io0),
          )
      | some (item, applied) ↦
          let io1 = describe e item io0 applied false false in
          let final = bit_or (bit_or io0.physical_buttons item.persistent) item.scheduled in
          let motion : MouseCommand = record {
            x = io0.physical_x +ℤ applied.x;
            y = io0.physical_y +ℤ applied.y;
            wheel = io0.physical_wheel +ℤ applied.wheel;
            pan = io0.physical_pan +ℤ applied.pan;
            buttons = final;
          } in
          (
            record popped { inflight = true; inflight_id = item.id },
            some (record io1 {
              final_buttons = final;
              bytes = apply_known_fields e.profile io1.bytes motion;
            }),
          )
    ]

-- A report of the item alone, over the last written physical report.
unfoldable pub send_standalone : Endpoint → SyntheticItem → Bool → Endpoint × Option Transfer
send_standalone e item competing =
    let base = if is_empty e.submitted_template then e.latest else e.submitted_template in
    let cleared = clear_fields e.profile.relative base in
    let command = record (item.remaining) { buttons = bit_or item.persistent item.scheduled } in
    let final = bit_or (bit_or e.submitted_physical_buttons item.persistent) item.scheduled in
    if is_empty base then (e, none) else elim (split_mouse_command e.profile command) [
      | [] ↦ (e, none)
      | applied ∷ parts ↦
          let bytes = put_buttons e.profile (encode e.profile applied cleared).0 final in
          let io = record (blank_transfer bytes) { final_buttons = final } in
          (
            record e { inflight = true; inflight_id = item.id },
            some (describe e item io applied true competing),
          )
    ]

abbrev is_compatible : Endpoint → Transfer → Bool
is_compatible e candidate = candidate.physical_match && candidate.generation == e.generation

-- `fuse`: the motion of the item fits into the physical report.
unfoldable pub fuses : Endpoint → SyntheticItem → Transfer → Bool
fuses e item candidate =
    is_compatible e candidate && motion_fits e.profile candidate (fusion_motion e item)

-- `buttons_only`: the physical report can carry the masks of the item.
unfoldable pub lends_buttons : Endpoint → SyntheticItem → Transfer → Bool
lends_buttons e item candidate = is_compatible e candidate && needs_buttons e item

-- The item goes out by itself, ahead of the only physical report, after three of those.
unfoldable pub goes_alone : Endpoint → SyntheticItem → Transfer → List Transfer → Bool
goes_alone e item candidate rest =
    is_empty rest
    && not (fuses e item candidate)
    && not (lends_buttons e item candidate)
    && not (is_empty e.submitted_template)
    && leb 3 e.physical_successes

-- What the physical report carries of the item.
unfoldable pub carried_by :
    Endpoint → SyntheticItem → Transfer → Option (SyntheticItem × MouseCommand)
carried_by e item candidate =
    if fuses e item candidate
    then some (item, fusion_motion e item)
    else if lends_buttons e item candidate
    then some (item, no_command)
    else none

-- The choice between the first physical report and the first item.
unfoldable pub choose :
    Endpoint → SyntheticItem → Transfer → List Transfer → Endpoint × Option Transfer
choose e item candidate rest =
    if goes_alone e item candidate rest
    then send_standalone e item true
    else send_physical e candidate rest (carried_by e item candidate)

-- The first item, unless its guard no longer holds.
unfoldable pub ready_item : Endpoint → List SyntheticItem → Option SyntheticItem
ready_item e [] = none
ready_item e (item ∷ items) =
    if not (item.guard_activity == any_activity) && not (item.guard_activity == e.activity)
    then none
    else some item

unfoldable pub pick : Endpoint → List Transfer → Option SyntheticItem → Endpoint × Option Transfer
pick e [] none = (e, none)
pick e [] (some item) = send_standalone e item false
pick e (candidate ∷ rest) none = send_physical e candidate rest none
pick e (candidate ∷ rest) (some item) = choose e item candidate rest

unfoldable pub take_report : Endpoint → ℕ → Endpoint × Option Transfer
take_report e now =
    let expired = record e { synthetic = expire_front e now e.synthetic } in
    if e.inflight
    then (e, none)
    else pick expired expired.queue (ready_item expired expired.synthetic)
