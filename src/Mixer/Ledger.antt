-- ===== src/Mixer/Ledger.antt =====
-- mouse_mixer.cpp: the account of the item in flight when its report has been written.
use usb_proxy_udp.Base.{
  ℕ, ◌≡◌, refl, List, ◌∷◌, Bool, true, false, none, some, arith, ◌≢◌, if◌then◌else◌, ◌==◌, not,
  ◌||◌, ◌&&◌,
}
use usb_proxy_udp.Base.Int.{int_laws}
use usb_proxy_udp.Mouse.{MouseCommand}
use usb_proxy_udp.Hid.{no_motion}
use usb_proxy_udp.Hid.Split.{AddsUp}
use usb_proxy_udp.Mixer.State.{SyntheticItem, Transfer, Endpoint}
use usb_proxy_udp.Mixer.Written.{
  notify_written, count_write, settle_front, settle_item, carries, event_of, remove_finished,
  is_edge, physical_written,
}

-- The motion that a transfer says it carries.
abbrev pub carried_motion : Transfer → MouseCommand
carried_motion io = record {
  x = io.synthetic_x;
  y = io.synthetic_y;
  wheel = io.synthetic_wheel;
  pan = io.synthetic_pan;
  buttons = io.final_buttons;
}

and_true : (b : Bool) → (b && true) ≡ b
and_true b = ground arith

or_false : (b : Bool) → (b || false) ≡ b
or_false b = ground arith

settle_item-AddsUp :
    (item : SyntheticItem) (io : Transfer)
    → AddsUp item.remaining (carried_motion io) (settle_item item io).remaining
unfolding settle_item
settle_item-AddsUp item io = omega int_laws

-- The transfer answers the item in flight at the front of the queue.
pub record Answers (e : Endpoint) (io : Transfer) (item : SyntheticItem) : Type 0 where
  pub managed : io.managed ≡ true
  pub same_instance : io.instance_id ≡ e.instance_id
  pub same_generation : io.generation ≡ e.generation
  pub identified : io.synthetic_item_id ≡ item.id
  pub nonzero : item.id ≢ 0
  pub in_flight : e.inflight ≡ true
  pub is_front : e.inflight_id ≡ item.id

-- What the count of a written report leaves as it was.
pub record Untouched (e t : Endpoint) : Type 0 where
  pub synthetic : t.synthetic ≡ e.synthetic
  pub inflight : t.inflight ≡ e.inflight
  pub inflight_id : t.inflight_id ≡ e.inflight_id

pub count_write-Untouched :
    (e : Endpoint) (io : Transfer) (success current : Bool) (written : ℕ)
    → Untouched e (count_write e io success current written)
unfolding count_write physical_written
count_write-Untouched e io success current written = ground arith

Answers-carries :
    (e : Endpoint) (io : Transfer) (item : SyntheticItem)
    → Answers e io item
    → (io.generation == e.generation) ≡ true
      × (not io.managed || not (io.instance_id == e.instance_id)) ≡ false
      × carries e io true item ≡ true
unfolding carries
Answers-carries e io item a = ground (
  arith, a.managed, a.same_instance, a.same_generation, a.identified, a.nonzero, a.in_flight,
  a.is_front,
)

-- What remains of the items once the front one has been accounted for.
abbrev pub left_of : SyntheticItem → List SyntheticItem → List SyntheticItem
left_of settled items =
    if no_motion settled.remaining then remove_finished items else settled ∷ items

module _ (io : Transfer) (item : SyntheticItem) (items : List SyntheticItem)
    (buttons : io.apply_buttons ≡ true) where
  settle_item-committed : (settle_item item io).buttons_committed ≡ true
  unfolding settle_item
  settle_item-committed = rw (buttons) refl

  remove_finished-settled :
      remove_finished (settle_item item io ∷ items) ≡ left_of (settle_item item io) items
  unfolding remove_finished
  remove_finished-settled = ground (arith, settle_item-committed)

  -- The account of the first item, when a write carried it.
  settle_front-lands :
      (e : Endpoint) (all : List SyntheticItem)
      → all ≡ item ∷ items
      → carries e io true item ≡ true
      → settle_front e io true true all ≡ (
        record e {
          inflight = false;
          inflight_id = 0;
          persistent_buttons = io.persistent_buttons;
          scheduled_buttons = io.scheduled_buttons;
          synthetic = left_of (settle_item item io) items;
        },
        no_motion (settle_item item io).remaining,
      )
  unfolding settle_front
  settle_front-lands e all front carried =
      simp (front, carried, buttons, remove_finished-settled, settle_item-committed, and_true)

carries-Untouched :
    (e t : Endpoint) (io : Transfer) (item : SyntheticItem)
    → Untouched e t
    → carries t io true item ≡ carries e io true item
unfolding carries
carries-Untouched e t io item same = simp (same.inflight, same.inflight_id)

-- When the report of the item in flight was written, with its masks to be committed, its motion
-- and what remains add up to what remained before, the masks are committed, nothing is in flight,
-- and the item leaves the queue exactly if no motion remains; a click, a release of all or a
-- transaction gives an event that says whether it is finished.
pub written_settles :
    (e : Endpoint) (io : Transfer) (written : ℕ) (item : SyntheticItem) (items : List SyntheticItem)
    → e.synthetic ≡ item ∷ items
    → Answers e io item
    → io.apply_buttons ≡ true
    → let (t, event) = notify_written e io true written in
      let settled = settle_item item io in
      AddsUp item.remaining (carried_motion io) settled.remaining
      × (t.inflight ≡ false)
      × (t.persistent_buttons ≡ io.persistent_buttons)
      × (t.scheduled_buttons ≡ io.scheduled_buttons)
      × (t.synthetic
          ≡ (if no_motion settled.remaining then remove_finished items else settled ∷ items))
      × (event ≡ (
          if is_edge io.report_kind
          then some (event_of io true (no_motion settled.remaining) written)
          else none))
unfolding notify_written
written_settles e io written item items front a buttons =
    let (current, ours, carried) = Answers-carries e io item a in
    let counted = count_write e io true true written in
    let same = count_write-Untouched e io true true written in
    let first : counted.synthetic ≡ item ∷ items = rw (same.synthetic) front in
    let lands =
      settle_front-lands io item items buttons counted counted.synthetic first
        (rw (carries-Untouched e counted io item same) carried) in
    rw (current, ours, lands)
      (
        settle_item-AddsUp item io,
        refl,
        refl,
        refl,
        refl,
        rw (or_false (is_edge io.report_kind)) refl,
      )
