-- ===== src/Mixer/Through.antt =====
-- mouse_mixer.cpp: a report of the physical mouse on its way from `queue_physical_mouse_report` through
-- `take_mouse_report` to the host.
use usb_proxy_udp.Base.{
  ℕ, ◌-◌, ◌*◌, ◌/◌, ◌%◌, ◌^◌, ◌≤◌, ◌≡◌, ◌≢◌, refl, List, [], ◌∷◌, Bool, true, false, Option, none,
  some, arith, length, bit_or, ◌==◌, if◌then◌else◌, if_cases, list_cases, ◌⊎◌, inl, inr, subst, sym,
  ap, ◌∙◌,
}
use usb_proxy_udp.Base.Digits.{digit_shifted, digit-bit_or}
use usb_proxy_udp.Base.Bits.{every, every_sound}
use usb_proxy_udp.Base.Int.{pos, ltb_ℤ, is_zero}
use usb_proxy_udp.Mouse.{MouseCommand}
use usb_proxy_udp.Hid.{
  HidField, MouseProfile, get, mask_of, button_mask, button_bit, split_mouse_command,
}
use usb_proxy_udp.Hid.Buttons.{AreBits, IsFieldOf}
use usb_proxy_udp.Mixer.State.{SyntheticItem, Transfer, Endpoint}
use usb_proxy_udp.Mixer.Enqueue.{is_empty}
use usb_proxy_udp.Mixer.Physical.{matching_profile, queue_physical}
use usb_proxy_udp.Mixer.Take.{
  take_report, pick, choose, send_physical, send_standalone, describe, expire_front, ready_item,
  goes_alone, carried_by,
}
use usb_proxy_udp.Mixer.Buttons.{
  HasBit, HasBit-bit_or_left, is_composed, physical_of, take_report_keeps_holds,
}

-- The buttons that `button_mask` reads.
HasBit-bit_or_right : (k a b : ℕ) → HasBit b k → HasBit (bit_or a b) k
HasBit-bit_or_right k a b h = ground (
  arith,
  digit_shifted k a,
  digit_shifted k b,
  digit_shifted k (bit_or a b),
  digit-bit_or k a b,
  h,
)

button_table : every (λ b. button_bit b / 2 ^ (b - 1) % 2 == 1) 9 ≡ true
unfolding every
button_table = refl

HasBit-button_bit : (b : ℕ) → b ≤ 8 → HasBit (button_bit b) (b - 1)
HasBit-button_bit b high = ground (arith, every_sound _ 9 b (omega arith) button_table)

HasBit-mask_of :
    (b : ℕ) (f : HidField) (bs : List (ℕ × HidField)) (p : List ℕ)
    → b ≤ 8
    → IsFieldOf b f bs
    → is_zero (get f p) ≡ false
    → HasBit (mask_of bs p) (b - 1)
unfolding mask_of
HasBit-mask_of b f [] p high found pressed = absurd found
HasBit-mask_of b f ((key, field) ∷ bs) p high (inr more) pressed =
    if_cases (λ m. HasBit m (b - 1)) (is_zero (get field p)) (mask_of bs p)
      (bit_or (button_bit key) (mask_of bs p)) (λ _. HasBit-mask_of b f bs p high more pressed)
      (λ _.
        HasBit-bit_or_right (b - 1) (button_bit key) (mask_of bs p)
          (HasBit-mask_of b f bs p high more pressed))
HasBit-mask_of b f ((key, field) ∷ bs) p high (inl (here, at)) pressed =
    let set : is_zero (get field p) ≡ false =
      ap (λ (g : HidField). is_zero (get g p)) at ∙ pressed in
    rw set (
      HasBit-bit_or_left (b - 1) (button_bit key) (mask_of bs p)
        (subst (λ (k : ℕ). HasBit (button_bit k) (b - 1)) (sym here) (HasBit-button_bit b high)))

-- A physical report that was read under the current layout keeps its buttons when it is given on.
module _ (e : Endpoint) (c : Transfer) (read : c.physical_match ≡ true)
    (current : c.generation ≡ e.generation) where
  abbrev Passes : Option Transfer → Type 0
  Passes none = Unit {0}
  Passes (some io) =
      io.physical ≡ true → (io.physical_buttons ≡ c.physical_buttons) × (is_composed e io ≡ true)

  send_standalone-Passes :
      (item : SyntheticItem) (competing : Bool) → Passes (send_standalone e item competing).1
  unfolding send_standalone describe
  send_standalone-Passes item competing =
      let base = if is_empty e.submitted_template then e.latest else e.submitted_template in
      let command = record (item.remaining) { buttons = bit_or item.persistent item.scheduled } in
      if_cases (λ (r : Endpoint × Option Transfer). Passes r.1) (is_empty base) (e, none) _
        (λ blank. tt)
        (λ ready.
          list_cases (λ (r : Endpoint × Option Transfer). Passes r.1)
            (split_mouse_command e.profile command) (e, none) _ tt
            (λ applied parts physical. absurd (ground (arith, physical))))

  send_physical-Passes :
      (carried : Option (SyntheticItem × MouseCommand)) → Passes (send_physical e c [] carried).1
  unfolding send_physical describe
  send_physical-Passes none = λ _. ground (arith, read, current)
  send_physical-Passes (some (item, applied)) = λ _. ground (arith, read, current)

  pick-Passes : (first : Option SyntheticItem) → Passes (pick e (c ∷ []) first).1
  unfolding pick choose
  pick-Passes none = send_physical-Passes none
  pick-Passes (some item) =
      if_cases (λ (r : Endpoint × Option Transfer). Passes r.1) (goes_alone e item c [])
        (send_standalone e item true) (send_physical e c [] (carried_by e item c))
        (λ _. send_standalone-Passes item true) (λ _. send_physical-Passes (carried_by e item c))

take_report-Passes :
    (e : Endpoint) (c : Transfer) (read : c.physical_match ≡ true)
    (current : c.generation ≡ e.generation) (now : ℕ)
    → e.queue ≡ c ∷ []
    → Passes e c read current (take_report e now).1
unfolding take_report
take_report-Passes e c read current now only =
    let expired : Endpoint = record e { synthetic = expire_front e now e.synthetic } in
    if_cases (λ (r : Endpoint × Option Transfer). Passes e c read current r.1) e.inflight (e, none)
      (pick expired e.queue (ready_item expired expired.synthetic)) (λ _. tt)
      (λ _.
        subst
          (λ (queue : List Transfer).
            Passes e c read current (pick expired queue (ready_item expired expired.synthetic)).1)
          (sym only) (pick-Passes expired c read current (ready_item expired expired.synthetic)))

-- The endpoint and the report when the report was read as the only one of the output queue.
abbrev pub arrived : List MouseProfile → Endpoint → Transfer → ℕ → Endpoint × Transfer
arrived profiles e io now =
    let (read, queued) = queue_physical profiles e io now in
    (record read { queue = queued ∷ [] }, queued)

arrived_lem :
    (profiles : List MouseProfile) (e : Endpoint) (io : Transfer) (now : ℕ) (m : MouseProfile)
    → matching_profile profiles e io.bytes ≡ some m
    → (is_empty e.latest ≡ true) ⊎ (e.profile ≡ m)
    → let (s, q) = arrived profiles e io now in
      (q.physical_match ≡ true)
      × (q.generation ≡ s.generation)
      × (q.physical_buttons ≡ button_mask m io.bytes)
      × (s.profile ≡ m)
unfolding queue_physical
arrived_lem profiles e io now m matched (inl first) = ground (arith, matched, first)
arrived_lem profiles e io now m matched (inr same) = ground (arith, matched, same)

-- A report of the physical mouse matches a layout of its interface, which becomes the endpoint's with its
-- first report and else is the endpoint's. It is read, is the only one that waits, and goes on to the host
-- as a physical report, with or without a synthetic item in it: a button, up to 8, that reads as pressed
-- in the mouse's bytes reads as pressed in the bytes for the host, if each button of the layout is a bit of
-- its own within the report and the button's field can be 1.
pub take_report_passes_holds :
    (profiles : List MouseProfile) (e : Endpoint) (io : Transfer) (now later b : ℕ)
    (m : MouseProfile) (f : HidField) (out : Transfer)
    → matching_profile profiles e io.bytes ≡ some m
    → (is_empty e.latest ≡ true) ⊎ (e.profile ≡ m)
    → (take_report (arrived profiles e io now).0 later).1 ≡ some out
    → out.physical ≡ true
    → AreBits (8 * length out.bytes) m.buttons
    → IsFieldOf b f m.buttons
    → b ≤ 8
    → ltb_ℤ (pos 1) f.minimum ≡ false
    → ltb_ℤ f.maximum (pos 1) ≡ false
    → is_zero (get f io.bytes) ≡ false
    → get f out.bytes ≢ pos 0
unfolding button_mask
take_report_passes_holds profiles e io now later b m f out matched layout given physical bits found
      high low top pressed =
    let (s, q) = arrived profiles e io now in
    let (read, current, mask, profile) = arrived_lem profiles e io now m matched layout in
    let (same, composed) =
      subst (Passes s q read current) given (take_report-Passes s q read current later refl)
        physical in
    let held : HasBit (button_mask m io.bytes) (b - 1) =
      HasBit-mask_of b f m.buttons io.bytes high found pressed in
    let shown : physical_of s out ≡ button_mask m io.bytes = ground (arith, physical, same, mask) in
    (take_report_keeps_holds s later b f out given composed
      (subst (λ (n : MouseProfile). AreBits (8 * length out.bytes) n.buttons) (sym profile) bits)
      (subst (λ (n : MouseProfile). IsFieldOf b f n.buttons) (sym profile) found) low top
      (subst (λ (n : ℕ). HasBit n (b - 1)) (sym shown) held)).1
