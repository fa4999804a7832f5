-- ===== src/Mixer/Buttons.antt =====
-- mouse_mixer.cpp: the button mask of every report that the writer is given.
use usb_proxy_udp.Mouse.{MouseCommand}
use usb_proxy_udp.Base.{
  list_cases, ℕ, ◌/◌, ◌%◌, ◌≡◌, refl, List, [], ◌∷◌, Bool, true, false, Option, none, some, arith,
  bit_or, if◌then◌else◌, not, subst, ◌⊎◌, sym, ◌||◌, ◌&&◌, ◌==◌, if_cases, inl, inr,
}
use usb_proxy_udp.Base.{◌-◌, ◌*◌, ◌^◌, length, ap, ◌∙◌, ◌≢◌, Bool-cases}
use usb_proxy_udp.Base.Digits.{digit_shifted, digit-bit_or}
use usb_proxy_udp.Base.Int.{pos, ltb_ℤ}
use usb_proxy_udp.Hid.{HidField, MouseProfile, bit_at, get, put_buttons, split_mouse_command}
use usb_proxy_udp.Hid.Buttons.{AreBits, IsFieldOf, length-put_mask, put_mask_shows, get_bit}
use usb_proxy_udp.Mixer.Enqueue.{is_empty}
use usb_proxy_udp.Mixer.Take.{apply_known_fields}
use usb_proxy_udp.Mixer.State.{SyntheticItem, Transfer, Endpoint}
use usb_proxy_udp.Mixer.Take.{
  take_report, pick, choose, send_physical, send_standalone, describe, expire_front, ready_item,
  goes_alone, carried_by,
}

-- Bit `k` of a mask.
abbrev pub HasBit : ℕ → ℕ → Type 0
HasBit mask k = mask / 2 ^ k % 2 ≡ 1

pub HasBit-bit_or_left : (k a b : ℕ) → HasBit a k → HasBit (bit_or a b) k
HasBit-bit_or_left k a b h = ground (
  arith,
  digit_shifted k a,
  digit_shifted k b,
  digit_shifted k (bit_or a b),
  digit-bit_or k a b,
  h,
)

-- What a report shows of the physical mouse: the buttons read from it if it is one, or those of the
-- last physical report that was written.
abbrev pub physical_of : Endpoint → Transfer → ℕ
physical_of e io = if io.physical then io.physical_buttons else e.submitted_physical_buttons

-- The report is one that the mixer composes: one of its own, or a physical one that it could decode
-- under the current layout.
abbrev pub is_composed : Endpoint → Transfer → Bool
is_composed e io = not io.physical || (io.physical_match && io.generation == e.generation)

-- The final mask is the physical buttons with the committed synthetic masks, or with those of the
-- item that the report carries, and it is the last thing that is written into the report's bytes.
abbrev pub IsShown : Endpoint → Transfer → Type 0
IsShown e io =
    ((p : List ℕ) × (io.bytes ≡ put_buttons e.profile p io.final_buttons))
    × ((io.final_buttons
          ≡ bit_or (bit_or (physical_of e io) e.persistent_buttons) e.scheduled_buttons)
        ⊎ (io.final_buttons
            ≡ bit_or (bit_or (physical_of e io) io.persistent_buttons) io.scheduled_buttons))

abbrev pub Shows : Endpoint → Option Transfer → Type 0
Shows e none = Unit {0}
Shows e (some io) = is_composed e io ≡ true → IsShown e io

-- The known fields are applied with the buttons last.
buttons_last :
    (m : MouseProfile) (p : List ℕ) (c : MouseCommand)
    → (q : List ℕ) × (apply_known_fields m p c ≡ put_buttons m q c.buttons)
unfolding apply_known_fields
buttons_last m p c = (_, refl)

module _ (e : Endpoint) where
  send_standalone-Shows :
      (item : SyntheticItem) (competing : Bool) → Shows e (send_standalone e item competing).1
  unfolding send_standalone describe
  send_standalone-Shows item competing =
      let base = if is_empty e.submitted_template then e.latest else e.submitted_template in
      let command = record (item.remaining) { buttons = bit_or item.persistent item.scheduled } in
      if_cases (λ (r : Endpoint × Option Transfer). Shows e r.1) (is_empty base) (e, none) _
        (λ blank. tt)
        (λ ready.
          list_cases (λ (r : Endpoint × Option Transfer). Shows e r.1)
            (split_mouse_command e.profile command) (e, none) _ tt
            (λ applied parts composed. ((_, refl), inr refl)))

  send_physical-Shows :
      (candidate : Transfer) (rest : List Transfer)
      (carried : Option (SyntheticItem × MouseCommand))
      → Shows e (send_physical e candidate rest carried).1
  unfolding send_physical describe
  send_physical-Shows candidate rest none =
      elim (Bool-cases (candidate.physical_match && candidate.generation == e.generation)) [
        | inl current ↦ rw current λ _. (buttons_last e.profile candidate.bytes _, inl refl)
        | inr other ↦ rw other λ composed. absurd (ground (arith, other, composed))
      ]
  send_physical-Shows candidate rest (some (item, applied)) =
      λ _. (buttons_last e.profile candidate.bytes _, inr refl)

  choose-Shows :
      (item : SyntheticItem) (candidate : Transfer) (rest : List Transfer)
      → Shows e (choose e item candidate rest).1
  unfolding choose
  choose-Shows item candidate rest =
      if_cases (λ r. Shows e r.1) (goes_alone e item candidate rest) (send_standalone e item true)
        (send_physical e candidate rest (carried_by e item candidate))
        (λ _. send_standalone-Shows item true)
        (λ _. send_physical-Shows candidate rest (carried_by e item candidate))

  pick-Shows :
      (queue : List Transfer) (first : Option SyntheticItem) → Shows e (pick e queue first).1
  unfolding pick
  pick-Shows [] none = tt
  pick-Shows [] (some item) = send_standalone-Shows item false
  pick-Shows (candidate ∷ rest) none = send_physical-Shows candidate rest none
  pick-Shows (candidate ∷ rest) (some item) = choose-Shows item candidate rest

-- Every composed report shows the physical buttons together with synthetic masks: the committed ones,
-- or those of the item that it carries.
take_report-IsShown :
    (e : Endpoint) (now : ℕ) (io : Transfer)
    → (take_report e now).1 ≡ some io
    → is_composed e io ≡ true
    → IsShown e io
unfolding take_report
take_report-IsShown e now io h = subst (Shows e) h shows
  where
    expired : Endpoint
    expired = record e { synthetic = expire_front e now e.synthetic }

    shows : Shows e (take_report e now).1
    shows =
        if_cases (λ r. Shows e r.1) e.inflight (e, none)
          (pick expired expired.queue (ready_item expired expired.synthetic)) (λ _. tt)
          (λ _. pick-Shows expired expired.queue (ready_item expired expired.synthetic))

take_report-HasBit :
    (e : Endpoint) (now k : ℕ) (io : Transfer)
    → (take_report e now).1 ≡ some io
    → is_composed e io ≡ true
    → HasBit (physical_of e io) k
    → HasBit io.final_buttons k
take_report-HasBit e now k io h composed held = elim (take_report-IsShown e now io h composed).1 [
  | inl p ↦ subst (λ m. HasBit m k) (sym p) (kept e.persistent_buttons e.scheduled_buttons)
  | inr p ↦ subst (λ m. HasBit m k) (sym p) (kept io.persistent_buttons io.scheduled_buttons)
]
  where
    kept : (p s : ℕ) → HasBit (bit_or (bit_or (physical_of e io) p) s) k
    kept p s =
        HasBit-bit_or_left k (bit_or (physical_of e io) p) s
          (HasBit-bit_or_left k (physical_of e io) p held)

-- A report that the mixer composes, its own or a physical one that it could decode under the current
-- layout, shows every button that the physical mouse holds, by the report itself if it is a physical one,
-- else by the last physical report that was written; whatever synthetic releases are queued. It shows it in
-- its final mask and in its bytes: if each button of the profile is a bit of its own within the report, the
-- field of the held button, which can be 1, does not read as 0.
pub take_report_keeps_holds :
    (e : Endpoint) (now b : ℕ) (f : HidField) (io : Transfer)
    → (take_report e now).1 ≡ some io
    → is_composed e io ≡ true
    → AreBits (8 * length io.bytes) e.profile.buttons
    → IsFieldOf b f e.profile.buttons
    → ltb_ℤ (pos 1) f.minimum ≡ false
    → ltb_ℤ f.maximum (pos 1) ≡ false
    → HasBit (physical_of e io) (b - 1)
    → HasBit io.final_buttons (b - 1) × (get f io.bytes ≢ pos 0)
unfolding put_buttons
take_report_keeps_holds e now b f io h composed bits found low high held =
    let final = take_report-HasBit e now (b - 1) io h composed held in
    let (p, bytes) = (take_report-IsShown e now io h composed).0 in
    let mask = io.final_buttons in
    let limit = 8 * length io.bytes in
    let same : length io.bytes ≡ length p =
      ap length bytes ∙ length-put_mask limit mask e.profile.buttons p bits in
    let (shown, one) =
      put_mask_shows mask b f e.profile.buttons p
        (subst (λ (n : ℕ). AreBits (8 * n) e.profile.buttons) same bits) found low high final in
    (final, get_bit f io.bytes one (ap (λ (q : List ℕ). bit_at q f.offset) bytes ∙ shown))
