-- ===== src/Mixer/Stale.antt =====
-- mouse_mixer.cpp: reports that were composed for an earlier layout of the mouse.
use usb_proxy_udp.Base.{
  ℕ, ◌+◌, ◌<◌, ◌^◌, ◌≡◌, ◌≢◌, refl, List, [], ◌∷◌, Bool, false, none, arith, length, ◌==◌,
  Bool-cases, inl, inr, ==_iff,
}
use usb_proxy_udp.Mixer.State.{Transfer, Endpoint, add64}
use usb_proxy_udp.Mixer.Written.{
  notify_written, settle_front, carries, count_write, physical_written,
}
use usb_proxy_udp.Mixer.Physical.{invalidate}
use usb_proxy_udp.Mixer.Registry.{Registered, invalidate_all}
use usb_proxy_udp.Mixer.Ledger.{count_write-Untouched}

-- The masks of the last written report stay as well.
count_write_masks :
    (e : Endpoint) (io : Transfer) (success current : Bool) (written : ℕ)
    → let t = count_write e io success current written in
      (t.persistent_buttons ≡ e.persistent_buttons) × (t.scheduled_buttons ≡ e.scheduled_buttons)
unfolding count_write physical_written
count_write_masks e io success current written = ground arith

settle_front_idle :
    (e : Endpoint) (io : Transfer) (success : Bool) (items : List _)
    → settle_front e io success false items ≡ (e, false)
unfolding settle_front carries
settle_front_idle e io success [] = refl
settle_front_idle e io success (item ∷ items) = refl

-- The write of a report for another layout changes no queued item, no committed mask and not the item
-- in flight, and is told to nobody.
pub old_layout_ignored :
    (e : Endpoint) (io : Transfer) (success : Bool) (written : ℕ)
    → io.generation ≢ e.generation
    → let (t, event) = notify_written e io success written in
      (t.synthetic ≡ e.synthetic)
      × (t.persistent_buttons ≡ e.persistent_buttons)
      × (t.scheduled_buttons ≡ e.scheduled_buttons)
      × (t.inflight ≡ e.inflight)
      × (t.inflight_id ≡ e.inflight_id)
      × (event ≡ none)
unfolding notify_written
old_layout_ignored e io success written old =
    let counted = count_write e io success false written in
    let same = count_write-Untouched e io success false written in
    let masks = count_write_masks e io success false written in
    let idle = settle_front_idle counted io success counted.synthetic in
    let off : (io.generation == e.generation) ≡ false = ground arith in
    ground (arith, off, same.synthetic, same.inflight, same.inflight_id, masks, idle)

-- An endpoint of the interface starts again with a generation above the last one; any other stays.
abbrev pub Renewed : ℕ → ℕ → Registered → Registered → Type 0
Renewed number generation r s =
    (s.address ≡ r.address)
    × (r.interface_number ≡ number
        → (generation < s.endpoint.generation)
          × (s.endpoint.synthetic ≡ [])
          × (s.endpoint.latest ≡ [])
          × (s.endpoint.inflight ≡ false))
    × (r.interface_number ≢ number → s ≡ r)

abbrev pub AllRenewed : ℕ → ℕ → List Registered → List Registered → Type 0
AllRenewed number generation [] [] = Unit {0}
AllRenewed number generation (r ∷ rs) (s ∷ ss) =
    Renewed number generation r s × AllRenewed number generation rs ss
AllRenewed number generation [] (s ∷ ss) = ⊥
AllRenewed number generation (r ∷ rs) [] = ⊥

AllRenewed-lower :
    (number a b : ℕ) (rs ss : List Registered)
    → a < b + 1
    → AllRenewed number b rs ss
    → AllRenewed number a rs ss
AllRenewed-lower number a b [] [] le h = tt
AllRenewed-lower number a b [] (s ∷ ss) le h = absurd h
AllRenewed-lower number a b (r ∷ rs) [] le h = absurd h
AllRenewed-lower number a b (r ∷ rs) (s ∷ ss) le (h, hs) = (
  (
    h.0,
    λ mine.
        let (above, no_items, no_report, free) = h.1 mine in
        (omega (arith, le, above), no_items, no_report, free),
    h.2,
  ),
  AllRenewed-lower number a b rs ss le hs,
)

-- When an interface gets a new layout, each of its endpoints loses what is queued and has a generation
-- above every one given before; the endpoints of the other interfaces are untouched.
pub invalidate_all_lem :
    (number : ℕ) (rs : List Registered) (generation : ℕ)
    → generation + length rs < 2 ^ 64
    → AllRenewed number generation rs (invalidate_all number rs generation).0
unfolding invalidate_all invalidate
invalidate_all_lem number [] generation fits = tt
invalidate_all_lem number (r ∷ rs) generation fits =
    elim (Bool-cases (r.interface_number == number)) [
      | inl mine ↦
          let next : add64 generation 1 ≡ generation + 1 = omega (arith, fits) in
          let below =
            invalidate_all_lem number rs (add64 generation 1) (omega (arith, fits, next)) in
          let same : r.interface_number ≡ number = (==_iff r.interface_number number).0 mine in
          rw (mine, invalidate_all)
            (
              (refl, (λ _. (omega (arith, next), refl, refl, refl)), λ ne. absurd (ne same)),
              AllRenewed-lower number generation (add64 generation 1) rs _ (omega (arith, next))
                  below,
            )
      | inr other ↦
          let below = invalidate_all_lem number rs generation (omega (arith, fits)) in
          let ne : r.interface_number ≢ number = ground (arith, other) in
          rw (other, invalidate_all) ((refl, (λ mine. absurd (ne mine)), λ _. refl), below)
    ]
