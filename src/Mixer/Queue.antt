-- ===== src/Mixer/Queue.antt =====
-- mouse_mixer.cpp: the queue of synthetic items stays bounded and in order, and an item that is in
-- flight stays at its front.
use usb_proxy_udp.Base.{
  ℕ, ◌≤◌, ◌≡◌, refl, List, [], ◌∷◌, ◌++◌, Bool, true, false, Option, none, some, length,
  length-append, arith, if◌then◌else◌, ap, Bool-cases, ◌⊎◌, ◌≢◌, inl, subst, sym, inr, append-nil,
  ◌==◌, if_cases,
}
use usb_proxy_udp.Mouse.{ReportRequest, ok, MouseCommand, movement}
use usb_proxy_udp.Mixer.State.{SyntheticItem, Transfer, Endpoint, max_synthetic_items}
use usb_proxy_udp.Mixer.Enqueue.{
  gives_way, drop_back, supersede, new_item, enqueue, clear_synthetic,
}
use usb_proxy_udp.Mixer.Take.{
  goes_alone, carried_by, expire_front, take_report, pick, choose, send_physical, send_standalone,
  ready_item,
}
use usb_proxy_udp.Mixer.Written.{
  remove_finished, settle_front, count_write, notify_written, physical_written, settle_item,
}

abbrev AllPass {ℓ} : {A : Type ℓ} → (A → Bool) → List A → Type 0
AllPass test [] = Unit {0}
AllPass test (x ∷ xs) = (test x ≡ true) × AllPass test xs

module _ {ℓ} {A : Type ℓ} (test : A → Bool) where
  -- What is dropped is a run of passing elements at the back.
  drop_back_lem :
      (xs : List A)
      → (dropped : List A) × (xs ≡ drop_back test xs ++ dropped) × AllPass test dropped
  unfolding drop_back
  drop_back_lem [] = ([], refl, tt)
  drop_back_lem (x ∷ xs) = joined x xs (drop_back test xs) (drop_back_lem xs)
    where
      joined :
          (y : A) (ys kept : List A)
          → (dropped : List A) × (ys ≡ kept ++ dropped) × AllPass test dropped
          → (dropped : List A) × (y ∷ ys
              ≡ (elim kept [ [] ↦ if test y then [] else y ∷ [] | z ∷ zs ↦ y ∷ z ∷ zs ]) ++ dropped)
            × AllPass test dropped
      joined y ys (z ∷ zs) (dropped, same, all) = (dropped, ap (◌∷◌ y) same, all)
      joined y ys [] (dropped, same, all) = elim (Bool-cases (test y)) [
        | inl pass ↦ (y ∷ ys, rw pass refl, (pass, subst (AllPass test) (sym same) all))
        | inr stop ↦ (ys, rw stop refl, subst (AllPass test) (sym same) all)
      ]

  length-drop_back : (xs : List A) → length (drop_back test xs) ≤ length xs
  unfolding drop_back
  length-drop_back [] = omega arith
  length-drop_back (x ∷ xs) = ground (arith, length-drop_back xs)

-- A movement that a newer one with the held buttons `persistent` may replace: it allows it, is not the
-- item in flight, has the same held buttons, and no physical report came since.
abbrev pub IsReplaceable : Endpoint → ℕ → SyntheticItem → Type 0
IsReplaceable e persistent item =
    (item.kind ≡ movement)
    × (item.latest ≡ true)
    × (item.persistent ≡ persistent)
    × (item.physical_barrier ≡ e.physical_barrier)
    × ((e.inflight ≡ false) ⊎ (item.id ≢ e.inflight_id))

abbrev pub AllReplaceable : Endpoint → ℕ → List SyntheticItem → Type 0
AllReplaceable e persistent [] = Unit {0}
AllReplaceable e persistent (item ∷ items) =
    IsReplaceable e persistent item × AllReplaceable e persistent items

-- The last item is not a replaceable one.
abbrev pub LastStays : Endpoint → ℕ → List SyntheticItem → Type 0
LastStays e persistent [] = Unit {0}
LastStays e persistent (item ∷ []) = ¬ IsReplaceable e persistent item
LastStays e persistent (item ∷ next ∷ items) = LastStays e persistent (next ∷ items)

module _ (e : Endpoint) (persistent : ℕ) where
  gives_way-IsReplaceable :
      (item : SyntheticItem) → gives_way e persistent item ≡ true → IsReplaceable e persistent item
  unfolding gives_way
  gives_way-IsReplaceable item h = ground (arith, h)

  IsReplaceable-gives_way :
      (item : SyntheticItem) → IsReplaceable e persistent item → gives_way e persistent item ≡ true
  unfolding gives_way
  IsReplaceable-gives_way item h = ground (arith, h)

  AllPass-AllReplaceable :
      (items : List SyntheticItem)
      → AllPass (gives_way e persistent) items
      → AllReplaceable e persistent items
  AllPass-AllReplaceable [] all = tt
  AllPass-AllReplaceable (item ∷ items) (first, all) =
      (gives_way-IsReplaceable item first, AllPass-AllReplaceable items all)

  drop_back-LastStays :
      (items : List SyntheticItem)
      → LastStays e persistent (drop_back (gives_way e persistent) items)
  unfolding drop_back
  drop_back-LastStays [] = tt
  drop_back-LastStays (item ∷ items) =
      joined (drop_back (gives_way e persistent) items) (drop_back-LastStays items)
    where
      joined :
          (kept : List SyntheticItem)
          → LastStays e persistent kept
          → LastStays e persistent (elim kept [
            | [] ↦ if gives_way e persistent item then [] else item ∷ []
            | z ∷ zs ↦ item ∷ z ∷ zs
          ])
      joined (z ∷ zs) last = last
      joined [] last = elim (Bool-cases (gives_way e persistent item)) [
        | inl pass ↦ rw pass tt
        | inr stop ↦ rw stop λ replaceable.
            let pass = IsReplaceable-gives_way item replaceable in
            absurd (ground (arith, stop, pass))
      ]

supersede_lem :
    (e : Endpoint) (r : ReportRequest)
    → (dropped : List SyntheticItem) × (e.synthetic ≡ supersede e r ++ dropped)
      × AllReplaceable e r.persistent dropped
      × (((r.latest ≡ false) × (dropped ≡ []))
          ⊎ ((r.latest ≡ true) × LastStays e r.persistent (supersede e r)))
unfolding supersede
supersede_lem e r = elim (Bool-cases r.latest) [
  | inl late ↦
      let (dropped, same, all) = drop_back_lem (gives_way e r.persistent) e.synthetic in
      (
        dropped,
        rw (late, supersede) same,
        AllPass-AllReplaceable e r.persistent dropped all,
        inr (late, rw (late, supersede) (drop_back-LastStays e r.persistent e.synthetic)),
      )
  | inr early ↦ ([], rw (early, supersede) (sym (append-nil e.synthetic)), tt, inl (early, refl))
]

enqueue-synthetic :
    (r : ReportRequest) (now : ℕ) (e : Endpoint)
    → (enqueue r now e).0 ≡ ok
    → (enqueue r now e).1.synthetic ≡ supersede e r ++ new_item e r now ∷ []
unfolding enqueue
enqueue-synthetic r now e h = ground arith

-- An enqueue that succeeds appends one item. What it removes is a run at the back of movements that
-- allow it, are not in flight, have the same held buttons and saw no physical report since; it removes
-- nothing if the new report may not replace others, and else all of that run: the last item that it
-- keeps is not such a movement.
pub enqueue_order :
    (r : ReportRequest) (now : ℕ) (e : Endpoint)
    → (enqueue r now e).0 ≡ ok
    → (kept dropped : List SyntheticItem) × (e.synthetic ≡ kept ++ dropped)
      × ((enqueue r now e).1.synthetic ≡ kept ++ new_item e r now ∷ [])
      × AllReplaceable e r.persistent dropped
      × (((r.latest ≡ false) × (dropped ≡ []))
          ⊎ ((r.latest ≡ true) × LastStays e r.persistent kept))
enqueue_order r now e h =
    let (dropped, same, all, rest) = supersede_lem e r in
    (supersede e r, dropped, same, enqueue-synthetic r now e h, all, rest)

-- The item in flight is the first one.
abbrev pub FrontIs : Bool → ℕ → List SyntheticItem → Type 0
FrontIs false id items = Unit {0}
FrontIs true id [] = ⊥
FrontIs true id (item ∷ items) = item.id ≡ id

pub record Inv (e : Endpoint) : Type 0 where
  pub bounded : length e.synthetic ≤ max_synthetic_items
  pub front : FrontIs e.inflight e.inflight_id e.synthetic

length-supersede : (e : Endpoint) (r : ReportRequest) → length (supersede e r) ≤ length e.synthetic
unfolding supersede
length-supersede e r = ground (arith, length-drop_back (gives_way e r.persistent) e.synthetic)

-- An item in flight does not give way, so it stays in front.
drop_back-FrontIs :
    (e : Endpoint) (persistent : ℕ) (items : List SyntheticItem)
    → FrontIs e.inflight e.inflight_id items
    → FrontIs e.inflight e.inflight_id (drop_back (gives_way e persistent) items)
unfolding drop_back gives_way
drop_back-FrontIs e persistent [] f = f
drop_back-FrontIs e persistent (item ∷ items) f = ground arith

supersede-FrontIs :
    (e : Endpoint) (r : ReportRequest)
    → FrontIs e.inflight e.inflight_id e.synthetic
    → FrontIs e.inflight e.inflight_id (supersede e r)
unfolding supersede
supersede-FrontIs e r f = elim (Bool-cases r.latest) [
  | inl late ↦ rw (late, supersede) (drop_back-FrontIs e r.persistent e.synthetic f)
  | inr early ↦ rw (early, supersede) f
]

append-FrontIs :
    (b : Bool) (id : ℕ) (items : List SyntheticItem) (item : SyntheticItem)
    → FrontIs b id items
    → FrontIs b id (items ++ item ∷ [])
append-FrontIs false id items item f = tt
append-FrontIs true id [] item f = absurd f
append-FrontIs true id (x ∷ items) item f = f

-- Enqueueing, whatever it answers, keeps at most 8 items, and an item in flight in front.
pub enqueue-Inv : (r : ReportRequest) (now : ℕ) (e : Endpoint) → Inv e → Inv (enqueue r now e).1
unfolding enqueue
enqueue-Inv r now e v =
    let front = supersede-FrontIs e r v.front in
    let appended =
      append-FrontIs e.inflight e.inflight_id (supersede e r) (new_item e r now) front in
    ground (
      arith,
      length-supersede e r,
      length-append (supersede e r) (new_item e r now ∷ []),
      front,
      appended,
    )

clear_synthetic-Inv : (e : Endpoint) → Inv (clear_synthetic e)
unfolding clear_synthetic
clear_synthetic-Inv e = ground arith

length-expire_front :
    (e : Endpoint) (now : ℕ) (items : List SyntheticItem)
    → length (expire_front e now items) ≤ length items
unfolding expire_front
length-expire_front e now [] = omega arith
length-expire_front e now (item ∷ items) = ground (arith, length-expire_front e now items)

carried_by-item :
    (e : Endpoint) (item : SyntheticItem) (candidate : Transfer) (i : SyntheticItem)
    (c : MouseCommand)
    → carried_by e item candidate ≡ some (i, c)
    → item ≡ i
unfolding carried_by
carried_by-item e item candidate i c h = ground arith

-- The endpoint after the writer was given a report of its first item, or of none.
module _ (e : Endpoint) (v : Inv e) where
  send_standalone-Inv :
      (item : SyntheticItem) (competing : Bool)
      → FrontIs true item.id e.synthetic
      → Inv (send_standalone e item competing).0
  unfolding send_standalone
  send_standalone-Inv item competing f = ground (arith, v.bounded, v.front)

  send_physical-Inv :
      (candidate : Transfer) (rest : List Transfer)
      (carried : Option (SyntheticItem × MouseCommand))
      → ((item : SyntheticItem) (c : MouseCommand)
          → carried ≡ some (item, c)
          → FrontIs true item.id e.synthetic)
      → Inv (send_physical e candidate rest carried).0
  unfolding send_physical
  send_physical-Inv candidate rest none f = record { bounded = v.bounded; front = v.front }
  send_physical-Inv candidate rest (some (item, c)) f = record {
    bounded = v.bounded;
    front = f item c refl;
  }

  choose-Inv :
      (item : SyntheticItem) (candidate : Transfer) (rest : List Transfer)
      → FrontIs true item.id e.synthetic
      → Inv (choose e item candidate rest).0
  unfolding choose
  choose-Inv item candidate rest f =
      if_cases (λ r. Inv r.0) (goes_alone e item candidate rest) (send_standalone e item true)
        (send_physical e candidate rest (carried_by e item candidate))
        (λ _. send_standalone-Inv item true f)
        (λ _. send_physical-Inv candidate rest (carried_by e item candidate) (λ i c h.
          subst (λ j. FrontIs true j.id e.synthetic) (carried_by-item e item candidate i c h) f))

  pick-Inv :
      (queue : List Transfer) (items : List SyntheticItem)
      → e.synthetic ≡ items
      → Inv (pick e queue (ready_item e items)).0
  unfolding pick ready_item
  pick-Inv [] [] same = v
  pick-Inv (candidate ∷ rest) [] same =
      send_physical-Inv candidate rest none (λ i c h. absurd (ground arith))
  pick-Inv [] (item ∷ items) same =
      ground (arith, v.bounded, v.front, send_standalone-Inv item false (rw same refl))
  pick-Inv (candidate ∷ rest) (item ∷ items) same = ground (
    arith,
    send_physical-Inv candidate rest none (λ i c h. absurd (ground arith)),
    choose-Inv item candidate rest (rw same refl),
  )

-- Handing a report to the writer keeps at most 8 items, and an item in flight in front.
pub take_report-Inv : (e : Endpoint) (now : ℕ) → Inv e → Inv (take_report e now).0
unfolding take_report
take_report-Inv e now v =
    let expired = record e { synthetic = expire_front e now e.synthetic } in
    if_cases (λ r. Inv r.0) e.inflight (e, none)
      (pick expired expired.queue (ready_item expired expired.synthetic)) (λ busy. v)
      λ free.
        pick-Inv expired
          (record {
            bounded = omega (arith, length-expire_front e now e.synthetic, v.bounded);
            front = ground (arith, free);
          })
          e.queue (expire_front e now e.synthetic) refl

length-remove_finished :
    (items : List SyntheticItem) → length (remove_finished items) ≤ length items
unfolding remove_finished
length-remove_finished [] = omega arith
length-remove_finished (item ∷ items) = ground (arith, length-remove_finished items)

settle_front-Inv :
    (e : Endpoint) (io : Transfer) (success current : Bool) (items : List SyntheticItem)
    → e.synthetic ≡ items
    → Inv e
    → Inv (settle_front e io success current items).0
unfolding settle_front
settle_front-Inv e io success current [] same v = v
settle_front-Inv e io success current (item ∷ items) same v =
    ground (arith, v.bounded, v.front, length-remove_finished (settle_item item io ∷ items))

count_write-Inv :
    (e : Endpoint) (io : Transfer) (success current : Bool) (written : ℕ)
    → Inv e
    → Inv (count_write e io success current written)
unfolding count_write physical_written
count_write-Inv e io success current written v = ground (arith, v.bounded, v.front)

-- The account of a finished report, written or failed, keeps at most 8 items, and an item in
-- flight in front.
pub notify_written-Inv :
    (e : Endpoint) (io : Transfer) (success : Bool) (written : ℕ)
    → Inv e
    → Inv (notify_written e io success written).0
unfolding notify_written
notify_written-Inv e io success written v =
    let counted = count_write e io success (io.generation == e.generation) written in
    ground (
      arith,
      v,
      settle_front-Inv counted io success (io.generation == e.generation) counted.synthetic refl
          (count_write-Inv e io success (io.generation == e.generation) written v),
    )
