-- ===== src/Sessions/Laws.antt =====
-- session_tracker.h: the well-formedness of the tracker, kept by every operation.
use usb_proxy_udp.Base.{
  ℕ, suc, ◌≤◌, ◌≡◌, refl, List, [], ◌∷◌, ◌++◌, none, some, length, arith, ◌==◌, if◌then◌else◌, ◌≢◌,
  Bool, false, inl, Option-cases, inr, ◌<◌, ◌⊎◌, Bool-cases, ◌∙◌, ap,
}
use usb_proxy_udp.Sessions.{
  Entry, Tracker, find, erase, prune, trim, max_active, max_retired, make_room, take_unprotected,
  evict, free,
}

-- No session has two entries.
abbrev pub IsDistinct : List Entry → Type 0
IsDistinct [] = Unit {0}
IsDistinct (e ∷ es) = (find es e.session ≡ none) × IsDistinct es

-- No session of the first list is in the second.
abbrev pub IsDisjoint : List Entry → List Entry → Type 0
IsDisjoint [] ys = Unit {0}
IsDisjoint (e ∷ es) ys = (find ys e.session ≡ none) × IsDisjoint es ys

pub record IsWellFormed (t : Tracker) : Type 0 where
  pub active_distinct : IsDistinct t.active
  pub retired_distinct : IsDistinct t.retired
  pub disjoint : (k : ℕ) → (find t.active k ≡ none) ⊎ (find t.retired k ≡ none)
  pub active_bounded : length t.active ≤ max_active
  pub retired_bounded : length t.retired ≤ max_retired

pub find-append :
    (es : List Entry) (e : Entry) (k : ℕ)
    → find (es ++ e ∷ []) k
      ≡ elim (find es k) [ some f ↦ some f | none ↦ if e.session == k then some e else none ]
unfolding find
find-append [] e k = refl
find-append (x ∷ es) e k = ground (arith, find-append es e k)

pub find_session : (es : List Entry) (k : ℕ) (e : Entry) → find es k ≡ some e → e.session ≡ k
unfolding find
find_session [] k e h = cc
find_session (x ∷ es) k e h = ground (arith, find_session es k e)

pub find-erase_ne : (es : List Entry) (j k : ℕ) → j ≢ k → find (erase es j) k ≡ find es k
unfolding find erase
find-erase_ne [] j k ne = refl
find-erase_ne (x ∷ es) j k ne = ground (arith, find-erase_ne es j k ne)

pub find-erase_self : (es : List Entry) (k : ℕ) → IsDistinct es → find (erase es k) k ≡ none
unfolding find erase
find-erase_self [] k d = refl
find-erase_self (x ∷ es) k d = ground (arith, find-erase_self es k d.1, d.0)

-- In `if` form.
pub find-erase :
    (es : List Entry) (j k : ℕ)
    → IsDistinct es
    → find (erase es j) k ≡ (if j == k then none else find es k)
find-erase es j k d = ground (arith, find-erase_ne es j k, find-erase_self es k d)

pub erase-IsDistinct : (es : List Entry) (k : ℕ) → IsDistinct es → IsDistinct (erase es k)
unfolding find erase
erase-IsDistinct [] k d = tt
erase-IsDistinct (x ∷ es) k d =
    ground (arith, erase-IsDistinct es k d.1, find-erase_ne es k x.session, d.0)

pub append-IsDistinct :
    (es : List Entry) (e : Entry)
    → IsDistinct es
    → find es e.session ≡ none
    → IsDistinct (es ++ e ∷ [])
unfolding find
append-IsDistinct [] e d h = (refl, tt)
append-IsDistinct (x ∷ es) e d h =
    ground (arith, append-IsDistinct es e d.1, find-append es e x.session, d.0)

pub length-erase :
    (es : List Entry) (k : ℕ) (e : Entry)
    → find es k ≡ some e
    → length es ≡ suc (length (erase es k))
unfolding find erase
length-erase [] k e h = cc
length-erase (x ∷ es) k e h = ground (arith, length-erase es k e)

pub length-erase-le : (es : List Entry) (k : ℕ) → length (erase es k) ≤ length es
unfolding erase
length-erase-le [] k = omega arith
length-erase-le (x ∷ es) k = ground (arith, length-erase-le es k)

pub find-prune-none :
    (now : ℕ) (es : List Entry) (k : ℕ) → find es k ≡ none → find (prune now es) k ≡ none
unfolding find prune
find-prune-none now [] k h = refl
find-prune-none now (x ∷ es) k h = ground (arith, find-prune-none now es k)

pub prune-IsDistinct : (now : ℕ) (es : List Entry) → IsDistinct es → IsDistinct (prune now es)
unfolding prune
prune-IsDistinct now [] d = tt
prune-IsDistinct now (x ∷ es) d =
    ground (arith, prune-IsDistinct now es d.1, find-prune-none now es x.session d.0)

pub length-prune : (now : ℕ) (es : List Entry) → length (prune now es) ≤ length es
unfolding prune
length-prune now [] = omega arith
length-prune now (x ∷ es) = ground (arith, length-prune now es)

pub trim-IsDistinct : (es : List Entry) → IsDistinct es → IsDistinct (trim es)
unfolding trim
trim-IsDistinct [] d = tt
trim-IsDistinct (x ∷ es) d = ground (arith, trim-IsDistinct es d.1)

pub length-trim : (es : List Entry) → length (trim es) ≤ max_retired
unfolding trim
length-trim [] = omega arith
length-trim (x ∷ es) = ground (arith, length-trim es)

pub find-trim-none : (es : List Entry) (k : ℕ) → find es k ≡ none → find (trim es) k ≡ none
unfolding find trim
find-trim-none [] k h = refl
find-trim-none (x ∷ es) k h = ground (arith, find-trim-none es k)

pub trim_short : (es : List Entry) → length es ≤ max_retired → trim es ≡ es
unfolding trim
trim_short [] h = refl
trim_short (x ∷ es) h = ground arith

-- Who is taken, and what is left: the victim is an entry of the list, and the rest is without it.
pub record Victim (es : List Entry) (e : Entry) (rest : List Entry) : Type 0 where
  pub present : find es e.session ≡ some e
  pub others : (k : ℕ) → find rest k ≡ (if e.session == k then none else find es k)
  pub rest_distinct : IsDistinct rest
  pub shorter : length es ≡ suc (length rest)

module _ (protected : ℕ → Bool) where
  taken :
      (x : Entry) (es : List Entry) (e : Entry) (rest : List Entry)
      → take_unprotected protected (x ∷ es) ≡ some (e, rest)
      → ((protected x.session ≡ false) × (e ≡ x) × (rest ≡ es))
        ⊎ ((r : List Entry) × (take_unprotected protected es ≡ some (e, r)) × (rest ≡ x ∷ r))
  unfolding take_unprotected
  taken x es e rest h = elim (Bool-cases (protected x.session)) [
    | inr bare ↦ inl (ground arith)
    | inl held ↦ elim (Option-cases (take_unprotected protected es)) [
      | inl absent ↦ absurd (ground arith)
      | inr (r, found) ↦ inr (r.1, ground arith, ground arith)
    ]
  ]

  take_unprotected-find :
      (es : List Entry) (e : Entry) (rest : List Entry) (k : ℕ)
      → IsDistinct es
      → take_unprotected protected es ≡ some (e, rest)
      → (find es e.session ≡ some e)
        × (find rest k ≡ (if e.session == k then none else find es k))
        × (length es ≡ suc (length rest))
        × (protected e.session ≡ false)
  unfolding find
  take_unprotected-find [] e rest k d h = absurd (unfold take_unprotected in cc)
  take_unprotected-find (x ∷ es) e rest k d h = elim (taken x es e rest h) [
    | inl (bare, same, left) ↦ ground (arith, d.0)
    | inr (r, found, left) ↦
        let ih = take_unprotected-find es e r k d.1 found in ground (arith, ih, d.0)
  ]

  take_unprotected-IsDistinct :
      (es : List Entry) (e : Entry) (rest : List Entry)
      → IsDistinct es
      → take_unprotected protected es ≡ some (e, rest)
      → IsDistinct rest
  take_unprotected-IsDistinct [] e rest d h = absurd (unfold take_unprotected in cc)
  take_unprotected-IsDistinct (x ∷ es) e rest d h = elim (taken x es e rest h) [
    | inl (bare, same, left) ↦ ground (arith, d.1)
    | inr (r, found, left) ↦
        let ih = take_unprotected-find es e r x.session d.1 found in
        let rec = take_unprotected-IsDistinct es e r d.1 found in
        rw left (ground (arith, ih, d.0), rec)
  ]

  take_unprotected-Victim :
      (es : List Entry) (e : Entry) (rest : List Entry)
      → IsDistinct es
      → take_unprotected protected es ≡ some (e, rest)
      → Victim es e rest
  take_unprotected-Victim es e rest d h = record {
    present = (take_unprotected-find es e rest 0 d h).0;
    others = λ k. (take_unprotected-find es e rest k d h).1;
    rest_distinct = take_unprotected-IsDistinct es e rest d h;
    shorter = (take_unprotected-find es e rest 0 d h).2;
  }

  pub make_room-Victim :
      (es : List Entry) (force : Bool) (e : Entry) (rest : List Entry)
      → IsDistinct es
      → make_room es force protected ≡ evict e rest
      → Victim es e rest
  unfolding make_room
  make_room-Victim [] force e rest d h = absurd (ground arith)
  make_room-Victim (x ∷ es) force e rest d h =
      elim (Option-cases (take_unprotected protected (x ∷ es))) [
        | inr (v, found) ↦
            let same : v ≡ (e, rest) = ground arith in
            take_unprotected-Victim (x ∷ es) e rest d (found ∙ ap some same)
        | inl none_open ↦
            let same : (e ≡ x) × (rest ≡ es) = ground arith in
            rw (same.0, same.1)
              (record {
                present = unfold find in ground arith;
                others = λ k. unfold find in ground (arith, d.0);
                rest_distinct = d.1;
                shorter = refl;
              })
      ]

  pub make_room_free :
      (es : List Entry) (force : Bool)
      → make_room es force protected ≡ free
      → length es < max_active
  unfolding make_room
  make_room_free [] force h = omega arith
  make_room_free (x ∷ es) force h = ground arith
