-- ===== src/Sessions/Memory.antt =====
-- session_tracker.h: every operation keeps the tracker well formed, and what it remembers.
use usb_proxy_udp.Base.{
  ℕ, ◌<◌, ◌≡◌, refl, List, [], ◌∷◌, ◌++◌, Bool, true, false, Option, none, some, length,
  length-append, arith, ◌==◌, if◌then◌else◌, ◌≢◌, Option-cases, leb, inl, inr,
}
use usb_proxy_udp.Sessions.{
  Entry, Tracker, find, erase, retire, make_room, admit_new, admit, accept, stale, pruned,
  max_active, Room, refused, free, evict, highest_of, max_ℕ,
}
use usb_proxy_udp.Sessions.Laws.{
  IsDistinct, IsWellFormed, Victim, append-IsDistinct, prune-IsDistinct, erase-IsDistinct,
  find-append, find-prune-none, find-erase, find-erase_self, length-prune, length-erase,
  length-erase-le, length-trim, trim-IsDistinct, find-trim-none, make_room_free, make_room-Victim,
  find_session,
}

pub pruned-IsWellFormed : (t : Tracker) (now : ℕ) → IsWellFormed t → IsWellFormed (pruned t now)
pruned-IsWellFormed t now w = record {
  active_distinct = w.active_distinct;
  retired_distinct = prune-IsDistinct now t.retired w.retired_distinct;
  disjoint = λ k. ground (arith, w.disjoint k, find-prune-none now t.retired k);
  active_bounded = w.active_bounded;
  retired_bounded = omega (arith, length-prune now t.retired, w.retired_bounded);
}

-- Taking the entry of a session out of the active list and putting one for it at the end.
module _ (t : Tracker) (w : IsWellFormed t) (session : ℕ) (e : Entry)
    (known : find t.active session ≡ some e) (f : Entry) (same : f.session ≡ session) where
  pub find-refresh :
      (k : ℕ)
      → find (erase t.active session ++ f ∷ []) k
        ≡ (if session == k then some f else find t.active k)
  find-refresh k =
      rw (find-append (erase t.active session) f k)
        (rw (find-erase t.active session k w.active_distinct) (ground arith))

  pub refresh-IsWellFormed : IsWellFormed (record t { active = erase t.active session ++ f ∷ [] })
  refresh-IsWellFormed = record {
    active_distinct =
        append-IsDistinct (erase t.active session) f
          (erase-IsDistinct t.active session w.active_distinct)
          (rw same (find-erase_self t.active session w.active_distinct));
    retired_distinct = w.retired_distinct;
    disjoint = λ k. ground (arith, w.disjoint k, find-refresh k);
    active_bounded = omega (
      arith,
      length-append (erase t.active session) (f ∷ []),
      length-erase t.active session e known,
      w.active_bounded,
    );
    retired_bounded = w.retired_bounded;
  }

retire-IsDistinct :
    (es : List Entry) (v : Entry) (now : ℕ) → IsDistinct es → IsDistinct (retire es v now)
unfolding retire
retire-IsDistinct es v now d =
    trim-IsDistinct (erase es v.session ++ record v { stamp = now } ∷ []) (
      append-IsDistinct (erase es v.session) (record v { stamp = now })
        (erase-IsDistinct es v.session d) (find-erase_self es v.session d))

find-retire-none :
    (es : List Entry) (v : Entry) (now k : ℕ)
    → IsDistinct es
    → v.session ≢ k
    → find es k ≡ none
    → find (retire es v now) k ≡ none
unfolding retire
find-retire-none es v now k d ne h =
    find-trim-none (erase es v.session ++ record v { stamp = now } ∷ []) k (
      ground (
        arith,
        find-append (erase es v.session) (record v { stamp = now }) k,
        find-erase es v.session k d,
      ))

-- A session that is not active moves in from the retired list, or is new.
module _ (t : Tracker) (w : IsWellFormed t) (session now : ℕ)
    (new : find t.active session ≡ none) where
  admit_free-IsWellFormed :
      length t.active < max_active → IsWellFormed (admit_new t session now free).0
  unfolding admit_new
  admit_free-IsWellFormed room =
      let fresh : Entry = record {
        session = session;
        highest = highest_of (find t.retired session);
        stamp = now;
      } in
      record {
        active_distinct = append-IsDistinct t.active fresh w.active_distinct new;
        retired_distinct = erase-IsDistinct t.retired session w.retired_distinct;
        disjoint = λ k. ground (
          arith,
          w.disjoint k,
          find-append t.active fresh k,
          find-erase t.retired session k w.retired_distinct,
        );
        active_bounded = omega (arith, length-append t.active (fresh ∷ []));
        retired_bounded = omega (arith, length-erase-le t.retired session, w.retired_bounded);
      }

  admit_evict-IsWellFormed :
      (v : Entry) (rest : List Entry)
      → Victim t.active v rest
      → IsWellFormed (admit_new t session now (evict v rest)).0
  unfolding admit_new
  admit_evict-IsWellFormed v rest x =
      let fresh : Entry = record {
        session = session;
        highest = highest_of (find t.retired session);
        stamp = now;
      } in
      let d = erase-IsDistinct t.retired session w.retired_distinct in
      record {
        active_distinct =
            append-IsDistinct rest fresh x.rest_distinct (ground (arith, x.others session));
        retired_distinct = retire-IsDistinct (erase t.retired session) v now d;
        disjoint = λ k. ground (
          arith,
          w.disjoint k,
          x.others k,
          x.present,
          find-append rest fresh k,
          find-erase t.retired session k w.retired_distinct,
          find-retire-none (erase t.retired session) v now k d,
        );
        active_bounded =
            omega (arith, length-append rest (fresh ∷ []), x.shorter, w.active_bounded);
        retired_bounded =
            unfold retire in
            length-trim
              (erase (erase t.retired session) v.session ++ record v { stamp = now } ∷ []);
      }

-- Admitting a session, whether it succeeds or not, keeps every session in one entry, active or
-- retired, and both lists within their limits.
pub admit-IsWellFormed :
    (t : Tracker) (session now : ℕ) (force : Bool) (protected : ℕ → Bool)
    → IsWellFormed t
    → IsWellFormed (admit t session now force protected).0
unfolding admit
admit-IsWellFormed t session now force protected w0 =
    let w = pruned-IsWellFormed t now w0 in
    elim (Option-cases (find t.active session)) [
      | inr (e, known) ↦
          rw (known, admit)
            (refresh-IsWellFormed (pruned t now) w session e known (record e { stamp = now })
              (find_session t.active session e known))
      | inl new ↦ rw (new, admit) (by_room (make_room t.active force protected) refl w new)
    ]
  where
    by_room :
        (r : Room)
        → make_room t.active force protected ≡ r
        → IsWellFormed (pruned t now)
        → find t.active session ≡ none
        → IsWellFormed (admit_new (pruned t now) session now r).0
    by_room refused e w new = unfold admit_new in w
    by_room free e w new =
        admit_free-IsWellFormed (pruned t now) w session now new
          (make_room_free protected t.active force e)
    by_room (evict v rest) e w new =
        admit_evict-IsWellFormed (pruned t now) w session now new v rest
          (make_room-Victim protected t.active force v rest w.active_distinct e)

-- Accepting a command keeps every session in one entry and both lists within their limits.
pub accept-IsWellFormed :
    (t : Tracker) (session command now : ℕ)
    → IsWellFormed t
    → IsWellFormed (accept t session command now)
unfolding accept
accept-IsWellFormed t session command now w = elim (Option-cases (find t.active session)) [
  | inl absent ↦ rw (absent, accept) w
  | inr (e, known) ↦
      rw (known, accept)
        (refresh-IsWellFormed t w session e known
          (record e { highest = max_ℕ e.highest command; stamp = now })
          (find_session t.active session e known))
]

-- The highest command that the tracker remembers of a session.
abbrev pub remembered : Tracker → ℕ → Option ℕ
remembered t k = elim (find t.active k) [
  | some e ↦ some e.highest
  | none ↦ elim (find t.retired k) [ some e ↦ some e.highest | none ↦ none ]
]

abbrev pub or_zero : Option ℕ → ℕ
or_zero none = 0
or_zero (some n) = n

-- A command is stale exactly when something at least as high is remembered.
pub stale-remembered :
    (t : Tracker) (session command now : ℕ)
    → (stale t session command now).1
      ≡ elim (remembered (pruned t now) session) [ none ↦ false | some n ↦ leb command n ]
unfolding stale
stale-remembered t session command now = ground arith

admit_new-active :
    (t : Tracker) (w : IsWellFormed t) (session now : ℕ) (force : Bool) (protected : ℕ → Bool)
    (r : Room)
    → find t.active session ≡ none
    → make_room t.active force protected ≡ r
    → (admit_new t session now r).1 ≡ true
    → (e : Entry) × (find (admit_new t session now r).0.active session ≡ some e)
      × (e.highest ≡ or_zero (remembered t session))
unfolding admit_new
admit_new-active t w session now force protected refused new same ok = absurd (ground arith)
admit_new-active t w session now force protected free new same ok =
    let fresh : Entry = record {
      session = session;
      highest = highest_of (find t.retired session);
      stamp = now;
    } in
    (fresh, ground (arith, find-append t.active fresh session), ground arith)
admit_new-active t w session now force protected (evict v rest) new same ok =
    let fresh : Entry = record {
      session = session;
      highest = highest_of (find t.retired session);
      stamp = now;
    } in
    let x = make_room-Victim protected t.active force v rest w.active_distinct same in
    (fresh, ground (arith, find-append rest fresh session, x.others session), ground arith)

admit-active :
    (t : Tracker) (session now : ℕ) (force : Bool) (protected : ℕ → Bool)
    → IsWellFormed t
    → (admit t session now force protected).1 ≡ true
    → (e : Entry) × (find (admit t session now force protected).0.active session ≡ some e)
      × (e.highest ≡ or_zero (remembered (pruned t now) session))
unfolding admit
admit-active t session now force protected w0 = elim (Option-cases (find t.active session)) [
  | inr (e, known) ↦
      rw (known, admit)
        λ _. (
          record e { stamp = now },
          ground (
            arith,
            find-refresh (pruned t now) w session e known (record e { stamp = now })
                (find_session t.active session e known) session,
          ),
          ground arith,
        )
  | inl new ↦
      rw (new, admit)
        (admit_new-active (pruned t now) w session now force protected
          (make_room t.active force protected) new refl)
]
  where
    w : IsWellFormed (pruned t now)
    w = pruned-IsWellFormed t now w0

accept-active :
    (t : Tracker) (session command now : ℕ) (e : Entry)
    → IsWellFormed t
    → find t.active session ≡ some e
    → find (accept t session command now).active session
      ≡ some (record e { highest = max_ℕ e.highest command; stamp = now })
unfolding accept
accept-active t session command now e w known =
    rw (known, accept)
      (ground (
        arith,
        find-refresh t w session e known
            (record e { highest = max_ℕ e.highest command; stamp = now })
            (find_session t.active session e known) session,
      ))

-- In a well-formed tracker, once a command of an admitted session is accepted, a command of that
-- session is stale, at any other time, exactly when it is not above both the accepted one and what
-- was remembered before.
pub stale-accept-admit :
    (t : Tracker) (session command now later : ℕ) (force : Bool) (protected : ℕ → Bool) (c : ℕ)
    → IsWellFormed t
    → (admit t session now force protected).1 ≡ true
    → (stale (accept (admit t session now force protected).0 session command now) session c later).1
      ≡ leb c (max_ℕ (or_zero (remembered (pruned t now) session)) command)
unfolding stale
stale-accept-admit t session command now later force protected c w ok =
    let t' = (admit t session now force protected).0 in
    let (e, known, high) = admit-active t session now force protected w ok in
    let found =
      accept-active t' session command now e (admit-IsWellFormed t session now force protected w)
        known in
    rw (found, stale) (rw high refl)
