-- ===== src/Sessions.antt =====
-- session_tracker.h: the highest accepted command of each controller session, for up to 32 active
-- sessions and 256 retired ones. The `std::list`s are lists, the front first.
pub mod Laws
pub mod Memory
mod Tests
use usb_proxy_udp.Base.{
  ℕ, suc, ◌-◌, ◌*◌, List, [], ◌∷◌, ◌++◌, Bool, true, false, not, ◌&&◌, Option, none, some, length,
  ◌==◌, ltb, leb, if◌then◌else◌,
}

pub record Entry : Type 0 where
  pub session : ℕ
  pub highest : ℕ
  pub stamp : ℕ

pub record Tracker : Type 0 where
  pub active : List Entry
  pub retired : List Entry

abbrev pub max_active : ℕ
max_active = 32

abbrev pub max_retired : ℕ
max_retired = 256

abbrev pub retention_ns : ℕ
retention_ns = 10 * 60 * 1000 * 1000 * 1000

-- The first entry of a session, and the list without it.
unfoldable pub find : List Entry → ℕ → Option Entry
find [] session = none
find (e ∷ es) session = if e.session == session then some e else find es session

unfoldable pub erase : List Entry → ℕ → List Entry
erase [] session = []
erase (e ∷ es) session = if e.session == session then es else e ∷ erase es session

abbrev pub is_old : ℕ → Entry → Bool
is_old now e = leb e.stamp now && ltb retention_ns (now - e.stamp)

-- remove_if over the retired entries
unfoldable pub prune : ℕ → List Entry → List Entry
prune now [] = []
prune now (e ∷ es) = if is_old now e then prune now es else e ∷ prune now es

abbrev pub pruned : Tracker → ℕ → Tracker
pruned t now = record t { retired = prune now t.retired }

unfoldable pub stale : Tracker → ℕ → ℕ → ℕ → Tracker × Bool
stale t session command now =
    let p = pruned t now in
    (
      p,
      elim (find p.active session) [
        | some e ↦ leb command e.highest
        | none ↦ elim (find p.retired session) [ some e ↦ leb command e.highest | none ↦ false ]
      ],
    )

-- while (retired_.size() > MAX_RETIRED) retired_.pop_front();
unfoldable pub trim : List Entry → List Entry
trim [] = []
trim (e ∷ es) = let rest = trim es in if ltb max_retired (suc (length es)) then rest else e ∷ es

-- `retire` for an entry that has been taken from the active list.
unfoldable pub retire : List Entry → Entry → ℕ → List Entry
retire retired victim now =
    trim (erase retired victim.session ++ record victim { stamp = now } ∷ [])

-- The first entry that is not protected, with the list without it.
unfoldable pub take_unprotected : (ℕ → Bool) → List Entry → Option (Entry × List Entry)
take_unprotected protected [] = none
take_unprotected protected (e ∷ es) =
    if protected e.session
    then elim (take_unprotected protected es) [
      | none ↦ none
      | some (victim, rest) ↦ some (victim, e ∷ rest)
    ]
    else some (e, es)

pub data Room : Type 0 where
  refused : Room
  free : Room
  evict : Entry → List Entry → Room

-- The victim among the active entries, as far as one is needed.
unfoldable pub make_room : List Entry → Bool → (ℕ → Bool) → Room
make_room [] force protected = free
make_room (e ∷ es) force protected =
    if leb max_active (suc (length es))
    then elim (take_unprotected protected (e ∷ es)) [
      | some (victim, rest) ↦ evict victim rest
      | none ↦ if force then evict e es else refused
    ]
    else free

abbrev pub highest_of : Option Entry → ℕ
highest_of none = 0
highest_of (some e) = e.highest

unfoldable pub admit_new : Tracker → ℕ → ℕ → Room → Tracker × Bool
admit_new p session now refused = (p, false)
admit_new p session now free =
    let fresh : Entry = record {
      session = session;
      highest = highest_of (find p.retired session);
      stamp = now;
    } in
    (record { active = p.active ++ fresh ∷ []; retired = erase p.retired session }, true)
admit_new p session now (evict victim rest) =
    let fresh : Entry = record {
      session = session;
      highest = highest_of (find p.retired session);
      stamp = now;
    } in
    (
      record { active = rest ++ fresh ∷ []; retired = retire (erase p.retired session) victim now },
      true,
    )

unfoldable pub admit : Tracker → ℕ → ℕ → Bool → (ℕ → Bool) → Tracker × Bool
admit t session now force protected =
    let p = pruned t now in
    elim (find p.active session) [
      | some e ↦
          (record p { active = erase p.active session ++ record e { stamp = now } ∷ [] }, true)
      | none ↦ admit_new p session now (make_room p.active force protected)
    ]

abbrev pub max_ℕ : ℕ → ℕ → ℕ
max_ℕ a b = if ltb a b then b else a

unfoldable pub accept : Tracker → ℕ → ℕ → ℕ → Tracker
accept t session command now = elim (find t.active session) [
  | none ↦ t
  | some e ↦ record t {
    active =
        erase t.active session ++ record e { highest = max_ℕ e.highest command; stamp = now } ∷ [];
  }
]
