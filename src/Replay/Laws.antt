-- ===== src/Replay/Laws.antt =====
-- upx_replay.h: one entry for each peer, at most 256 of them, and what is remembered of a peer.
use usb_proxy_udp.Base.{
  ℕ, ◌+◌, ◌<◌, ◌≤◌, ◌≡◌, refl, [], ◌∷◌, ◌++◌, true, false, not, none, some, length, length-append,
  arith, leb, if◌then◌else◌, suc, Option-cases, inl, inr,
}
use usb_proxy_udp.Replay.{
  Peer, Entry, Tracker, same_peer, is_old, find, prune, without, stale, accept, max_peers,
  retention_ns, sequence_newer, kept, pop_front,
}

find-append :
    (p : Peer) (es : Tracker) (e : Entry)
    → find p (es ++ e ∷ []) ≡ (if same_peer e.peer p then some e else find p es)
unfolding find
find-append p [] e = ground arith
find-append p (x ∷ es) e = ground (arith, find-append p es e)

prune-append :
    (now : ℕ) (es : Tracker) (e : Entry)
    → is_old now e ≡ false
    → prune now (es ++ e ∷ []) ≡ prune now es ++ e ∷ []
unfolding prune
prune-append now [] e h = ground arith
prune-append now (x ∷ es) e h = ground (arith, prune-append now es e h)

same_peer_refl : (p : Peer) → same_peer p p ≡ true
same_peer_refl p = ground arith

-- After a packet of a peer is accepted, a packet of that peer, until the retention runs out, is
-- stale exactly when its number is not newer.
pub stale-accept :
    (t : Tracker) (p : Peer) (sequence now later : ℕ) (next : ℕ)
    → later ≤ now + retention_ns
    → (stale (accept t p sequence now) p next later).1 ≡ not (sequence_newer next sequence)
unfolding stale accept
stale-accept t p sequence now later next h =
    let fresh : Entry = record { peer = p; sequence = sequence; stamp = now } in
    rw (prune-append later (kept (prune now t) p) fresh (ground arith), stale)
      (rw (find-append p (prune later (kept (prune now t) p)) fresh, stale)
        (rw (same_peer_refl p, stale) refl))

-- No peer has two entries.
abbrev pub IsDistinct : Tracker → Type 0
IsDistinct [] = Unit {0}
IsDistinct (e ∷ es) = (find e.peer es ≡ none) × IsDistinct es

pub record IsPeerTable (t : Tracker) : Type 0 where
  pub distinct : IsDistinct t
  pub bounded : length t ≤ max_peers

length-without :
    (p : Peer) (es : Tracker) (e : Entry)
    → find p es ≡ some e
    → length es ≡ suc (length (without p es))
unfolding find without
length-without p [] e h = cc
length-without p (x ∷ es) e h = ground (arith, length-without p es e)

find-without_ne :
    (p q : Peer) (es : Tracker) → same_peer p q ≡ false → find q (without p es) ≡ find q es
unfolding find without
find-without_ne p q [] ne = refl
find-without_ne p q (x ∷ es) ne = ground (arith, find-without_ne p q es ne)

find-without-none : (p q : Peer) (es : Tracker) → find q es ≡ none → find q (without p es) ≡ none
unfolding find without
find-without-none p q [] h = refl
find-without-none p q (x ∷ es) h = ground (arith, find-without-none p q es)

without-IsDistinct : (p : Peer) (es : Tracker) → IsDistinct es → IsDistinct (without p es)
unfolding find without
without-IsDistinct p [] d = tt
without-IsDistinct p (x ∷ es) d =
    ground (arith, without-IsDistinct p es d.1, find-without-none p x.peer es d.0)

find_same : (p q : Peer) (es : Tracker) → same_peer q p ≡ true → find q es ≡ find p es
unfolding find
find_same p q [] h = refl
find_same p q (x ∷ es) h = ground (arith, find_same p q es h)

find-without_self : (p : Peer) (es : Tracker) → IsDistinct es → find p (without p es) ≡ none
unfolding find without
find-without_self p [] d = refl
find-without_self p (x ∷ es) d = elim (Option-cases (find p es)) [
  | inl gone ↦ ground arith
  | inr (e, found) ↦ ground (arith, find-without_self p es d.1, find_same p x.peer es)
]

prune-IsDistinct : (now : ℕ) (es : Tracker) → IsDistinct es → IsDistinct (prune now es)
unfolding prune
prune-IsDistinct now [] d = tt
prune-IsDistinct now (x ∷ es) d = ground (arith, prune-IsDistinct now es d.1)

length-prune : (now : ℕ) (es : Tracker) → length (prune now es) ≤ length es
unfolding prune
length-prune now [] = omega arith
length-prune now (x ∷ es) = ground (arith, length-prune now es)

find-prune-none :
    (now : ℕ) (p : Peer) (es : Tracker) → find p es ≡ none → find p (prune now es) ≡ none
unfolding find prune
find-prune-none now p [] h = refl
find-prune-none now p (x ∷ es) h = ground (arith, find-prune-none now p es)

append-IsDistinct :
    (es : Tracker) (e : Entry) → IsDistinct es → find e.peer es ≡ none → IsDistinct (es ++ e ∷ [])
unfolding find
append-IsDistinct [] e d h = (refl, tt)
append-IsDistinct (x ∷ es) e d h =
    ground (arith, append-IsDistinct es e d.1, find-append x.peer es e, d.0)

pop_front-none : (p : Peer) (es : Tracker) → find p es ≡ none → find p (pop_front es) ≡ none
unfolding find
pop_front-none p [] h = h
pop_front-none p (x ∷ es) h = ground arith

kept-IsDistinct :
    (p : Peer) (es : Tracker) → IsDistinct es → IsDistinct (kept es p) × (find p (kept es p) ≡ none)
unfolding kept
kept-IsDistinct p es d = elim (Option-cases (find p es)) [
  | inr (e, found) ↦ rw (found, kept) (without-IsDistinct p es d, find-without_self p es d)
  | inl new ↦ rw (new, kept) (room es d new)
]
  where
    popped : (xs : Tracker) → IsDistinct xs → IsDistinct (pop_front xs)
    popped [] h = tt
    popped (x ∷ xs) h = h.1

    room :
        (xs : Tracker)
        → IsDistinct xs
        → find p xs ≡ none
        → IsDistinct (if leb max_peers (length xs) then pop_front xs else xs)
          × (find p (if leb max_peers (length xs) then pop_front xs else xs) ≡ none)
    room xs h n = ground (arith, popped xs h, pop_front-none p xs n)

length-kept : (p : Peer) (es : Tracker) → length es ≤ max_peers → length (kept es p) + 1 ≤ max_peers
unfolding kept
length-kept p es h = elim (Option-cases (find p es)) [
  | inr (e, found) ↦ rw (found, kept) (omega (arith, length-without p es e found))
  | inl new ↦ rw (new, kept) (room es h)
]
  where
    room :
        (xs : Tracker)
        → length xs ≤ max_peers
        → length (if leb max_peers (length xs) then pop_front xs else xs) + 1 ≤ max_peers
    room [] b = omega arith
    room (x ∷ xs) b = ground arith

-- Accepting a packet keeps one entry for each peer and no more than 256 of them.
pub accept-IsPeerTable :
    (t : Tracker) (p : Peer) (sequence now : ℕ)
    → IsPeerTable t
    → IsPeerTable (accept t p sequence now)
unfolding accept
accept-IsPeerTable t p sequence now w =
    let fresh : Entry = record { peer = p; sequence = sequence; stamp = now } in
    let pruned = prune-IsDistinct now t w.distinct in
    let k = kept-IsDistinct p (prune now t) pruned in
    record {
      distinct = append-IsDistinct (kept (prune now t) p) fresh k.0 k.1;
      bounded = omega (
        arith,
        length-append (kept (prune now t) p) (fresh ∷ []),
        length-kept p (prune now t) (omega (arith, length-prune now t, w.bounded)),
      );
    }

-- While the table has room, or where the peer is known, accepting a packet of one peer leaves what
-- is remembered of every other peer.
find-accept_ne :
    (t : Tracker) (p q : Peer) (sequence now : ℕ)
    → same_peer p q ≡ false
    → length t < max_peers
    → find q (accept t p sequence now) ≡ find q (prune now t)
unfolding accept kept
find-accept_ne t p q sequence now ne room = ground (
  arith,
  find-append q (kept (prune now t) p) (record { peer = p; sequence = sequence; stamp = now }),
  find-without_ne p q (prune now t) ne,
  length-prune now t,
)
