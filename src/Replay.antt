-- ===== src/Replay.antt =====
-- upx_replay.h: the bounded memory of UPX1 sequence numbers, one entry for each peer, and
-- `sequence_newer` of mouse_protocol.h. The `std::list` is a list with the oldest entry first.
pub mod Laws
pub mod Order
mod Tests
use usb_proxy_udp.Base.{
  ℕ, ◌+◌, ◌-◌, ◌*◌, ◌%◌, ◌^◌, List, [], ◌∷◌, ◌++◌, Bool, true, false, not, ◌&&◌, ◌||◌, Option, none,
  some, length, ◌==◌, ltb, leb, if◌then◌else◌,
}

-- uint32_t d = a - b; return d && d < 0x80000000u;
unfoldable pub sequence_newer : ℕ → ℕ → Bool
sequence_newer a b = let d = (a + 2 ^ 32 - b) % 2 ^ 32 in not (d == 0) && ltb d 0x8000_0000

pub record Peer : Type 0 where
  pub address : ℕ
  pub port : ℕ

abbrev pub same_peer : Peer → Peer → Bool
same_peer a b = a.address == b.address && a.port == b.port

pub record Entry : Type 0 where
  pub peer : Peer
  pub sequence : ℕ
  pub stamp : ℕ

abbrev pub max_peers : ℕ
max_peers = 256

-- RETENTION_NS
abbrev pub retention_ns : ℕ
retention_ns = 10 * 60 * 1000 * 1000 * 1000

abbrev pub Tracker : Type 0
Tracker = List Entry

-- Neither `now < stamp` nor within the retention.
abbrev pub is_old : ℕ → Entry → Bool
is_old now e = not (ltb now e.stamp || leb (now - e.stamp) retention_ns)

-- The entry for the peer that stands last.
unfoldable pub find : Peer → Tracker → Option Entry
find p [] = none
find p (e ∷ es) = elim (find p es) [
  | some found ↦ some found
  | none ↦ if same_peer e.peer p then some e else none
]

unfoldable pub prune : ℕ → Tracker → Tracker
prune now [] = []
prune now (e ∷ es) = let rest = prune now es in if is_old now e then rest else e ∷ es

-- The list without the entry that `find` gives.
unfoldable pub without : Peer → Tracker → Tracker
without p [] = []
without p (e ∷ es) = elim (find p es) [
  | some found ↦ e ∷ without p es
  | none ↦ if same_peer e.peer p then es else e ∷ es
]

abbrev pub pop_front : Tracker → Tracker
pop_front [] = []
pop_front (e ∷ es) = es

unfoldable pub stale : Tracker → Peer → ℕ → ℕ → Tracker × Bool
stale t p sequence now =
    let entries = prune now t in
    (
      entries,
      elim (find p entries) [ none ↦ false | some e ↦ not (sequence_newer sequence e.sequence) ],
    )

-- What `accept` keeps before it appends: all but the peer's old entry, and all but the oldest where
-- the peer is new and the table is full.
unfoldable pub kept : Tracker → Peer → Tracker
kept entries p = elim (find p entries) [
  | some e ↦ without p entries
  | none ↦ if leb max_peers (length entries) then pop_front entries else entries
]

unfoldable pub accept : Tracker → Peer → ℕ → ℕ → Tracker
accept t p sequence now =
    kept (prune now t) p ++ record { peer = p; sequence = sequence; stamp = now } ∷ []
