-- ===== src/Telemetry.antt =====
-- telemetry_protocol.h: the one subscription to the server's state, and the packets that it is sent.
pub mod Subscribe
pub mod Packets
mod Tests
use usb_proxy_udp.Base.{
  ℕ, ◌+◌, ◌-◌, ◌%◌, ◌^◌, List, [], ◌∷◌, Bool, true, false, not, ◌&&◌, ◌||◌, length, replicate, set,
  ◌==◌, leb, ltb, if◌then◌else◌,
}
use usb_proxy_udp.Base.Int.{ℤ, pos, negsuc, to_u32, to_u64}
use usb_proxy_udp.Wire.{byte_at, put16, put32, put64, get32, get64, has_magic, copy_into}

pub record Snapshot : Type 0 where
  pub ready : Bool
  pub physical : ℕ
  pub persistent : ℕ
  pub scheduled : ℕ
  pub xmin : ℤ
  pub xmax : ℤ
  pub ymin : ℤ
  pub ymax : ℤ
  pub physical_dx : ℤ
  pub physical_dy : ℤ
  pub accepted : ℕ
  pub completed : ℕ
  pub active : ℕ
  pub queued : ℕ
  pub generation : ℕ
  pub poll_us : ℕ
  pub physical_age_us : ℕ
  pub physical_received : ℕ
  pub physical_submitted : ℕ
  pub output_queue : ℕ
  pub synthetic_pending : ℕ
  pub superseded : ℕ
  pub writer_failures : ℕ
  pub snapshot_ns : ℕ
  pub cumulative_x : ℤ
  pub cumulative_y : ℤ

abbrev same_bit : Bool → Bool → Bool
same_bit true b = b
same_bit false b = not b

abbrev same_ℤ : ℤ → ℤ → Bool
same_ℤ (pos a) (pos b) = a == b
same_ℤ (negsuc a) (negsuc b) = a == b
same_ℤ _ _ = false

-- `operator==`, which leaves out what changes all the time: the age and the time of the snapshot.
unfoldable pub same_state : Snapshot → Snapshot → Bool
same_state a b =
    same_bit a.ready b.ready
    && a.physical == b.physical
    && a.persistent == b.persistent
    && a.scheduled == b.scheduled
    && same_ℤ a.xmin b.xmin
    && same_ℤ a.xmax b.xmax
    && same_ℤ a.ymin b.ymin
    && same_ℤ a.ymax b.ymax
    && same_ℤ a.physical_dx b.physical_dx
    && same_ℤ a.physical_dy b.physical_dy
    && a.accepted == b.accepted
    && a.completed == b.completed
    && a.active == b.active
    && a.queued == b.queued
    && a.generation == b.generation
    && a.poll_us == b.poll_us
    && a.physical_received == b.physical_received
    && a.physical_submitted == b.physical_submitted
    && a.output_queue == b.output_queue
    && a.synthetic_pending == b.synthetic_pending
    && a.superseded == b.superseded
    && a.writer_failures == b.writer_failures
    && same_ℤ a.cumulative_x b.cumulative_x
    && same_ℤ a.cumulative_y b.cumulative_y

pub record Subscription : Type 0 where
  pub client : ℕ
  pub token : ℕ
  pub last_ns : ℕ
  pub sequence : ℕ
  pub version : ℕ

abbrev pub ups : ℕ → List ℕ
ups digit = b'U' ∷ b'P' ∷ b'S' ∷ digit ∷ []

abbrev pub upt : ℕ → List ℕ
upt digit = b'U' ∷ b'P' ∷ b'T' ∷ digit ∷ []

-- uint64_t a - b
abbrev pub sub64 : ℕ → ℕ → ℕ
sub64 a b = (a + 2 ^ 64 - b) % 2 ^ 64

-- The first line of `accept`, and `!c || !t`.
unfoldable pub is_request : List ℕ → Bool
is_request p =
    length p == 24
    && (has_magic p (ups b'1') || has_magic p (ups b'2') || has_magic p (ups b'3'))
    && get32 p 4 == 0
    && not (get64 p 8 == 0)
    && not (get64 p 16 == 0)

-- The token is not above that of the same client's last request, less than 100 ms ago.
unfoldable pub is_repeat : Subscription → ℕ → ℕ → ℕ → Bool
is_repeat s client token now =
    client == s.client && leb (sub64 now s.last_ns) 100_000_000 && leb token s.token

unfoldable pub accept : Subscription → List ℕ → ℕ → Subscription × Bool
accept s p now =
    let client = get64 p 8 in
    let token = get64 p 16 in
    if not (is_request p) || is_repeat s client token now then (s, false) else (
      record {
        client = client;
        token = token;
        last_ns = now;
        sequence = if client == s.client then s.sequence else 0;
        version = byte_at p 3 - b'0';
      },
      true,
    )

unfoldable pub alive : Subscription → ℕ → Bool
alive s now = not (s.client == 0) && leb s.last_ns now && leb (now - s.last_ns) 100_000_000

-- sequence++
abbrev pub sent : Subscription → Subscription
sent s = record s { sequence = (s.sequence + 1) % 2 ^ 32 }

abbrev bit_of : Bool → ℕ
bit_of b = if b then 1 else 0

-- The fields that all versions start with: 52 bytes of a packet of `size` bytes.
abbrev heading : ℕ → ℕ → Subscription → ℕ → Snapshot → List ℕ
heading size digit s server t =
    let p0 = copy_into (replicate size 0) (upt digit) in
    let p1 = set (set p0 4 (bit_of t.ready)) 5 t.physical in
    let p2 = put64 (put64 (put64 p1 8 s.client) 16 server) 24 s.token in
    let p3 = put32 p2 32 s.sequence in
    put32 (put32 (put32 (put32 p3 36 (to_u32 t.xmin)) 40 (to_u32 t.xmax)) 44 (to_u32 t.ymin)) 48
      (to_u32 t.ymax)

unfoldable pub packet1 : Subscription → ℕ → Snapshot → List ℕ × Subscription
packet1 s server t = (heading 56 b'1' s server t, sent s)

unfoldable pub packet2 : Subscription → ℕ → Snapshot → List ℕ × Subscription
packet2 s server t =
    let p0 = put64 (put64 (heading 80 b'2' s server t) 56 t.generation) 64 t.snapshot_ns in
    let p1 =
      put16 (put16 p0 72 (to_u32 t.physical_dx % 2 ^ 16)) 74 (to_u32 t.physical_dy % 2 ^ 16) in
    (put32 p1 76 t.physical_age_us, sent s)

unfoldable pub packet3 : Subscription → ℕ → Snapshot → List ℕ × Subscription
packet3 s server t =
    let p0 = set (set (heading 128 b'3' s server t) 6 t.persistent) 7 t.scheduled in
    let p1 = put64 (put64 (put32 p0 52 t.poll_us) 56 t.generation) 64 t.snapshot_ns in
    let p2 = put64 (put64 p1 72 (to_u64 t.cumulative_x)) 80 (to_u64 t.cumulative_y) in
    let p3 = put32 (put32 (put32 p2 88 t.physical_age_us) 92 t.accepted) 96 t.completed in
    let p4 = put16 (put16 p3 100 t.active) 102 t.queued in
    let p5 = put32 (put32 p4 104 t.physical_received) 108 t.physical_submitted in
    let p6 = put16 (put16 p5 112 t.output_queue) 114 t.synthetic_pending in
    (put32 (put32 p6 116 t.superseded) 120 t.writer_failures, sent s)
