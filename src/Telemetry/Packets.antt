-- ===== src/Telemetry/Packets.antt =====
-- telemetry_protocol.h: what stands in the packets.
use usb_proxy_udp.Base.{ℕ, ◌+◌, ◌%◌, ◌<◌, ◌^◌, ◌≡◌, refl, List, length}
use usb_proxy_udp.Wire.{get32, get64, put16, put32, put64}
use usb_proxy_udp.Wire.Words.{word64_bytes, word32_digits}
use usb_proxy_udp.Telemetry.{Snapshot, Subscription, packet1, packet2, packet3}

-- The identifiers fit their C types.
pub record IsValid (s : Subscription) : Type 0 where
  pub client_fits : s.client < 2 ^ 64
  pub token_fits : s.token < 2 ^ 64
  pub sequence_fits : s.sequence < 2 ^ 32

-- A packet names the subscription, the server and the number of the packet.
abbrev pub Names : Subscription → ℕ → List ℕ → Type 0
Names s server p =
    (get64 p 8 ≡ s.client)
    × (get64 p 16 ≡ server)
    × (get64 p 24 ≡ s.token)
    × (get32 p 32 ≡ s.sequence)

module _ (s : Subscription) (server : ℕ) (t : Snapshot) (v : IsValid s)
    (server_fits : server < 2 ^ 64) where
  names1 : Names s server (packet1 s server t).0
  unfolding packet1 put32 put64
  names1 = (
    word64_bytes s.client v.client_fits,
    word64_bytes server server_fits,
    word64_bytes s.token v.token_fits,
    word32_digits s.sequence v.sequence_fits,
  )

  names2 : Names s server (packet2 s server t).0
  unfolding packet2 put16 put32 put64
  names2 = (
    word64_bytes s.client v.client_fits,
    word64_bytes server server_fits,
    word64_bytes s.token v.token_fits,
    word32_digits s.sequence v.sequence_fits,
  )

  names3 : Names s server (packet3 s server t).0
  unfolding packet3 put16 put32 put64
  names3 = (
    word64_bytes s.client v.client_fits,
    word64_bytes server server_fits,
    word64_bytes s.token v.token_fits,
    word32_digits s.sequence v.sequence_fits,
  )

-- Packets of all three versions carry the client, the server, the token and the packet's number where a
-- client looks for them, and are 56, 80 and 128 bytes long; each counts the number on.
pub packets_name :
    (s : Subscription) (server : ℕ) (t : Snapshot)
    → IsValid s
    → server < 2 ^ 64
    → let (p1, s1) = packet1 s server t in
      let (p2, s2) = packet2 s server t in
      let (p3, s3) = packet3 s server t in
      (Names s server p1 × Names s server p2 × Names s server p3)
      × ((length p1 ≡ 56) × (length p2 ≡ 80) × (length p3 ≡ 128))
      × ((s1.sequence ≡ (s.sequence + 1) % 2 ^ 32) × (s2 ≡ s1) × (s3 ≡ s1))
unfolding packet1 packet2 packet3 put16 put32 put64
packets_name s server t v fits = (
  (names1 s server t v fits, names2 s server t v fits, names3 s server t v fits),
  (refl, refl, refl),
  (refl, refl, refl),
)
