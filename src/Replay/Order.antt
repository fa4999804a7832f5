-- ===== src/Replay/Order.antt =====
-- mouse_protocol.h: `sequence_newer` is the order of the nearest distance on 32-bit sequence numbers.
use usb_proxy_udp.Base.{ℕ, ◌+◌, ◌<◌, ◌%◌, ◌^◌, ◌≡◌, ◌↔◌, true, not, arith, ◌-◌, ◌≢◌}
use usb_proxy_udp.Replay.{sequence_newer}

-- A number that is k ahead, counted around, is newer exactly when k is not 0 and below half the range.
sequence_newer_ahead :
    (b k : ℕ)
    → b < 2 ^ 32
    → k < 2 ^ 32
    → (sequence_newer ((b + k) % 2 ^ 32) b ≡ true) ↔ ((0 < k) × (k < 2 ^ 31))
unfolding sequence_newer
sequence_newer_ahead b k hb hk =
    let e : ((b + k) % 2 ^ 32 + 2 ^ 32 - b) % 2 ^ 32 ≡ k = omega arith in rw e (ground arith)

-- Of two different numbers that are not half the range apart, exactly one is newer.
sequence_newer_total :
    (a b : ℕ)
    → a < 2 ^ 32
    → b < 2 ^ 32
    → a ≢ b
    → (a + 2 ^ 32 - b) % 2 ^ 32 ≢ 2 ^ 31
    → sequence_newer a b ≡ not (sequence_newer b a)
unfolding sequence_newer
sequence_newer_total a b ha hb ne far =
    let opposite : (b + 2 ^ 32 - a) % 2 ^ 32 + (a + 2 ^ 32 - b) % 2 ^ 32 ≡ 2 ^ 32 = omega arith in
    ground arith
