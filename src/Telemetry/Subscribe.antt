-- ===== src/Telemetry/Subscribe.antt =====
-- telemetry_protocol.h: which requests a subscription takes.
use usb_proxy_udp.Base.{ℕ, ◌+◌, ◌≤◌, ◌<◌, ◌^◌, ◌≡◌, List, true, false, arith, leb}
use usb_proxy_udp.Wire.{get64}
use usb_proxy_udp.Telemetry.{Subscription, accept, alive, is_request, is_repeat}

-- A request that was taken is refused when it comes again within 100 ms, and so is every other request
-- of the client with a token that is not higher; the subscription stays as it is.
accept_again :
    (s : Subscription) (p q : List ℕ) (now later : ℕ)
    → (accept s p now).1 ≡ true
    → now ≤ later
    → later ≤ now + 100_000_000
    → later < 2 ^ 64
    → get64 q 8 ≡ get64 p 8
    → get64 q 16 ≤ get64 p 16
    → accept (accept s p now).0 q later ≡ ((accept s p now).0, false)
unfolding accept is_repeat
accept_again s p q now later taken after soon fits same_client lower = ground arith

-- A subscription is alive for 100 ms from the request that it took last, and no longer.
alive-accept :
    (s : Subscription) (p : List ℕ) (now later : ℕ)
    → (accept s p now).1 ≡ true
    → now ≤ later
    → alive (accept s p now).0 later ≡ leb later (now + 100_000_000)
unfolding accept alive is_request
alive-accept s p now later taken after = ground arith
