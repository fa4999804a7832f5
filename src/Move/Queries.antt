-- ===== src/Move/Queries.antt =====
-- move_protocol.h: capability queries and the capability packets survive the wire, and what a client
-- reads as ready has a usable movement range.
use usb_proxy_udp.Base.{
  ℕ, ◌<◌, ◌^◌, ◌≡◌, refl, some, arith, Bool, true, not, if◌then◌else◌, ◌==◌, false,
}
use usb_proxy_udp.Wire.{put32, put64}
use usb_proxy_udp.Wire.Words.{word64_bytes, word32_digits}
use usb_proxy_udp.Move.{
  Capabilities, query_packet, parse_query, parse_capabilities, capability_packet,
  capability_header_ok, capability_fields, capabilities_ok,
}
use usb_proxy_udp.Move.Requests.{signed32_bytes}
use usb_proxy_udp.Move.Acks.{IsI32}

-- A query with both identifiers set is read back.
parse_query-packet :
    (session token : ℕ)
    → 0 < session
    → session < 2 ^ 64
    → 0 < token
    → token < 2 ^ 64
    → parse_query (query_packet session token) ≡ some (session, token)
unfolding parse_query query_packet put32 put64
parse_query-packet session token ps fs pt ft =
    rw (word64_bytes session fs, word64_bytes token ft) (ground arith)

pub record IsValidCapabilities (c : Capabilities) : Type 0 where
  pub session_fits : c.session < 2 ^ 64
  pub token_fits : c.token < 2 ^ 64
  pub epoch_fits : c.epoch < 2 ^ 64
  pub generation_fits : c.generation < 2 ^ 64
  pub layout_fits : c.layout < 2 ^ 64
  pub poll_fits : c.poll_us < 2 ^ 32
  pub segments_fit : c.max_segments < 2 ^ 32
  pub xmin_fits : IsI32 c.xmin
  pub xmax_fits : IsI32 c.xmax
  pub ymin_fits : IsI32 c.ymin
  pub ymax_fits : IsI32 c.ymax
  pub usable : capabilities_ok c ≡ true

ready_flag : (b : Bool) → not ((if b then 1 else 0) == 0) ≡ b
ready_flag true = refl
ready_flag false = refl

fields-packet :
    (c : Capabilities) → IsValidCapabilities c → capability_fields (capability_packet c) ≡ c
unfolding capability_fields capability_packet put32 put64
fields-packet c v = λ i. record {
  ready = ready_flag c.ready i;
  buttons = c.buttons;
  session = word64_bytes c.session v.session_fits i;
  token = word64_bytes c.token v.token_fits i;
  epoch = word64_bytes c.epoch v.epoch_fits i;
  generation = word64_bytes c.generation v.generation_fits i;
  layout = word64_bytes c.layout v.layout_fits i;
  poll_us = word32_digits c.poll_us v.poll_fits i;
  max_segments = word32_digits c.max_segments v.segments_fit i;
  xmin = signed32_bytes c.xmin v.xmin_fits.0 v.xmin_fits.1 i;
  xmax = signed32_bytes c.xmax v.xmax_fits.0 v.xmax_fits.1 i;
  ymin = signed32_bytes c.ymin v.ymin_fits.0 v.ymin_fits.1 i;
  ymax = signed32_bytes c.ymax v.ymax_fits.0 v.ymax_fits.1 i;
}

header_ok-packet : (c : Capabilities) → capability_header_ok (capability_packet c) ≡ true
unfolding capability_header_ok capability_packet put32 put64
header_ok-packet c = ground arith

-- Capabilities that fit their C types and pass the client's checks are read back.
parse-capability_packet :
    (c : Capabilities) → IsValidCapabilities c → parse_capabilities (capability_packet c) ≡ some c
unfolding parse_capabilities
parse-capability_packet c v =
    rw (header_ok-packet c) (rw (fields-packet c v) (ground (arith, v.usable)))
