-- ===== src/Click/Acks.antt =====
-- click_protocol.h: acknowledgments survive `packet` and `parse_ack`.
use usb_proxy_udp.Base.{◌<◌, ◌^◌, ◌≡◌, ◌⊎◌, refl, some, arith, ap, true}
use usb_proxy_udp.Wire.{put16, put32, put64, word16, word32}
use usb_proxy_udp.Wire.Words.{IsByte, word16_digits, word32_digits, word64_bytes}
use usb_proxy_udp.Click.{
  Status, Ack, version1, version2, packet, parse_ack, ack_fields, ack_header_ok, status_of,
  status_code, accepted,
}

pub record IsValidAck (a : Ack) : Type 0 where
  pub versioned : (a.version ≡ version1) ⊎ (a.version ≡ version2)
  pub button_byte : IsByte a.button
  pub session_fits : a.session < 2 ^ 64
  pub command_fits : a.command < 2 ^ 64
  pub epoch_fits : a.server_epoch < 2 ^ 64
  pub accepted_fits : a.accepted_count < 2 ^ 32
  pub completed_fits : a.completed_count < 2 ^ 32
  pub depth_fits : a.queue_depth < 2 ^ 16

status_of-code : (s : Status) → status_of (status_code s) ≡ s
status_of-code accepted = refl
status_of-code _ = refl

ack_fields-packet : (a : Ack) → IsValidAck a → ack_fields (packet a) ≡ a
unfolding ack_fields packet put16 put32 put64
ack_fields-packet a v = λ i. record {
  status = status_of-code a.status i;
  button = a.button;
  session = word64_bytes a.session v.session_fits i;
  command = word64_bytes a.command v.command_fits i;
  server_epoch = word64_bytes a.server_epoch v.epoch_fits i;
  accepted_count = word32_digits a.accepted_count v.accepted_fits i;
  completed_count = word32_digits a.completed_count v.completed_fits i;
  queue_depth = word16_digits a.queue_depth v.depth_fits i;
  version = a.version;
}

ack_header_ok-packet : (a : Ack) → IsValidAck a → ack_header_ok (packet a) ≡ true
unfolding ack_header_ok packet put16 put32 put64 word16 word32
ack_header_ok-packet a v = ground arith

-- Every acknowledgment whose fields fit their C types is read back from its packet.
parse_ack-packet : (a : Ack) → IsValidAck a → parse_ack (packet a) ≡ some a
unfolding parse_ack
parse_ack-packet a v = rw (ack_header_ok-packet a v) (ap some (ack_fields-packet a v))
