-- ===== src/Move/Acks.antt =====
-- move_protocol.h: transaction acknowledgments survive `packet` and `parse_ack`.
use usb_proxy_udp.Base.Bits.{every, every_sound}
use usb_proxy_udp.Base.{ℕ, ◌<◌, ◌^◌, ◌≡◌, refl, some, arith, bit_and, true, ==_iff, ◌==◌}
use usb_proxy_udp.Base.Int.{ℤ, pos, negsuc, ◌≤ℤ◌}
use usb_proxy_udp.Wire.{put32, put64}
use usb_proxy_udp.Wire.Words.{word64_bytes}
use usb_proxy_udp.Move.{
  Status, Stage, Ack, parse_ack, ack_packet, ack_header_ok, ack_fields, stage_of, status_of,
  stage_code, status_code, accepted, idle,
}
use usb_proxy_udp.Move.Requests.{signed32_bytes}

abbrev pub IsI32 : ℤ → Type 0
IsI32 n = (negsuc 0x7fff_ffff ≤ℤ n) × (n ≤ℤ pos 0x7fff_ffff)

pub record IsValidAck (a : Ack) : Type 0 where
  pub flags_bits : a.flags < 8
  pub session_pos : 0 < a.session
  pub session_fits : a.session < 2 ^ 64
  pub command_pos : 0 < a.command
  pub command_fits : a.command < 2 ^ 64
  pub epoch_pos : 0 < a.epoch
  pub epoch_fits : a.epoch < 2 ^ 64
  pub generation_fits : a.generation < 2 ^ 64
  pub written_fits : a.written_ns < 2 ^ 64
  pub out_x_fits : IsI32 a.out_x
  pub out_y_fits : IsI32 a.out_y
  pub return_x_fits : IsI32 a.return_x
  pub return_y_fits : IsI32 a.return_y
  pub residual_x_fits : IsI32 a.residual_x
  pub residual_y_fits : IsI32 a.residual_y

status_of-code : (s : Status) → status_of (status_code s) ≡ s
status_of-code accepted = refl
status_of-code _ = refl

stage_of-code : (s : Stage) → stage_of (stage_code s) ≡ s
stage_of-code idle = refl
stage_of-code _ = refl

fields-packet : (a : Ack) → IsValidAck a → ack_fields (ack_packet a) ≡ a
unfolding ack_fields ack_packet put32 put64
fields-packet a v = λ i. record {
  status = status_of-code a.status i;
  stage = stage_of-code a.stage i;
  flags = a.flags;
  session = word64_bytes a.session v.session_fits i;
  command = word64_bytes a.command v.command_fits i;
  epoch = word64_bytes a.epoch v.epoch_fits i;
  generation = word64_bytes a.generation v.generation_fits i;
  written_ns = word64_bytes a.written_ns v.written_fits i;
  out_x = signed32_bytes a.out_x v.out_x_fits.0 v.out_x_fits.1 i;
  out_y = signed32_bytes a.out_y v.out_y_fits.0 v.out_y_fits.1 i;
  return_x = signed32_bytes a.return_x v.return_x_fits.0 v.return_x_fits.1 i;
  return_y = signed32_bytes a.return_y v.return_y_fits.0 v.return_y_fits.1 i;
  residual_x = signed32_bytes a.residual_x v.residual_x_fits.0 v.residual_x_fits.1 i;
  residual_y = signed32_bytes a.residual_y v.residual_y_fits.0 v.residual_y_fits.1 i;
}

flags_table : every (λ y. bit_and y 0xffff_fff8 == 0) 8 ≡ true
unfolding every
flags_table = refl

flags_mask : (x : ℕ) → x < 8 → bit_and x 0xffff_fff8 ≡ 0
flags_mask x h = (==_iff _ 0).0 (every_sound (λ y. bit_and y 0xffff_fff8 == 0) 8 x h flags_table)

header_ok-packet : (a : Ack) → IsValidAck a → ack_header_ok (ack_packet a) ≡ true
unfolding ack_header_ok ack_packet put32 put64
header_ok-packet a v = ground (arith, flags_mask a.flags v.flags_bits)

-- Every acknowledgment whose fields fit their C types, with its identifiers set, is read back.
parse_ack-ack_packet : (a : Ack) → IsValidAck a → parse_ack (ack_packet a) ≡ some a
unfolding parse_ack
parse_ack-ack_packet a v = rw (header_ok-packet a v) (rw (fields-packet a v) (ground arith))
