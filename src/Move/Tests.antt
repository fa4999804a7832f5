-- ===== src/Move/Tests.antt =====
-- move_protocol.h: a transaction to the left and up, its acknowledgment, and a capability exchange.
use usb_proxy_udp.Base.{◌≡◌, some, arith, true, ◌↔◌}
use usb_proxy_udp.Base.Int.{pos, negsuc}
use usb_proxy_udp.Move.{
  Request, execute, query, parse, request_packet, same, Ack, active, settle, Capabilities,
  capabilities_ok, put32, put64,
}
use usb_proxy_udp.Move.Requests.{IsValid, parse-request_packet, parse-IsValid, same_iff, as_execute}
use usb_proxy_udp.Move.Acks.{IsValidAck}
use usb_proxy_udp.Move.Queries.{IsValidCapabilities}
use usb_proxy_udp.Wire.{put32, put64}
use usb_proxy_udp.Wire.Cells.{AllBytes}

abbrev up_left : Request
up_left = record {
  operation = execute;
  flags = 1;
  button = 2;
  session = 7;
  command = 300;
  epoch = 11;
  generation = 2;
  dx = negsuc 4;
  dy = negsuc 300;
  settle_us = 10;
  press_us = 20;
  return_us = 30;
  budget_us = 100_000;
  wait_us = 5_000;
}

up_left-IsValid : IsValid up_left
up_left-IsValid = ground arith

-- The same transaction, asked about.
abbrev asked : Request
asked = record up_left { operation = query }

asked-IsValid : IsValid asked
asked-IsValid = ground arith

abbrev settled : Ack
settled = record {
  status = active;
  stage = settle;
  flags = 0;
  session = 7;
  command = 300;
  epoch = 11;
  generation = 2;
  written_ns = 900;
  out_x = negsuc 4;
  out_y = negsuc 300;
  return_x = pos 0;
  return_y = pos 0;
  residual_x = negsuc 4;
  residual_y = negsuc 300;
}

settled-IsValidAck : IsValidAck settled
settled-IsValidAck = ground arith

abbrev offered : Capabilities
offered = record {
  ready = true;
  buttons = 7;
  session = 7;
  token = 9;
  epoch = 11;
  generation = 2;
  layout = 1;
  poll_us = 1000;
  max_segments = 32;
  xmin = negsuc 126;
  xmax = pos 127;
  ymin = negsuc 126;
  ymax = pos 127;
}

offered-IsValidCapabilities : IsValidCapabilities offered
unfolding capabilities_ok
offered-IsValidCapabilities = ground arith

parse-request_packet_example : parse (request_packet up_left) ≡ some up_left
parse-request_packet_example = parse-request_packet up_left up_left-IsValid

packet-AllBytes : AllBytes (request_packet up_left)
unfolding request_packet put32 put64
packet-AllBytes = ground arith

parse-IsValid_example : IsValid up_left
parse-IsValid_example =
    parse-IsValid (request_packet up_left) packet-AllBytes
      (parse-request_packet up_left up_left-IsValid)

same_iff_example : (same up_left asked ≡ true) ↔ (as_execute up_left ≡ as_execute asked)
same_iff_example = same_iff up_left asked up_left-IsValid asked-IsValid
