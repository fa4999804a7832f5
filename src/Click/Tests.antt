-- ===== src/Click/Tests.antt =====
-- click_protocol.h: a request for a double click and its acknowledgment.
use usb_proxy_udp.Base.{◌≡◌, some, arith}
use usb_proxy_udp.Click.{Request, schedule, parse, request, Ack, completed, put32, put64}
use usb_proxy_udp.Click.RoundTrip.{IsValid, parse-request, parse-canonical}
use usb_proxy_udp.Click.Acks.{IsValidAck}
use usb_proxy_udp.Wire.{put32, put64}
use usb_proxy_udp.Wire.Cells.{AllBytes}

abbrev double_click : Request
double_click = record {
  operation = schedule;
  button = 1;
  session = 7;
  command = 300;
  count = 2;
  press_us = 20_000;
  interval_us = 70_000;
  version = 2;
}

double_click-IsValid : IsValid double_click
double_click-IsValid = ground arith

abbrev clicked : Ack
clicked = record {
  status = completed;
  button = 1;
  session = 7;
  command = 300;
  server_epoch = 12;
  accepted_count = 2;
  completed_count = 2;
  queue_depth = 0;
  version = 2;
}

clicked-IsValidAck : IsValidAck clicked
clicked-IsValidAck = ground arith

parse-request_example : parse (request double_click) ≡ some double_click
parse-request_example = parse-request double_click double_click-IsValid

request-AllBytes : AllBytes (request double_click)
unfolding request put32 put64
request-AllBytes = ground arith

parse-canonical_example : (request double_click ≡ request double_click) × IsValid double_click
parse-canonical_example =
    parse-canonical (request double_click) request-AllBytes
      (parse-request double_click double_click-IsValid)
