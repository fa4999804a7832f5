-- ===== src/Move.antt =====
-- move_protocol.h: the UPM1 transaction requests, the UPR1 acknowledgments, the UPQ1 capability
-- queries and the UPI1 capability packets.
pub mod Requests
pub mod Acks
pub mod Queries
mod Tests
use usb_proxy_udp.Base.{
  ℕ, List, [], ◌∷◌, Bool, true, false, ◌&&◌, ◌||◌, not, Option, none, some, length, replicate, ◌==◌,
  if◌then◌else◌, leb, set, bit_and,
}
use usb_proxy_udp.Base.Int.{ℤ, pos, negsuc, leb_ℤ, ltb_ℤ, to_u32}
use usb_proxy_udp.Wire.{
  byte_at, put32, put64, get32, get64, has_magic, copy_into, zero_bytes, signed32,
}

abbrev pub request_size : ℕ
request_size = 80

abbrev pub ack_size : ℕ
ack_size = 96

abbrev pub query_size : ℕ
query_size = 24

abbrev pub capability_size : ℕ
capability_size = 80

pub data Operation : Type 0 where
  execute continue cancel query : Operation

abbrev pub operation_code : Operation → ℕ
operation_code execute = 1
operation_code continue = 2
operation_code cancel = 3
operation_code query = 4

-- The cast back, for the codes 1 to 4 that `parse` lets through.
abbrev pub operation_of : ℕ → Operation
operation_of n =
    if n == 1 then execute else if n == 2 then continue else if n == 3 then cancel else query

pub data Status : Type 0 where
  accepted active completed busy queue_full invalid not_ready stale button_active : Status
  interrupted cancelled timeout writer_failed endpoint_changed range : Status

abbrev pub status_code : Status → ℕ
status_code accepted = 1
status_code active = 2
status_code completed = 3
status_code busy = 4
status_code queue_full = 5
status_code invalid = 6
status_code not_ready = 7
status_code stale = 8
status_code button_active = 9
status_code interrupted = 10
status_code cancelled = 11
status_code timeout = 12
status_code writer_failed = 13
status_code endpoint_changed = 14
status_code range = 15

abbrev pub status_of : ℕ → Status
status_of n =
    if n == 1
    then accepted
    else if n == 2
    then active
    else if n == 3
    then completed
    else if n == 4
    then busy
    else if n == 5
    then queue_full
    else if n == 6
    then invalid
    else if n == 7
    then not_ready
    else if n == 8
    then stale
    else if n == 9
    then button_active
    else if n == 10
    then interrupted
    else if n == 11
    then cancelled
    else if n == 12
    then timeout
    else if n == 13
    then writer_failed
    else if n == 14
    then endpoint_changed
    else range

pub data Stage : Type 0 where
  idle out settle waiting press hold release delay return done : Stage

abbrev pub stage_code : Stage → ℕ
stage_code idle = 0
stage_code out = 1
stage_code settle = 2
stage_code waiting = 3
stage_code press = 4
stage_code hold = 5
stage_code release = 6
stage_code delay = 7
stage_code return = 8
stage_code done = 9

abbrev pub stage_of : ℕ → Stage
stage_of n =
    if n == 0
    then idle
    else if n == 1
    then out
    else if n == 2
    then settle
    else if n == 3
    then waiting
    else if n == 4
    then press
    else if n == 5
    then hold
    else if n == 6
    then release
    else if n == 7
    then delay
    else if n == 8
    then return
    else done

unfoldable pub terminal : Status → Bool
terminal accepted = false
terminal active = false
terminal _ = true

pub record Request : Type 0 where
  pub operation : Operation
  pub flags : ℕ
  pub button : ℕ
  pub session : ℕ
  pub command : ℕ
  pub epoch : ℕ
  pub generation : ℕ
  pub dx : ℤ
  pub dy : ℤ
  pub settle_us : ℕ
  pub press_us : ℕ
  pub return_us : ℕ
  pub budget_us : ℕ
  pub wait_us : ℕ

abbrev pub upm1 : List ℕ
upm1 = b'U' ∷ b'P' ∷ b'M' ∷ b'1' ∷ []

abbrev pub upr1 : List ℕ
upr1 = b'U' ∷ b'P' ∷ b'R' ∷ b'1' ∷ []

abbrev pub upq1 : List ℕ
upq1 = b'U' ∷ b'P' ∷ b'Q' ∷ b'1' ∷ []

abbrev pub upi1 : List ℕ
upi1 = b'U' ∷ b'P' ∷ b'I' ∷ b'1' ∷ []

unfoldable pub request_packet : Request → List ℕ
request_packet r =
    let p0 = copy_into (replicate request_size 0) upm1 in
    let p1 = set (set (set (set p0 4 1) 5 (operation_code r.operation)) 6 r.flags) 7 r.button in
    let p2 = put64 (put64 (put64 (put64 p1 8 r.session) 16 r.command) 24 r.epoch) 32 r.generation in
    let p3 = put32 (put32 p2 40 (to_u32 r.dx)) 44 (to_u32 r.dy) in
    put32
      (put32 (put32 (put32 (put32 p3 48 r.settle_us) 52 r.press_us) 56 r.return_us) 60 r.budget_us)
      64 r.wait_us

unfoldable pub request_header_ok : List ℕ → Bool
request_header_ok p =
    length p == request_size
    && has_magic p upm1
    && byte_at p 4 == 1
    && leb 1 (byte_at p 5)
    && leb (byte_at p 5) 4
    && bit_and (byte_at p 6) 0xffff_fffe == 0
    && leb (byte_at p 7) 8
    && zero_bytes p 68 12

unfoldable pub request_fields : List ℕ → Request
request_fields p = record {
  operation = operation_of (byte_at p 5);
  flags = byte_at p 6;
  button = byte_at p 7;
  session = get64 p 8;
  command = get64 p 16;
  epoch = get64 p 24;
  generation = get64 p 32;
  dx = signed32 (get32 p 40);
  dy = signed32 (get32 p 44);
  settle_us = get32 p 48;
  press_us = get32 p 52;
  return_us = get32 p 56;
  budget_us = get32 p 60;
  wait_us = get32 p 64;
}

-- -32767 <= n && n <= 32767
abbrev in_reach : ℤ → Bool
in_reach n = leb_ℤ (negsuc 32766) n && leb_ℤ n (pos 32767)

unfoldable pub request_fields_ok : Request → Bool
request_fields_ok r =
    not (r.session == 0)
    && not (r.command == 0)
    && not (r.epoch == 0)
    && not (r.generation == 0)
    && in_reach r.dx
    && in_reach r.dy
    && leb r.settle_us 1_000_000
    && leb r.press_us 1_000_000
    && leb r.return_us 1_000_000
    && leb 1000 r.budget_us
    && leb r.budget_us 5_000_000
    && leb r.wait_us 2_000_000
    && (bit_and r.flags 1 == 0 || not (r.wait_us == 0))

-- As in click_protocol.h, `none` is the result `false`.
unfoldable pub parse : List ℕ → Option Request
parse p =
    if request_header_ok p
    then (if request_fields_ok (request_fields p) then some (request_fields p) else none)
    else none

-- Equality of two byte arrays.
abbrev pub bytes_eq : List ℕ → List ℕ → Bool
bytes_eq [] [] = true
bytes_eq [] (y ∷ ys) = false
bytes_eq (x ∷ xs) [] = false
bytes_eq (x ∷ xs) (y ∷ ys) = x == y && bytes_eq xs ys

unfoldable pub same : Request → Request → Bool
same a b =
    bytes_eq (request_packet (record a { operation = execute }))
      (request_packet (record b { operation = execute }))

pub record Ack : Type 0 where
  pub status : Status
  pub stage : Stage
  pub flags : ℕ
  pub session : ℕ
  pub command : ℕ
  pub epoch : ℕ
  pub generation : ℕ
  pub written_ns : ℕ
  pub out_x : ℤ
  pub out_y : ℤ
  pub return_x : ℤ
  pub return_y : ℤ
  pub residual_x : ℤ
  pub residual_y : ℤ

unfoldable pub ack_packet : Ack → List ℕ
ack_packet a =
    let p0 = copy_into (replicate ack_size 0) upr1 in
    let p1 =
      set (set (set (set p0 4 1) 5 (status_code a.status)) 6 (stage_code a.stage)) 7 a.flags in
    let p2 = put64 (put64 (put64 (put64 p1 8 a.session) 16 a.command) 24 a.epoch) 32 a.generation in
    let p3 = put32 (put32 p2 40 (to_u32 a.out_x)) 44 (to_u32 a.out_y) in
    let p4 = put32 (put32 p3 48 (to_u32 a.return_x)) 52 (to_u32 a.return_y) in
    let p5 = put32 (put32 p4 56 (to_u32 a.residual_x)) 60 (to_u32 a.residual_y) in
    put64 p5 64 a.written_ns

unfoldable pub ack_header_ok : List ℕ → Bool
ack_header_ok p =
    length p == ack_size
    && has_magic p upr1
    && byte_at p 4 == 1
    && leb 1 (byte_at p 5)
    && leb (byte_at p 5) 15
    && leb (byte_at p 6) 9
    && bit_and (byte_at p 7) 0xffff_fff8 == 0
    && zero_bytes p 72 24

unfoldable pub ack_fields : List ℕ → Ack
ack_fields p = record {
  status = status_of (byte_at p 5);
  stage = stage_of (byte_at p 6);
  flags = byte_at p 7;
  session = get64 p 8;
  command = get64 p 16;
  epoch = get64 p 24;
  generation = get64 p 32;
  written_ns = get64 p 64;
  out_x = signed32 (get32 p 40);
  out_y = signed32 (get32 p 44);
  return_x = signed32 (get32 p 48);
  return_y = signed32 (get32 p 52);
  residual_x = signed32 (get32 p 56);
  residual_y = signed32 (get32 p 60);
}

unfoldable pub parse_ack : List ℕ → Option Ack
parse_ack p =
    let a = ack_fields p in
    if ack_header_ok p && not (a.session == 0) && not (a.command == 0) && not (a.epoch == 0)
    then some a
    else none

unfoldable pub query_packet : ℕ → ℕ → List ℕ
query_packet session token =
    let p0 = set (copy_into (replicate query_size 0) upq1) 4 1 in
    put64 (put64 p0 8 session) 16 token

unfoldable pub parse_query : List ℕ → Option (ℕ × ℕ)
parse_query p =
    if length p == query_size
      && has_magic p upq1
      && byte_at p 4 == 1
      && zero_bytes p 5 3
      && not (get64 p 8 == 0)
      && not (get64 p 16 == 0)
    then some (get64 p 8, get64 p 16)
    else none

pub record Capabilities : Type 0 where
  pub ready : Bool
  pub buttons : ℕ
  pub session : ℕ
  pub token : ℕ
  pub epoch : ℕ
  pub generation : ℕ
  pub layout : ℕ
  pub poll_us : ℕ
  pub max_segments : ℕ
  pub xmin : ℤ
  pub xmax : ℤ
  pub ymin : ℤ
  pub ymax : ℤ

unfoldable pub capability_packet : Capabilities → List ℕ
capability_packet c =
    let p0 = copy_into (replicate capability_size 0) upi1 in
    let p1 = set (set (set p0 4 1) 5 (if c.ready then 1 else 0)) 6 c.buttons in
    let p2 = put64 (put64 (put64 (put64 p1 8 c.session) 16 c.token) 24 c.epoch) 32 c.generation in
    let p3 = put32 (put32 (put32 p2 40 c.poll_us) 44 (to_u32 c.xmin)) 48 (to_u32 c.xmax) in
    let p4 = put32 (put32 p3 52 (to_u32 c.ymin)) 56 (to_u32 c.ymax) in
    put32 (put64 p4 64 c.layout) 72 c.max_segments

unfoldable pub capability_header_ok : List ℕ → Bool
capability_header_ok p =
    length p == capability_size
    && has_magic p upi1
    && byte_at p 4 == 1
    && leb (byte_at p 5) 1
    && byte_at p 7 == 0
    && zero_bytes p 60 4
    && zero_bytes p 76 4

unfoldable pub capability_fields : List ℕ → Capabilities
capability_fields p = record {
  ready = not (byte_at p 5 == 0);
  buttons = byte_at p 6;
  session = get64 p 8;
  token = get64 p 16;
  epoch = get64 p 24;
  generation = get64 p 32;
  layout = get64 p 64;
  poll_us = get32 p 40;
  max_segments = get32 p 72;
  xmin = signed32 (get32 p 44);
  xmax = signed32 (get32 p 48);
  ymin = signed32 (get32 p 52);
  ymax = signed32 (get32 p 56);
}

-- minimum < 0 < maximum, both within an `int16_t`.
abbrev straddles : ℤ → ℤ → Bool
straddles minimum maximum =
    ltb_ℤ minimum (pos 0)
    && ltb_ℤ (pos 0) maximum
    && leb_ℤ (negsuc 32767) minimum
    && leb_ℤ maximum (pos 32767)

unfoldable pub capabilities_ok : Capabilities → Bool
capabilities_ok c =
    not (c.session == 0)
    && not (c.token == 0)
    && not (c.epoch == 0)
    && (not c.ready
        || (not (c.generation == 0)
            && not (c.layout == 0)
            && not (c.poll_us == 0)
            && straddles c.xmin c.xmax
            && straddles c.ymin c.ymax
            && c.max_segments == 32))

unfoldable pub parse_capabilities : List ℕ → Option Capabilities
parse_capabilities p =
    if capability_header_ok p && capabilities_ok (capability_fields p)
    then some (capability_fields p)
    else none
