-- ===== src/Click.antt =====
-- click_protocol.h: the UPC1 click requests and the UPA1 acknowledgments.
pub mod RoundTrip
pub mod Acks
mod Tests
use usb_proxy_udp.Base.{
  ℕ, ◌≡◌, List, [], ◌∷◌, Bool, true, false, ◌&&◌, ◌||◌, not, Option, none, some, length, replicate,
  ◌==◌, if◌then◌else◌, leb, set,
}
use usb_proxy_udp.Wire.{byte_at, put16, put32, put64, get16, get32, get64, has_magic, copy_into}

abbrev pub version1 : ℕ
version1 = 1

abbrev pub version2 : ℕ
version2 = 2

abbrev pub request_size : ℕ
request_size = 40

abbrev pub ack_size : ℕ
ack_size = 48

pub data Operation : Type 0 where
  schedule release_all : Operation

-- uint8_t(operation), and the cast back for the two codes that `parse` lets through.
abbrev pub operation_code : Operation → ℕ
operation_code schedule = 1
operation_code release_all = 2

abbrev pub operation_of : ℕ → Operation
operation_of n = if n == 1 then schedule else release_all

pub data Status : Type 0 where
  accepted duplicate completed busy queue_full unsupported_button invalid cancelled button_active :
      Status
  not_ready stale_command : Status

abbrev pub status_code : Status → ℕ
status_code accepted = 1
status_code duplicate = 2
status_code completed = 3
status_code busy = 4
status_code queue_full = 5
status_code unsupported_button = 6
status_code invalid = 7
status_code cancelled = 8
status_code button_active = 9
status_code not_ready = 10
status_code stale_command = 11

-- The cast back, for the codes 1 to 11 that `parse_ack` lets through.
abbrev pub status_of : ℕ → Status
status_of n =
    if n == 1
    then accepted
    else if n == 2
    then duplicate
    else if n == 3
    then completed
    else if n == 4
    then busy
    else if n == 5
    then queue_full
    else if n == 6
    then unsupported_button
    else if n == 7
    then invalid
    else if n == 8
    then cancelled
    else if n == 9
    then button_active
    else if n == 10
    then not_ready
    else stale_command

pub record Request : Type 0 where
  pub operation : Operation
  pub button : ℕ
  pub session : ℕ
  pub command : ℕ
  pub count : ℕ
  pub press_us : ℕ
  pub interval_us : ℕ
  pub version : ℕ

abbrev pub upc1 : List ℕ
upc1 = b'U' ∷ b'P' ∷ b'C' ∷ b'1' ∷ []

abbrev pub upa1 : List ℕ
upa1 = b'U' ∷ b'P' ∷ b'A' ∷ b'1' ∷ []

abbrev is_release_all : Operation → Bool
is_release_all schedule = false
is_release_all release_all = true

-- What `parse` reads from a packet whose header it has accepted.
unfoldable pub fields : List ℕ → Request
fields p = record {
  operation = operation_of (byte_at p 5);
  button = byte_at p 6;
  session = get64 p 8;
  command = get64 p 16;
  count = get32 p 24;
  press_us = get32 p 28;
  interval_us = get32 p 32;
  version = byte_at p 4;
}

-- The header conditions of `parse`, in its order.
unfoldable pub header_ok : List ℕ → Bool
header_ok p =
    length p == request_size
    && has_magic p upc1
    && (byte_at p 4 == version1 || byte_at p 4 == version2)
    && byte_at p 7 == 0
    && get32 p 36 == 0
    && (byte_at p 5 == 1 || byte_at p 5 == 2)

-- The conditions on the fields.
unfoldable pub fields_ok : Request → Bool
fields_ok r =
    not (r.session == 0)
    && not (r.command == 0)
    && not (
        is_release_all r.operation
        && not (r.button == 0 && r.count == 0 && r.press_us == 0 && r.interval_us == 0))

-- The length `n` of the source is the length of the list. `none` is the result `false`, after which
-- no caller reads the request.
unfoldable pub parse : List ℕ → Option Request
parse p = if header_ok p then (if fields_ok (fields p) then some (fields p) else none) else none

unfoldable pub request : Request → List ℕ
request r =
    let p0 = copy_into (replicate request_size 0) upc1 in
    let p1 = set (set (set p0 4 r.version) 5 (operation_code r.operation)) 6 r.button in
    let p2 = put64 (put64 p1 8 r.session) 16 r.command in
    put32 (put32 (put32 p2 24 r.count) 28 r.press_us) 32 r.interval_us

pub record Ack : Type 0 where
  pub status : Status
  pub button : ℕ
  pub session : ℕ
  pub command : ℕ
  pub server_epoch : ℕ
  pub accepted_count : ℕ
  pub completed_count : ℕ
  pub queue_depth : ℕ
  pub version : ℕ

unfoldable pub packet : Ack → List ℕ
packet a =
    let p0 = copy_into (replicate ack_size 0) upa1 in
    let p1 = set (set (set p0 4 a.version) 5 (status_code a.status)) 6 a.button in
    let p2 = put64 (put64 p1 8 a.session) 16 a.command in
    let p3 = put32 (put32 p2 24 a.accepted_count) 28 a.completed_count in
    put16 (put64 p3 32 a.server_epoch) 40 a.queue_depth

unfoldable pub ack_fields : List ℕ → Ack
ack_fields p = record {
  status = status_of (byte_at p 5);
  button = byte_at p 6;
  session = get64 p 8;
  command = get64 p 16;
  server_epoch = get64 p 32;
  accepted_count = get32 p 24;
  completed_count = get32 p 28;
  queue_depth = get16 p 40;
  version = byte_at p 4;
}

unfoldable pub ack_header_ok : List ℕ → Bool
ack_header_ok p =
    length p == ack_size
    && has_magic p upa1
    && (byte_at p 4 == version1 || byte_at p 4 == version2)
    && byte_at p 7 == 0
    && get16 p 42 == 0
    && get32 p 44 == 0
    && leb 1 (byte_at p 5)
    && leb (byte_at p 5) 11

unfoldable pub parse_ack : List ℕ → Option Ack
parse_ack p = if ack_header_ok p then some (ack_fields p) else none
