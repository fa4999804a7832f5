-- ===== src/Move/Requests.antt =====
-- move_protocol.h: transaction requests survive `packet` and `parse`, and `same` compares all of a
-- request but its operation.
use usb_proxy_udp.Base.Bits.{every, every_sound}
use Prim.Native.Nat.{zero}
use usb_proxy_udp.Wire.Cells.{AllBytes, byte_at-IsByte, get64-lt}
use usb_proxy_udp.Base.{
  ℕ, ◌<◌, ◌≤◌, ◌^◌, ◌≡◌, refl, some, arith, List, bit_and, true, ◌/◌, suc, ◌%◌, Bool-cases, ◌↔◌,
  inl, sym, ◌∷◌, subst, ◌∙◌, ap, inr, [], not, ◌==◌, ◌||◌, ltb,
}
use usb_proxy_udp.Base.Int.{ℤ, pos, negsuc, ◌≤ℤ◌, to_u32}
use usb_proxy_udp.Wire.{put32, put64, word32, signed32}
use usb_proxy_udp.Wire.Words.{word32_digits, word64_bytes, signed32-to_u32, to_u32-lt}
use usb_proxy_udp.Move.{
  Operation, Request, parse, request_packet, request_header_ok, request_fields, request_fields_ok,
  same, execute, operation_of, operation_code, byte_at, bytes_eq,
}

-- The fields fit their C types and lie in the ranges that `parse` accepts.
pub record IsValid (r : Request) : Type 0 where
  pub flags_bit : r.flags < 2
  pub button_range : r.button ≤ 8
  pub session_pos : 0 < r.session
  pub session_fits : r.session < 2 ^ 64
  pub command_pos : 0 < r.command
  pub command_fits : r.command < 2 ^ 64
  pub epoch_pos : 0 < r.epoch
  pub epoch_fits : r.epoch < 2 ^ 64
  pub generation_pos : 0 < r.generation
  pub generation_fits : r.generation < 2 ^ 64
  pub dx_lower : negsuc 32766 ≤ℤ r.dx
  pub dx_upper : r.dx ≤ℤ pos 32767
  pub dy_lower : negsuc 32766 ≤ℤ r.dy
  pub dy_upper : r.dy ≤ℤ pos 32767
  pub settle_range : r.settle_us ≤ 1_000_000
  pub press_range : r.press_us ≤ 1_000_000
  pub return_range : r.return_us ≤ 1_000_000
  pub budget_lower : 1000 ≤ r.budget_us
  pub budget_upper : r.budget_us ≤ 5_000_000
  pub wait_range : r.wait_us ≤ 2_000_000
  pub wait_asked : r.flags ≡ 1 → 0 < r.wait_us

operation_of-code : (o : Operation) → operation_of (operation_code o) ≡ o
operation_of-code execute = refl
operation_of-code _ = refl

-- A signed word through its four bytes.
pub signed32_bytes :
    (n : ℤ)
    → negsuc 0x7fff_ffff ≤ℤ n
    → n ≤ℤ pos 0x7fff_ffff
    → signed32 (
        word32
          (to_u32 n / 256 / 256 / 256 % 256)
          (to_u32 n / 256 / 256 % 256)
          (to_u32 n / 256 % 256)
          (to_u32 n % 256))
      ≡ n
signed32_bytes n lo hi = rw (word32_digits (to_u32 n) (to_u32-lt n)) (signed32-to_u32 n lo hi)

fields-packet : (r : Request) → IsValid r → request_fields (request_packet r) ≡ r
unfolding request_fields request_packet put32 put64
fields-packet r v = λ i. record {
  operation = operation_of-code r.operation i;
  flags = r.flags;
  button = r.button;
  session = word64_bytes r.session v.session_fits i;
  command = word64_bytes r.command v.command_fits i;
  epoch = word64_bytes r.epoch v.epoch_fits i;
  generation = word64_bytes r.generation v.generation_fits i;
  dx = signed32_bytes r.dx (omega arith) (omega arith) i;
  dy = signed32_bytes r.dy (omega arith) (omega arith) i;
  settle_us = word32_digits r.settle_us (omega arith) i;
  press_us = word32_digits r.press_us (omega arith) i;
  return_us = word32_digits r.return_us (omega arith) i;
  budget_us = word32_digits r.budget_us (omega arith) i;
  wait_us = word32_digits r.wait_us (omega arith) i;
}

flag_mask : (x : ℕ) → x < 2 → bit_and x 0xffff_fffe ≡ 0
flag_mask zero h = refl
flag_mask (suc zero) h = refl
flag_mask (suc (suc x)) h = absurd (omega arith)

flag_set : (x : ℕ) → x < 2 → bit_and x 1 ≡ x
flag_set zero h = refl
flag_set (suc zero) h = refl
flag_set (suc (suc x)) h = absurd (omega arith)

header_ok-packet : (r : Request) → IsValid r → request_header_ok (request_packet r) ≡ true
unfolding request_header_ok request_packet put32 put64
header_ok-packet r v = ground (arith, flag_mask r.flags v.flags_bit)

fields_ok_lem : (r : Request) → IsValid r → request_fields_ok r ≡ true
unfolding request_fields_ok
fields_ok_lem r v = ground (arith, flag_set r.flags v.flags_bit)

-- Every valid request is read back from its packet.
pub parse-request_packet : (r : Request) → IsValid r → parse (request_packet r) ≡ some r
unfolding parse
parse-request_packet r v =
    rw (header_ok-packet r v) (rw (fields-packet r v) (rw (fields_ok_lem r v) refl))

flag_table : every (λ x. not (bit_and x 0xffff_fffe == 0) || ltb x 2) 256 ≡ true
unfolding every
flag_table = refl

flag_mask-lt : (x : ℕ) → x < 256 → bit_and x 0xffff_fffe ≡ 0 → x < 2
flag_mask-lt x h e = ground (arith, every_sound _ 256 x h flag_table)

fields-IsValid :
    (p : List ℕ)
    → AllBytes p
    → request_header_ok p ≡ true
    → request_fields_ok (request_fields p) ≡ true
    → IsValid (request_fields p)
unfolding request_header_ok request_fields_ok request_fields
fields-IsValid p h head ok = record {
  flags_bit = flag_mask-lt (byte_at p 6) (byte_at-IsByte p h 6) (ground arith);
  button_range = ground arith;
  session_pos = ground arith;
  session_fits = get64-lt p 8 h;
  command_pos = ground arith;
  command_fits = get64-lt p 16 h;
  epoch_pos = ground arith;
  epoch_fits = get64-lt p 24 h;
  generation_pos = ground arith;
  generation_fits = get64-lt p 32 h;
  dx_lower = ground arith;
  dx_upper = ground arith;
  dy_lower = ground arith;
  dy_upper = ground arith;
  settle_range = ground arith;
  press_range = ground arith;
  return_range = ground arith;
  budget_lower = ground arith;
  budget_upper = ground arith;
  wait_range = ground arith;
  wait_asked = λ e. ground (arith, flag_set (byte_at p 6));
}

-- A request read from a packet of bytes lies in all the ranges that the executor relies on.
pub parse-IsValid : (p : List ℕ) {r : Request} → AllBytes p → parse p ≡ some r → IsValid r
unfolding parse
parse-IsValid p {r} h e = elim (Bool-cases (request_header_ok p)) [
  | inl head ↦ elim (Bool-cases (request_fields_ok (request_fields p))) [
    | inl ok ↦
        let same_request : request_fields p ≡ r = ground arith in
        subst IsValid same_request (fields-IsValid p h head ok)
    | inr bad ↦ ground arith
  ]
  | inr bad ↦ ground arith
]

bytes_eq→eq : (xs ys : List ℕ) → bytes_eq xs ys ≡ true → xs ≡ ys
bytes_eq→eq [] [] h = refl
bytes_eq→eq [] (y ∷ ys) h = cc
bytes_eq→eq (x ∷ xs) [] h = cc
bytes_eq→eq (x ∷ xs) (y ∷ ys) h = ground (arith, bytes_eq→eq xs ys)

bytes_eq_refl : (xs : List ℕ) → bytes_eq xs xs ≡ true
bytes_eq_refl [] = refl
bytes_eq_refl (x ∷ xs) = ground (arith, bytes_eq_refl xs)

abbrev pub as_execute : Request → Request
as_execute r = record r { operation = execute }

as_execute-IsValid : (r : Request) → IsValid r → IsValid (as_execute r)
as_execute-IsValid r v = ground arith

-- For valid requests `same` holds exactly when they agree in every field but the operation.
pub same_iff :
    (a b : Request) → IsValid a → IsValid b → (same a b ≡ true) ↔ (as_execute a ≡ as_execute b)
unfolding same
same_iff a b va vb = (forth, back)
  where
    forth : same a b ≡ true → as_execute a ≡ as_execute b
    forth h =
        sym (fields-packet (as_execute a) (as_execute-IsValid a va))
        ∙ ap request_fields (bytes_eq→eq _ _ h)
        ∙ fields-packet (as_execute b) (as_execute-IsValid b vb)

    back : as_execute a ≡ as_execute b → same a b ≡ true
    back e =
        subst (λ r. bytes_eq (request_packet (as_execute a)) (request_packet r) ≡ true) e
          (bytes_eq_refl (request_packet (as_execute a)))
