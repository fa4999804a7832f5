-- ===== src/Click/RoundTrip.antt =====
-- click_protocol.h: what the writers of requests and acknowledgments send, the parsers read back.
use usb_proxy_udp.Base.{
  ℕ, ◌<◌, ◌^◌, ◌≡◌, ◌⊎◌, refl, some, arith, true, ◌∷◌, [], List, length, Bool-cases, subst, inl,
  inr, sym,
}
use usb_proxy_udp.Wire.{put32, put64, word32}
use usb_proxy_udp.Wire.Words.{IsByte, word32_digits, word64_bytes}
use usb_proxy_udp.Wire.Cells.{
  cells_from, rewrite64, rewrite32, word32-zero, AllBytes, byte_at-IsByte, get64-lt, eq-cells,
  get32-lt,
}
use usb_proxy_udp.Click.{
  schedule, Operation, Request, release_all, version1, version2, parse, request, fields, header_ok,
  fields_ok, operation_of, operation_code, byte_at,
}

-- The fields fit their C types, and the request is one that `parse` lets through.
pub record IsValid (r : Request) : Type 0 where
  pub versioned : (r.version ≡ version1) ⊎ (r.version ≡ version2)
  pub button_byte : IsByte r.button
  pub session_pos : 0 < r.session
  pub session_fits : r.session < 2 ^ 64
  pub command_pos : 0 < r.command
  pub command_fits : r.command < 2 ^ 64
  pub count_fits : r.count < 2 ^ 32
  pub press_fits : r.press_us < 2 ^ 32
  pub interval_fits : r.interval_us < 2 ^ 32
  pub release_plain :
      r.operation ≡ release_all
      → (r.button ≡ 0) × (r.count ≡ 0) × (r.press_us ≡ 0) × (r.interval_us ≡ 0)

operation_of-code : (o : Operation) → operation_of (operation_code o) ≡ o
operation_of-code schedule = refl
operation_of-code release_all = refl

fields-request : (r : Request) → IsValid r → fields (request r) ≡ r
unfolding fields request put32 put64
fields-request r v = λ i. record {
  operation = operation_of-code r.operation i;
  button = r.button;
  session = word64_bytes r.session v.session_fits i;
  command = word64_bytes r.command v.command_fits i;
  count = word32_digits r.count v.count_fits i;
  press_us = word32_digits r.press_us v.press_fits i;
  interval_us = word32_digits r.interval_us v.interval_fits i;
  version = r.version;
}

header_ok-request : (r : Request) → IsValid r → header_ok (request r) ≡ true
unfolding header_ok request put32 put64 word32
header_ok-request r v = ground arith

fields_ok_lem : (r : Request) → IsValid r → fields_ok r ≡ true
unfolding fields_ok
fields_ok_lem r v = ground arith

-- Every valid request is read back from its packet.
pub parse-request : (r : Request) → IsValid r → parse (request r) ≡ some r
unfolding parse
parse-request r v =
    rw (header_ok-request r v) (rw (fields-request r v) (rw (fields_ok_lem r v) refl))

-- The bytes that `parse` has accepted are those that `request` writes for what was read.
request-fields :
    (b : ℕ → ℕ)
    → ((i : ℕ) → IsByte (b i))
    → header_ok (cells_from 40 0 b) ≡ true
    → request (fields (cells_from 40 0 b)) ≡ cells_from 40 0 b
unfolding header_ok request fields put32 put64
request-fields b h ok =
    let head : (b'U' ≡ b 0)
        × (b'P' ≡ b 1)
        × (b'C' ≡ b 2)
        × (b'1' ≡ b 3)
        × (operation_code (operation_of (b 5)) ≡ b 5)
        × (0 ≡ b 7)
        × (word32 (b 36) (b 37) (b 38) (b 39) ≡ 0) =
      ground arith in
    let session = rewrite64 b h 8 in
    let command = rewrite64 b h 16 in
    let count = rewrite32 b h 24 in
    let press = rewrite32 b h 28 in
    let interval = rewrite32 b h 32 in
    let tail = word32-zero b h 36 head.6 in
    λ i.
      head.0 i
      ∷ head.1 i
      ∷ head.2 i
      ∷ head.3 i
      ∷ b 4
      ∷ head.4 i
      ∷ b 6
      ∷ head.5 i
      ∷ session.0 i
      ∷ session.1 i
      ∷ session.2 i
      ∷ session.3 i
      ∷ session.4 i
      ∷ session.5 i
      ∷ session.6 i
      ∷ session.7 i
      ∷ command.0 i
      ∷ command.1 i
      ∷ command.2 i
      ∷ command.3 i
      ∷ command.4 i
      ∷ command.5 i
      ∷ command.6 i
      ∷ command.7 i
      ∷ count.0 i
      ∷ count.1 i
      ∷ count.2 i
      ∷ count.3 i
      ∷ press.0 i
      ∷ press.1 i
      ∷ press.2 i
      ∷ press.3 i
      ∷ interval.0 i
      ∷ interval.1 i
      ∷ interval.2 i
      ∷ interval.3 i
      ∷ tail.0 i
      ∷ tail.1 i
      ∷ tail.2 i
      ∷ tail.3 i
      ∷ []

fields-IsValid :
    (p : List ℕ)
    → AllBytes p
    → header_ok p ≡ true
    → fields_ok (fields p) ≡ true
    → IsValid (fields p)
unfolding header_ok fields_ok fields
fields-IsValid p h head ok = record {
  versioned = ground arith;
  button_byte = byte_at-IsByte p h 6;
  session_pos = ground arith;
  session_fits = get64-lt p 8 h;
  command_pos = ground arith;
  command_fits = get64-lt p 16 h;
  count_fits = get32-lt p 24 h;
  press_fits = get32-lt p 28 h;
  interval_fits = get32-lt p 32 h;
  release_plain = λ e. ground arith;
}

header-length : (p : List ℕ) → header_ok p ≡ true → length p ≡ 40
unfolding header_ok
header-length p e = ground arith

request-fields_any : (p : List ℕ) → AllBytes p → header_ok p ≡ true → request (fields p) ≡ p
request-fields_any p h ok =
    let e : p ≡ cells_from 40 0 (byte_at p) =
      subst (λ n. p ≡ cells_from n 0 (byte_at p)) (header-length p ok) (eq-cells p) in
    subst (λ q. request (fields q) ≡ q) (sym e)
      (request-fields (byte_at p) (byte_at-IsByte p h) (subst (λ q. header_ok q ≡ true) e ok))

-- A packet of bytes that `parse` accepts is the packet that `request` writes for the result, and the
-- result is valid: each request has one encoding.
pub parse-canonical :
    (p : List ℕ) {r : Request} → AllBytes p → parse p ≡ some r → (request r ≡ p) × IsValid r
unfolding parse
parse-canonical p {r} h e = elim (Bool-cases (header_ok p)) [
  | inl head ↦ elim (Bool-cases (fields_ok (fields p))) [
    | inl ok ↦
        let same : fields p ≡ r = ground arith in
        subst (λ s. (request s ≡ p) × IsValid s) same
          (request-fields_any p h head, fields-IsValid p h head ok)
    | inr bad ↦ ground arith
  ]
  | inr bad ↦ ground arith
]
