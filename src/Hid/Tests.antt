-- ===== src/Hid/Tests.antt =====
-- mouse_protocol.h: a movement of 300 counts that a mouse with 8-bit fields takes in three reports.
use usb_proxy_udp.Base.{ℕ, ◌≡◌, [], ◌∷◌, arith, length, ◌≤◌, List, refl}
use usb_proxy_udp.Base.Int.{pos, negsuc, ◌-ℤ◌, neg}
use usb_proxy_udp.Mouse.{MouseCommand}
use usb_proxy_udp.Hid.{
  HidField, MouseProfile, split_mouse_command, and_not, supported_of, split_loop, next_parts,
  take_part, take_all, take_axis,
}
use usb_proxy_udp.Wire.{signed32}
use usb_proxy_udp.Hid.Parser.{
  parse_mouse_descriptor, result_of, mice, run, step, read_item, take_value, item, global_item,
  local_item, main_item, input_item, is_too_large, end_of, close_slot, slot_of, put_slot,
  put_button, declare_fields, declare, is_usable, fits_bits, is_twice, place, is_button, usage_at,
  is_refused, signed_value,
}
use usb_proxy_udp.Hid.Parser.Sound.{AllSound, parse_mouse_descriptor-AllSound}
use usb_proxy_udp.Hid.Parser.{no_items}
use usb_proxy_udp.Hid.Parser.Items.{
  Item, AllShort, encode, interpret, parse_mouse_descriptor-encode,
}
use usb_proxy_udp.Hid.Split.{HasRanges, AllParts, SameMotion, sum_of, split_mouse_command_lem}

abbrev byte_field : ℕ → HidField
byte_field offset = record { offset = offset; bits = 8; minimum = negsuc 126; maximum = pos 127 }

abbrev no_field : HidField
no_field = record { offset = 0; bits = 0; minimum = pos 0; maximum = pos 0 }

abbrev small_mouse : MouseProfile
small_mouse = record {
  id = 0;
  size = 3;
  x = byte_field 8;
  y = byte_field 16;
  wheel = no_field;
  pan = no_field;
  buttons = (1, record { offset = 0; bits = 1; minimum = pos 0; maximum = pos 1 }) ∷ [];
  relative = byte_field 8 ∷ byte_field 16 ∷ [];
}

abbrev far : MouseCommand
far = record { x = pos 300; y = negsuc 9; wheel = pos 0; pan = pos 0; buttons = 1 }

small_mouse-HasRanges : HasRanges small_mouse
small_mouse-HasRanges = ground arith

split_mouse_command_lem_example :
    AllParts small_mouse far.buttons (split_mouse_command small_mouse far)
    × SameMotion (sum_of (split_mouse_command small_mouse far)) far
    × (length (split_mouse_command small_mouse far) ≤ 32)
    × (and_not far.buttons (supported_of small_mouse.buttons) ≡ 0)
unfolding split_mouse_command split_loop next_parts take_part take_all take_axis supported_of ◌-ℤ◌
split_mouse_command_lem_example =
    split_mouse_command_lem small_mouse far small_mouse-HasRanges (λ e. cc)

-- The report descriptor of a mouse with three buttons and two 8-bit axes.
abbrev descriptor : List ℕ
descriptor =
    0x05 ∷ 0x01 ∷ 0x09 ∷ 0x02 ∷ 0xa1 ∷ 0x01 ∷ 0x09 ∷ 0x01 ∷ 0xa1 ∷ 0x00 ∷ 0x05 ∷ 0x09 ∷ 0x19 ∷ 0x01
    ∷ 0x29 ∷ 0x03 ∷ 0x15 ∷ 0x00 ∷ 0x25 ∷ 0x01 ∷ 0x95 ∷ 0x03 ∷ 0x75 ∷ 0x01 ∷ 0x81 ∷ 0x02 ∷ 0x95
    ∷ 0x01 ∷ 0x75 ∷ 0x05 ∷ 0x81 ∷ 0x03 ∷ 0x05 ∷ 0x01 ∷ 0x09 ∷ 0x30 ∷ 0x09 ∷ 0x31 ∷ 0x15 ∷ 0x81
    ∷ 0x25 ∷ 0x7f ∷ 0x75 ∷ 0x08 ∷ 0x95 ∷ 0x02 ∷ 0x81 ∷ 0x06 ∷ 0xc0 ∷ 0xc0 ∷ []

one_mouse : length (parse_mouse_descriptor descriptor) ≡ 1
unfolding parse_mouse_descriptor result_of mice run step read_item take_value item global_item
    local_item main_item input_item is_too_large end_of close_slot slot_of put_slot put_button
    declare_fields declare is_usable fits_bits is_twice place is_button usage_at is_refused
    signed_value signed32 neg ◌-ℤ◌
one_mouse = refl

parse_mouse_descriptor-AllSound_example : AllSound (parse_mouse_descriptor descriptor)
parse_mouse_descriptor-AllSound_example = parse_mouse_descriptor-AllSound descriptor

abbrev with_bytes : ℕ → List ℕ → Item
with_bytes prefix payload = record { prefix = prefix; payload = payload }

-- The same items, with a maximum of four bytes.
abbrev mouse_items : List Item
mouse_items =
    with_bytes 0x05 (0x01 ∷ [])
    ∷ with_bytes 0x09 (0x02 ∷ [])
    ∷ with_bytes 0xa1 (0x01 ∷ [])
    ∷ with_bytes 0x09 (0x01 ∷ [])
    ∷ with_bytes 0xa1 (0x00 ∷ [])
    ∷ with_bytes 0x05 (0x09 ∷ [])
    ∷ with_bytes 0x19 (0x01 ∷ [])
    ∷ with_bytes 0x29 (0x03 ∷ [])
    ∷ with_bytes 0x15 (0x00 ∷ [])
    ∷ with_bytes 0x25 (0x01 ∷ [])
    ∷ with_bytes 0x95 (0x03 ∷ [])
    ∷ with_bytes 0x75 (0x01 ∷ [])
    ∷ with_bytes 0x81 (0x02 ∷ [])
    ∷ with_bytes 0x95 (0x01 ∷ [])
    ∷ with_bytes 0x75 (0x05 ∷ [])
    ∷ with_bytes 0x81 (0x03 ∷ [])
    ∷ with_bytes 0x05 (0x01 ∷ [])
    ∷ with_bytes 0x09 (0x30 ∷ [])
    ∷ with_bytes 0x09 (0x31 ∷ [])
    ∷ with_bytes 0x15 (0x81 ∷ [])
    ∷ with_bytes 0x27 (0x7f ∷ 0x00 ∷ 0x00 ∷ 0x00 ∷ [])
    ∷ with_bytes 0x75 (0x08 ∷ [])
    ∷ with_bytes 0x95 (0x02 ∷ [])
    ∷ with_bytes 0x81 (0x06 ∷ [])
    ∷ with_bytes 0xc0 ([])
    ∷ with_bytes 0xc0 ([])
    ∷ []

mouse_items-AllShort : AllShort mouse_items
mouse_items-AllShort = ground arith

parse_mouse_descriptor-encode_example :
    parse_mouse_descriptor (encode mouse_items) ≡ result_of (interpret no_items mouse_items)
parse_mouse_descriptor-encode_example =
    parse_mouse_descriptor-encode mouse_items mouse_items-AllShort
