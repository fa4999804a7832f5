-- ===== src/Hid/Parser/Items.antt =====
-- mouse_protocol.h: what `parse_mouse_descriptor` does with the items of a descriptor, which are written one
-- after another as a prefix and up to four bytes of data.
use usb_proxy_udp.Base.{
  ℕ, zero, suc, ◌+◌, ◌*◌, ◌%◌, ◌≤◌, ◌<◌, ◌≡◌, ◌≢◌, refl, List, [], ◌∷◌, ◌++◌, Option, none, some,
  arith, length, length-append, ◌⊎◌, inl, inr, ap, ◌∙◌,
}
use usb_proxy_udp.Hid.Parser.{
  Parser, run, take_value, item_length, step, read_item, item, no_items, result_of,
  parse_mouse_descriptor,
}

pub record Item : Type 0 where
  pub prefix : ℕ
  pub payload : List ℕ

-- The low two bits of the prefix give the number of bytes: 0, 1, 2 or 4. The prefix 0xfe is that of a long
-- item.
abbrev pub IsShort : Item → Type 0
IsShort i =
    (i.prefix ≢ 0xfe)
    × (((i.prefix % 4 < 3) × (length i.payload ≡ i.prefix % 4))
        ⊎ ((i.prefix % 4 ≡ 3) × (length i.payload ≡ 4)))

abbrev pub AllShort : List Item → Type 0
AllShort [] = Unit {0}
AllShort (i ∷ is) = IsShort i × AllShort is

abbrev pub encode : List Item → List ℕ
encode [] = []
encode (i ∷ is) = i.prefix ∷ i.payload ++ encode is

-- The value of the data, the low byte first.
abbrev pub value_of : List ℕ → ℕ
value_of [] = 0
value_of (b ∷ p) = b + 256 * value_of p

-- The items one after another, up to the first that is refused.
abbrev pub interpret : Parser → List Item → Option Parser
interpret s [] = some s
interpret s (i ∷ is) = elim (item s i.prefix (length i.payload) (value_of i.payload)) [
  | none ↦ none
  | some t ↦ interpret t is
]

take_value-append :
    (payload rest : List ℕ)
    → take_value (length payload) (payload ++ rest) ≡ some (value_of payload, rest)
unfolding take_value
take_value-append [] rest = refl
take_value-append (b ∷ payload) rest = rw (take_value-append payload rest) refl

item_length-IsShort : (i : Item) → IsShort i → item_length i.prefix ≡ length i.payload
item_length-IsShort i (short, inl (small, size)) = ground (arith, small, size)
item_length-IsShort i (short, inr (large, size)) = ground (arith, large, size)

-- A round of the loop reads one item.
step-item :
    (s : Parser) (i : Item) (rest : List ℕ)
    → IsShort i
    → step s i.prefix (i.payload ++ rest)
      ≡ elim (item s i.prefix (length i.payload) (value_of i.payload)) [
        | none ↦ none
        | some t ↦ some (t, rest)
      ]
unfolding step read_item
step-item s i rest short =
    let (other, _) = short in
    let size = item_length-IsShort i short in
    ground (arith, other, size, take_value-append i.payload rest)

-- What the loop does after a round.
abbrev continued : ℕ → Option (Parser × List ℕ) → Option Parser
continued n none = none
continued n (some (t, rest)) = run n t rest

then_run :
    (n : ℕ) (rest : List ℕ) (is : List Item) (o : Option Parser)
    → ((t : Parser) → run n t rest ≡ interpret t is)
    → continued n (elim o [ none ↦ none | some t ↦ some (t, rest) ])
      ≡ elim o [ none ↦ none | some t ↦ interpret t is ]
then_run n rest is none go = refl
then_run n rest is (some t) go = go t

run-encode :
    (n : ℕ) (s : Parser) (is : List Item)
    → AllShort is
    → length (encode is) ≤ n
    → run n s (encode is) ≡ interpret s is
unfolding run
run-encode n s [] all enough = refl
run-encode zero s (i ∷ is) all enough = absurd (omega arith)
run-encode (suc n) s (i ∷ is) (short, all) enough =
    let rest = encode is in
    let room : length rest ≤ n = omega (arith, length-append i.payload rest, enough) in
    ap (continued n) (step-item s i rest short)
    ∙ then_run n rest is (item s i.prefix (length i.payload) (value_of i.payload))
        λ t. run-encode n t is all room

-- For every list of short items, whose bytes are written one after another, the parser gives what the
-- items, interpreted in their order with the value of their bytes, leave; the loop has rounds enough for all
-- of them.
pub parse_mouse_descriptor-encode :
    (is : List Item)
    → AllShort is
    → parse_mouse_descriptor (encode is) ≡ result_of (interpret no_items is)
unfolding parse_mouse_descriptor
parse_mouse_descriptor-encode is all =
    ap result_of (run-encode (length (encode is)) no_items is all (omega arith))
