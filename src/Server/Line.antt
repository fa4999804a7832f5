-- ===== src/Server/Line.antt =====
-- udp_server.cpp: what the server uses of strings and streams to read a text command: the blanks, words
-- and numbers of `std::istringstream`, `std::to_string`, and the call syntax `.name(a,b)`.
use Prim.Native.Char.{code}
use Prim.Native.String.{String}
use usb_proxy_udp.Base.{
  ℕ, zero, suc, ◌+◌, ◌-◌, ◌*◌, ◌/◌, ◌%◌, ◌^◌, List, [], ◌∷◌, ◌++◌, Bool, true, false, not, ◌&&◌,
  ◌||◌, Option, none, some, leb, ltb, ◌==◌, if◌then◌else◌, map,
}
use usb_proxy_udp.Base.Int.{ℤ, pos, negsuc, sub_ℕ}

-- The bytes of an ASCII text.
abbrev pub codes : String → List ℕ
codes String.[] = []
codes (String.◌∷◌ c s) = code c ∷ codes s

abbrev pub same_text : List ℕ → List ℕ → Bool
same_text [] [] = true
same_text [] (y ∷ ys) = false
same_text (x ∷ xs) [] = false
same_text (x ∷ xs) (y ∷ ys) = x == y && same_text xs ys

-- isspace
abbrev pub is_space : ℕ → Bool
is_space c = c == 32 || (leb 9 c && leb c 13)

abbrev pub is_digit : ℕ → Bool
is_digit c = leb b'0' c && leb c b'9'

unfoldable pub skip_space : List ℕ → List ℕ
skip_space [] = []
skip_space (c ∷ cs) = if is_space c then skip_space cs else c ∷ cs

-- The characters up to the next blank, and the rest.
unfoldable pub span_word : List ℕ → List ℕ × List ℕ
span_word [] = ([], [])
span_word (c ∷ cs) =
    let (word, rest) = span_word cs in if is_space c then ([], c ∷ cs) else (c ∷ word, rest)

-- stream >> word, where an empty word is a failed read
unfoldable pub read_word : List ℕ → List ℕ × List ℕ
read_word cs = span_word (skip_space cs)

-- The digits at the front, as a number, with how many they are.
unfoldable pub span_digits : ℕ → ℕ → List ℕ → ℕ × ℕ × List ℕ
span_digits value n [] = (value, n, [])
span_digits value n (c ∷ cs) =
    let more = span_digits (value * 10 + (c - b'0')) (n + 1) cs in
    if is_digit c then more else (value, n, c ∷ cs)

-- The digits after a sign; a number that an `int` cannot hold is a failed read, and so is none.
unfoldable pub read_digits : Bool → List ℕ → Option (ℤ × List ℕ)
read_digits negative cs =
    let (value, n, rest) = span_digits 0 0 cs in
    if n == 0 || ltb (if negative then 2 ^ 31 else 2 ^ 31 - 1) value
    then none
    else some (if negative then sub_ℕ 0 value else pos value, rest)

-- The number after the blanks, with its sign.
unfoldable pub read_signed : List ℕ → Option (ℤ × List ℕ)
read_signed [] = none
read_signed (c ∷ cs) =
    if c == b'-'
    then read_digits true cs
    else if c == b'+'
    then read_digits false cs
    else read_digits false (c ∷ cs)

-- stream >> n for an `int`
unfoldable pub read_int : List ℕ → Option (ℤ × List ℕ)
read_int cs = read_signed (skip_space cs)

-- !(stream >> extra)
unfoldable pub is_blank : List ℕ → Bool
is_blank [] = true
is_blank (c ∷ cs) = is_space c && is_blank cs

-- while (!text.empty() && (text.back() == '\n' || text.back() == '\r')) text.pop_back();
unfoldable pub trim_end : List ℕ → List ℕ
trim_end [] = []
trim_end (c ∷ cs) = elim (trim_end cs) [
  | [] ↦ if c == 10 || c == 13 then [] else c ∷ []
  | d ∷ ds ↦ c ∷ d ∷ ds
]

-- What stands before the first `(`, and what stands after it.
unfoldable pub split_paren : List ℕ → Option (List ℕ × List ℕ)
split_paren [] = none
split_paren (c ∷ cs) =
    if c == b'('
    then some ([], cs)
    else elim (split_paren cs) [ none ↦ none | some (before, after) ↦ some (c ∷ before, after) ]

-- The text without its last character, if that is `)`.
unfoldable pub drop_paren : List ℕ → Option (List ℕ)
drop_paren [] = none
drop_paren (c ∷ []) = if c == b')' then some [] else none
drop_paren (c ∷ d ∷ cs) = elim (drop_paren (d ∷ cs)) [
  | none ↦ none
  | some before ↦ some (c ∷ before)
]

abbrev comma_to_space : ℕ → ℕ
comma_to_space c = if c == b',' then 32 else c

-- `.name(a,b)` becomes `+name a b`, in which every comma is a blank; `none` is a syntax error.
unfoldable pub unwrap_call : List ℕ → Option (List ℕ)
unwrap_call [] = some []
unwrap_call (c ∷ cs) = if not (c == b'.') then some (c ∷ cs) else elim (split_paren cs) [
  | none ↦ none
  | some (name, arguments) ↦ elim (drop_paren arguments) [
    | none ↦ none
    | some inner ↦ some (map comma_to_space (b'+' ∷ (name ++ (32 ∷ inner))))
  ]
]

-- `km.` in front is dropped but for its dot.
unfoldable pub drop_km : List ℕ → List ℕ
drop_km (a ∷ b ∷ c ∷ cs) = if a == b'k' && b == b'm' && c == b'.' then c ∷ cs else a ∷ b ∷ c ∷ cs
drop_km cs = cs

-- std::to_string; a number has fewer digits than its value plus one.
unfoldable pub show_digits : ℕ → ℕ → List ℕ
show_digits zero n = []
show_digits (suc fuel) n =
    let before = show_digits fuel (n / 10) in
    if ltb n 10 then (b'0' + n) ∷ [] else before ++ (b'0' + n % 10) ∷ []

unfoldable pub show_nat : ℕ → List ℕ
show_nat n = show_digits (n + 1) n

unfoldable pub show_int : ℤ → List ℕ
show_int (pos n) = show_nat n
show_int (negsuc n) = b'-' ∷ show_nat (n + 1)
