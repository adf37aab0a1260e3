-- ===== src/Cli/Text.antt =====
-- src/cli/args.cpp, lines 11 to 85: numbers, the cursor and the matching of an option. A
-- `std::string_view` is the list of its characters' codes.
use aether_stream.Common.{
  ℕ, ◌+◌, ◌*◌, ◌-◌, Bool, true, false, not, ◌==◌, ltb, leb, ◌&&◌, ◌||◌, if◌then◌else◌, Option, none,
  some, List, [], ◌∷◌, ◌++◌, length, get_or, codes, is_empty, String,
}
use aether_stream.Core.Types.{u64_mod}
use aether_stream.Core.Status.{StatusCode, status_error}
use aether_stream.Core.Expected.{Expected, value, error, of_status}

abbrev pub View : Type 0
View = List ℕ

abbrev pub supported_capacities : List ℕ
supported_capacities = 64 ∷ 256 ∷ 1024 ∷ 4096 ∷ 65536 ∷ []

abbrev pub supported_payload_sizes : List ℕ
supported_payload_sizes = 8 ∷ 32 ∷ 64 ∷ 256 ∷ 1024 ∷ []

-- `std::find(...) != end()`.
unfoldable pub is_supported : ℕ → List ℕ → Bool
is_supported n [] = false
is_supported n (s ∷ supported) =
    let rest = is_supported n supported in if s == n then true else rest

unfoldable pub view_eq : View → View → Bool
view_eq [] [] = true
view_eq [] (d ∷ ds) = false
view_eq (c ∷ cs) [] = false
view_eq (c ∷ cs) (d ∷ ds) = c == d && view_eq cs ds

-- `text.starts_with(prefix)`.
unfoldable pub starts_with : View → View → Bool
starts_with text [] = true
starts_with [] (p ∷ ps) = false
starts_with (c ∷ cs) (p ∷ ps) = c == p && starts_with cs ps

abbrev pub is_digit : ℕ → Bool
is_digit c = leb b'0' c && leb c b'9'

-- The digits at the front of a text: their value on top of `acc`, and what follows them.
unfoldable pub read_digits : ℕ → View → ℕ × View
read_digits acc [] = (acc, [])
read_digits acc (c ∷ cs) =
    let rest = read_digits (acc * 10 + (c - b'0')) cs in if is_digit c then rest else (acc, c ∷ cs)

-- `std::from_chars` of a `std::uint64_t` in base 10: the value and the rest of the text; `none` is
-- an error code, for no digit at the front or a value out of range.
unfoldable pub from_chars : View → Option (ℕ × View)
from_chars [] = none
from_chars (c ∷ cs) =
    let (v, rest) = read_digits 0 (c ∷ cs) in
    if not (is_digit c) then none else if leb v (u64_mod - 1) then some (v, rest) else none

abbrev pub invalid {ℓ} : {A : Type ℓ} → String → Expected A
invalid detail = of_status (status_error StatusCode.invalid_argument detail)

abbrev pub parse_answer : Option (ℕ × View) → Expected ℕ
parse_answer none = invalid "invalid unsigned integer"
parse_answer (some (v, rest)) =
    if not (is_empty rest) then invalid "invalid unsigned integer" else value v

unfoldable pub parse_u64 : View → Expected ℕ
parse_u64 text =
    if is_empty text || get_or text 0 0 == b'-'
    then invalid "expected a non-negative unsigned integer"
    else parse_answer (from_chars text)

-- `parse_size`; `std::size_t` has 64 bits.
unfoldable pub parse_size : View → Expected ℕ
parse_size text = elim (parse_u64 text) [
  | error s ↦ of_status s
  | value n ↦ if ltb (u64_mod - 1) n then invalid "value is too large for size_t" else value n
]

-- The text behind the first `=`.
unfoldable pub behind_eq : View → Option View
behind_eq [] = none
behind_eq (c ∷ cs) = let rest = behind_eq cs in if c == b'=' then some cs else rest

-- `args_[index]`.
abbrev pub at : List View → ℕ → View
at args index = get_or args index []

-- `ArgCursor::value(index, option)`: the value, and `index` after the call.
unfoldable pub cursor_value : List View → ℕ → Expected View × ℕ
cursor_value args index =
    let next = at args (index + 1) in
    elim (behind_eq (at args index)) [
      | some out ↦
          if is_empty out then (invalid "missing option value", index) else (value out, index)
      | none ↦
          if leb (length args) (index + 1)
          then (invalid "missing option value", index)
          else if is_empty next || starts_with next (codes "-")
          then (invalid "missing option value", index + 1)
          else (value next, index + 1)
    ]

unfoldable pub matches : View → View → Bool
matches arg option = view_eq arg option || starts_with arg (option ++ codes "=")
