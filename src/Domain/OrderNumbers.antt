-- ===== src/Domain/OrderNumbers.antt =====
-- src/dispatch_core/domain/order_numbers.py. A text is built as its list of code points.
pub mod Digits
pub mod Unique
use dispatch_core.Shared.{
  ℕ, zero, suc, ◌+◌, ◌-◌, ◌*◌, ◌/◌, ◌%◌, ltb, ◌==ℕ◌, if◌then◌else◌, String, chars, text_of, chr,
  List, [], ◌∷◌, ◌++◌, map, length,
}
use Prim.Native.Char.{code}
use mathlib.Core.List.{reverse}
use dispatch_core.Domain.Errors.{Result, ok, err, value_error, Invalid}
use dispatch_core.Domain.OrderNumbers.Digits.{base36, rjust, pad3}

abbrev short_block_size : ℕ
short_block_size = 1000

abbrev short_block_count : ℕ
short_block_count = 26

abbrev short_capacity : ℕ
short_capacity = short_block_size * short_block_count

-- The code points of the number of a positive sequence.
pub number_codes : ℕ → List ℕ
number_codes sequence =
    let offset = sequence - 1 in
    if ltb offset short_capacity
    then (b'A' + offset / short_block_size) ∷ pad3 (offset % short_block_size)
    else b'X' ∷ rjust 6 b'0' (base36 sequence)

unfoldable pub format_order_number : ℕ → Result String
unfolding number_codes
format_order_number sequence =
    if ltb sequence 1
    then err (value_error Invalid.sequence_not_positive)
    else ok (text_of (map chr (number_codes sequence)))
