-- ===== src/Domain/OrderNumbers/Unique.antt =====
-- An order number determines its sequence.
use Prim.Native.Char.{Char, code}
use dispatch_core.Shared.{
  is_empty, sym, ap, ◌∙◌, false, eq_iff, ℕ, ◌+◌, ◌-◌, ◌*◌, ◌≤◌, ltb, ◌==ℕ◌, if◌then◌else◌, String,
  chars, text_of, chr, code-chr, chars-text_of, List, [], ◌∷◌, map, length, ◌≡◌, refl, arith,
  Bool-cases, inl, inr, le→ltb,
}
use dispatch_core.Domain.Errors.{ok}
use dispatch_core.Domain.OrderNumbers.{number_codes, format_order_number, short_capacity}
use dispatch_core.Domain.OrderNumbers.Digits.{
  base36, pad3, value_from, value_from-base36, value_from-rjust, le-length-rjust, AreCodes,
  base36-AreCodes, rjust-AreCodes,
}

-- Reads an order number back: four characters are a letter and a number below 1000, more are an
-- "X" and the sequence in base 36.
abbrev read_short : List ℕ → ℕ
read_short (p ∷ a ∷ b ∷ c ∷ []) = (p - 65) * 1000 + (a - 48) * 100 + (b - 48) * 10 + (c - 48) + 1
read_short _ = 0

abbrev read_long : List ℕ → ℕ
read_long [] = 0
read_long (x ∷ cs) = value_from 0 cs

abbrev read_codes : List ℕ → ℕ
read_codes cs = if length cs ==ℕ 4 then read_short cs else read_long cs

abbrev pub read_number : String → ℕ
read_number s = read_codes (map code (chars s))

map-code-chr : (cs : List ℕ) → AreCodes cs → map code (map chr cs) ≡ cs
map-code-chr [] h = refl
map-code-chr (c ∷ cs) h = cc (code-chr c h.0, map-code-chr cs h.1)

number_codes-AreCodes : (s : ℕ) → 1 ≤ s → AreCodes (number_codes s)
unfolding number_codes pad3
number_codes-AreCodes s h = elim (Bool-cases (ltb (s - 1) 26000)) [
  | inl e ↦ rw e (ground arith, (ground arith, (ground arith, (ground arith, tt))))
  | inr e ↦ rw e (omega arith, rjust-AreCodes 6 48 (base36 s) (omega arith) (base36-AreCodes s))
]

read_codes-number_codes : (s : ℕ) → 1 ≤ s → read_codes (number_codes s) ≡ s
unfolding number_codes pad3
read_codes-number_codes s h = elim (Bool-cases (ltb (s - 1) 26000)) [
  | inl e ↦ rw e (ground arith)
  | inr e ↦ rw e (
      ground (
        arith,
        le-length-rjust 6 48 (base36 s),
        value_from-rjust 6 (base36 s),
        value_from-base36 s,
      ))
]

-- Every positive sequence has an order number, and reading the number gives the sequence back.
pub read-format_order_number :
    (s : ℕ) → 1 ≤ s → (t : String) × (format_order_number s ≡ ok t) × (read_number t ≡ s)
unfolding format_order_number
read-format_order_number s h = (
  text_of (map chr (number_codes s)),
  rw (le→ltb s 1 h),
  rw (chars-text_of, map-code-chr (number_codes s) (number_codes-AreCodes s h))
      (read_codes-number_codes s h),
)

text-nonempty : (c : Char) (cs : List Char) → is_empty (text_of (c ∷ cs)) ≡ false
text-nonempty c cs = elim (Bool-cases (is_empty (text_of (c ∷ cs)))) [
  | inr e ↦ e
  | inl e ↦
      let same : text_of (c ∷ cs) ≡ "" = (eq_iff (text_of (c ∷ cs)) "").0 e in
      let none_left = sym (chars-text_of (c ∷ cs)) ∙ ap chars same in cc
]

codes-nonempty : (n : ℕ) → is_empty (text_of (map chr (number_codes n))) ≡ false
unfolding number_codes
codes-nonempty n = elim (Bool-cases (ltb (n - 1) short_capacity)) [
  | inl e ↦ rw e (text-nonempty _ _)
  | inr e ↦ rw e (text-nonempty _ _)
]

-- An order number is never empty.
pub format-nonempty :
    (n : ℕ) {number : String} → format_order_number n ≡ ok number → is_empty number ≡ false
unfolding format_order_number
format-nonempty n {number} h = elim (Bool-cases (ltb n 1)) [
  | inl e ↦ absurd (ground arith)
  | inr e ↦
      let same : text_of (map chr (number_codes n)) ≡ number = ground arith in
      rw (← same) (codes-nonempty n)
]
