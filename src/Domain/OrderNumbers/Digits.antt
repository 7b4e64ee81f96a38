-- ===== src/Domain/OrderNumbers/Digits.antt =====
-- The digits of an order number: `_base36`, the padding, and the value that digits stand for.
use Prim.Native.Char.{code}
use mathlib.Core.List.{reverse, reverse-cons}
use dispatch_core.Shared.{
  ℕ, zero, suc, ◌+◌, ◌-◌, ◌*◌, ◌/◌, ◌%◌, ◌≤◌, ◌<◌, ltb, ◌==ℕ◌, if◌then◌else◌, chars, Bool, true,
  ◌&&◌, List, [], ◌∷◌, ◌++◌, map, length, All, All-append, length-append, ◌≡◌, refl, arith,
  Bool-cases, inl, inr,
}

-- `_ALPHABET`
abbrev alphabet : List ℕ
alphabet = map code (chars "0123456789ABCDEFGHIJKLMNOPQRSTUVWXYZ")

abbrev get_or : ℕ → List ℕ → ℕ → ℕ
get_or d [] i = d
get_or d (x ∷ xs) zero = x
get_or d (x ∷ xs) (suc i) = get_or d xs i

-- `_ALPHABET[i]`
unfoldable pub digit : ℕ → ℕ
digit i = get_or 0 alphabet i

-- The loop of `_base36`, the lowest digit first, with fuel.
base36_loop : ℕ → ℕ → List ℕ
base36_loop zero value = []
base36_loop (suc fuel) value =
    let rest = base36_loop fuel (value / 36) in
    if value ==ℕ 0 then [] else digit (value % 36) ∷ rest

unfoldable pub base36 : ℕ → List ℕ
unfolding base36_loop digit
base36 value = reverse (base36_loop value value)

repeat : ℕ → ℕ → List ℕ
repeat zero c = []
repeat (suc n) c = c ∷ repeat n c

-- `s.rjust(width, fill)`
unfoldable pub rjust : ℕ → ℕ → List ℕ → List ℕ
unfolding repeat
rjust width fill s = repeat (width - length s) fill ++ s

-- `f"{n:03d}"` of a number below 1000
unfoldable pub pad3 : ℕ → List ℕ
pad3 n = (48 + n / 100) ∷ (48 + n / 10 % 10) ∷ (48 + n % 10) ∷ []

-- What a digit stands for.
abbrev digit_value : ℕ → ℕ
digit_value c = if ltb c 65 then c - 48 else c - 55

-- The value of digits in base 36, the highest first.
pub value_from : ℕ → List ℕ → ℕ
value_from acc [] = acc
value_from acc (c ∷ cs) = value_from (acc * 36 + digit_value c) cs

passes : (ℕ → Bool) → ℕ → Bool
passes test zero = true
passes test (suc k) = passes test k && test k

passes_below : (test : ℕ → Bool) (k i : ℕ) → i < k → passes test k ≡ true → test i ≡ true
unfolding passes
passes_below test zero i lt h = absurd (omega arith)
passes_below test (suc k) i lt h = ground (arith, passes_below test k i)

abbrev digit_test : ℕ → Bool
digit_test i = (digit_value (digit i) ==ℕ i) && ltb (digit i) 91

digit_table : passes digit_test 36 ≡ true
unfolding passes digit
digit_table = refl

pub digit_value-digit : (i : ℕ) → i < 36 → digit_value (digit i) ≡ i
digit_value-digit i h = ground (arith, passes_below digit_test 36 i h digit_table)

value_from-append :
    (acc : ℕ) (xs ys : List ℕ) → value_from acc (xs ++ ys) ≡ value_from (value_from acc xs) ys
unfolding value_from
value_from-append acc [] ys = refl
value_from-append acc (x ∷ xs) ys = value_from-append (acc * 36 + digit_value x) xs ys

value_from-base36_loop :
    (fuel value : ℕ) → value ≤ fuel → value_from 0 (reverse (base36_loop fuel value)) ≡ value
unfolding base36_loop
value_from-base36_loop zero value h = unfold value_from in omega arith
value_from-base36_loop (suc fuel) value h = elim (Bool-cases (value ==ℕ 0)) [
  | inl e ↦ rw e (unfold value_from in ground arith)
  | inr e ↦
      rw
        (
          e,
          reverse-cons,
          value_from-append,
          value_from-base36_loop fuel (value / 36) (ground arith),
        )
        (unfold value_from in omega (arith, digit_value-digit (value % 36) (omega arith)))
]

-- The fuel is enough, and the digits stand for the number.
pub value_from-base36 : (value : ℕ) → value_from 0 (base36 value) ≡ value
unfolding base36
value_from-base36 value = value_from-base36_loop value value (omega arith)

value_from-repeat : (n : ℕ) (xs : List ℕ) → value_from 0 (repeat n b'0' ++ xs) ≡ value_from 0 xs
unfolding repeat value_from
value_from-repeat zero xs = refl
value_from-repeat (suc n) xs = value_from-repeat n xs

-- Leading zeros change nothing.
pub value_from-rjust :
    (width : ℕ) (xs : List ℕ) → value_from 0 (rjust width b'0' xs) ≡ value_from 0 xs
unfolding rjust
value_from-rjust width xs = value_from-repeat (width - length xs) xs

length-repeat : (n c : ℕ) → length (repeat n c) ≡ n
unfolding repeat
length-repeat zero c = refl
length-repeat (suc n) c = omega (arith, length-repeat n c)

pub le-length-rjust : (width c : ℕ) (xs : List ℕ) → width ≤ length (rjust width c xs)
unfolding rjust
le-length-rjust width c xs =
    omega
      (arith, length-append (repeat (width - length xs) c) xs, length-repeat (width - length xs) c)

-- Every code point is below the surrogates.
abbrev pub AreCodes : List ℕ → Type 0
AreCodes = All (λ c. c < 55296)

digit-lt : (i : ℕ) → i < 36 → digit i < 55296
digit-lt i h = ground (arith, passes_below digit_test 36 i h digit_table)

base36_loop-AreCodes : (fuel value : ℕ) → AreCodes (base36_loop fuel value)
unfolding base36_loop
base36_loop-AreCodes zero value = tt
base36_loop-AreCodes (suc fuel) value =
    ground (arith, digit-lt (value % 36), base36_loop-AreCodes fuel (value / 36))

reverse-AreCodes : (xs : List ℕ) → AreCodes xs → AreCodes (reverse xs)
reverse-AreCodes [] h = tt
reverse-AreCodes (x ∷ xs) h =
    rw reverse-cons
      (All-append (λ c. c < 55296) (reverse xs) (x ∷ []) (reverse-AreCodes xs h.1) (h.0, tt))

repeat-AreCodes : (n c : ℕ) → c < 55296 → AreCodes (repeat n c)
unfolding repeat
repeat-AreCodes zero c h = tt
repeat-AreCodes (suc n) c h = (h, repeat-AreCodes n c h)

pub base36-AreCodes : (value : ℕ) → AreCodes (base36 value)
unfolding base36
base36-AreCodes value = reverse-AreCodes _ (base36_loop-AreCodes value value)

pub rjust-AreCodes :
    (width c : ℕ) (xs : List ℕ) → c < 55296 → AreCodes xs → AreCodes (rjust width c xs)
unfolding rjust
rjust-AreCodes width c xs h k =
    All-append (λ c. c < 55296) (repeat (width - length xs) c) xs
      (repeat-AreCodes (width - length xs) c h) k
