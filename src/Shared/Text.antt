-- ===== src/Shared/Text.antt =====
-- Texts as the program uses them: compared as a whole, tested for emptiness, and stripped.
use Prim.Native.Nat.{ℕ, ◌<◌, compare, Ordering}
use Prim.Native.Char.{Char, char, code, nul, IsScalar}
use Prim.Native.String.{String}
use mathlib.Core.Path.{◌≡◌, refl, ap}
use mathlib.Core.Logic.{dite, dif_pos}
use native.Mathlib.Bridge.{le_prop}
use native.Mathlib.Decide.{dec_lt}
use native.Mathlib.Omega.{arith}
use mathlib.Core.Bool.{Bool, false, not, ◌&&◌, ◌||◌}
use mathlib.Core.Option.{Option, none, some}
use mathlib.Core.List.{List, [], ◌∷◌, ◌++◌, reverse}
use text.Mathlib.Text.{◌==◌}
use dispatch_core.Shared.Tests.{leb, ◌==ℕ◌, if◌then◌else◌}

-- `not s`
abbrev pub is_empty : String → Bool
is_empty s = s == ""

abbrev pub chars : String → List Char
chars String.[] = []
chars (String.◌∷◌ c s) = c ∷ chars s

abbrev pub text_of : List Char → String
text_of [] = String.[]
text_of (c ∷ cs) = String.◌∷◌ c (text_of cs)

-- `a + b`
unfoldable pub concat : String → String → String
concat a b = text_of (chars a ++ chars b)

-- `str.isspace` of one character
pub is_space : ℕ → Bool
is_space c =
    (leb 9 c && leb c 13)
    || (leb 28 c && leb c 32)
    || c ==ℕ 133
    || c ==ℕ 160
    || c ==ℕ 5760
    || (leb 8192 c && leb c 8202)
    || c ==ℕ 8232
    || c ==ℕ 8233
    || c ==ℕ 8239
    || c ==ℕ 8287
    || c ==ℕ 12288

pub drop_spaces : List Char → List Char
unfolding is_space
drop_spaces [] = []
drop_spaces (c ∷ cs) = let rest = drop_spaces cs in if is_space (code c) then rest else c ∷ cs

-- `s.strip()`
unfoldable pub strip : String → String
unfolding drop_spaces
strip s = text_of (reverse (drop_spaces (reverse (drop_spaces (chars s)))))

-- `bool(s)` of an optional text
abbrev pub is_present : Option String → Bool
is_present none = false
is_present (some s) = not (is_empty s)

-- `chr(n)`, below the surrogates
scalar_of_lt : (n : ℕ) → n < 55296 → IsScalar n
scalar_of_lt n h = let e : compare n 55296 ≡ Ordering.lt = ground arith in rw e tt

unfoldable pub chr : ℕ → Char
unfolding scalar_of_lt dec_lt
chr n = dite (dec_lt n 55296) (λ h. char n (scalar_of_lt n h)) (λ _. nul)

pub code-chr : (n : ℕ) → n < 55296 → code (chr n) ≡ n
unfolding chr
code-chr n h = rw (dif_pos (dec_lt n 55296) le_prop h)

pub chars-text_of : (cs : List Char) → chars (text_of cs) ≡ cs
chars-text_of [] = refl
chars-text_of (c ∷ cs) = ap (◌∷◌ c) (chars-text_of cs)
