-- ===== src/Base/Texts.antt =====
-- Texts as lists of code points: equality, prefixes, and the number formats that the program
-- prints (`str(n)` of an int, the digits of `uuid.hex`).
use Prim.Native.Nat.{ℕ, zero, suc, ◌+◌, ◌*◌, ◌-◌, ◌/◌, ◌%◌, ◌<◌}
use Prim.Native.String.{String}
use Prim.Native.Char.{code}
use mathlib.Core.Path.{◌≡◌, refl, ap}
use mathlib.Core.Logic.{◌↔◌}
use mathlib.Core.Bool.{Bool, true, false, ◌&&◌}
use mathlib.Core.Option.{Option, none, some}
use mathlib.Core.List.{List, [], ◌∷◌, ◌++◌}
use native.Mathlib.Omega.{arith}
use drivebound_storage.Base.Tests.{ltb, leb, ◌==◌, if◌then◌else◌}

abbrev pub Text : Type 0
Text = List ℕ

-- The code points of a literal.
abbrev pub codes : String → Text
codes String.[] = []
codes (String.◌∷◌ c s) = code c ∷ codes s

unfoldable pub same_text : Text → Text → Bool
same_text [] [] = true
same_text (a ∷ s) (b ∷ t) = a == b && same_text s t
same_text _ _ = false

pub same_text_sound : (s t : Text) → same_text s t ≡ true → s ≡ t
unfolding same_text
same_text_sound [] [] h = refl
same_text_sound [] (b ∷ t) h = cc
same_text_sound (a ∷ s) [] h = cc
same_text_sound (a ∷ s) (b ∷ t) h = ground (arith, same_text_sound s t)

pub same_text_refl : (s : Text) → same_text s s ≡ true
unfolding same_text
same_text_refl [] = refl
same_text_refl (a ∷ s) = ground (arith, same_text_refl s)

pub same_text_iff : (s t : Text) → (same_text s t ≡ true) ↔ (s ≡ t)
same_text_iff s t = (same_text_sound s t, λ e. rw e (same_text_refl t))

-- `s.startswith(prefix)`
unfoldable pub starts_with : Text → Text → Bool
starts_with [] s = true
starts_with (a ∷ prefix) [] = false
starts_with (a ∷ prefix) (b ∷ s) = a == b && starts_with prefix s

-- An optional text against an optional text, as Python compares `None` and a `str`.
abbrev pub opt_text_is : Option Text → Option Text → Bool
opt_text_is none none = true
opt_text_is (some s) (some t) = same_text s t
opt_text_is _ _ = false

-- `str(n)`, its last digit first into the accumulator.
decimal_from : ℕ → ℕ → Text → Text
decimal_from zero n acc = acc
decimal_from (suc fuel) n acc =
    let more = decimal_from fuel (n / 10) ((b'0' + n % 10) ∷ acc) in
    if ltb n 10 then (b'0' + n) ∷ acc else more

unfoldable pub decimal : ℕ → Text
unfolding decimal_from
decimal n = decimal_from (suc n) n []

-- The lowest `k` hexadecimal digits of `n`.
unfoldable pub hex_from : ℕ → ℕ → Text → Text
hex_from zero n acc = acc
hex_from (suc k) n acc =
    let d = n % 16 in hex_from k (n / 16) ((if ltb d 10 then b'0' + d else b'a' + (d - 10)) ∷ acc)

-- The number that the digits at the start of a text spell.
number_from : ℕ → Text → ℕ
number_from n [] = n
number_from n (c ∷ s) = if leb b'0' c && leb c b'9' then number_from (n * 10 + (c - b'0')) s else n

number_from-decimal_from :
    (fuel n : ℕ) (acc rest : Text)
    → n < fuel
    → number_from 0 (decimal_from fuel n acc ++ rest) ≡ number_from n (acc ++ rest)
unfolding decimal_from number_from
number_from-decimal_from zero n acc rest h = absurd (omega arith)
number_from-decimal_from (suc fuel) n acc rest h =
    ground (arith, number_from-decimal_from fuel (n / 10) ((b'0' + n % 10) ∷ acc) rest)

-- Two decimal numerals that the same separator ends are equal only if the numbers are.
pub decimal_injective :
    (m n : ℕ) (s t : Text) → decimal m ++ b'-' ∷ s ≡ decimal n ++ b'-' ∷ t → m ≡ n
unfolding decimal number_from
decimal_injective m n s t e = cc (
  number_from-decimal_from (suc m) m [] (b'-' ∷ s) (omega arith),
  number_from-decimal_from (suc n) n [] (b'-' ∷ t) (omega arith),
  ap (number_from 0) e,
)

decimal_504 : decimal 504 ≡ codes "504"
unfolding decimal
decimal_504 = refl

hex_from_255 : hex_from 3 255 [] ≡ codes "0ff"
unfolding hex_from
hex_from_255 = refl
