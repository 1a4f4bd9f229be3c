-- ===== src/System/Text.antt =====
-- What system.rs does to texts, on their code points: `trim`, `split_whitespace`, `strip_prefix`,
-- `u64::from_str_radix(_, 16)` and `{:X}`.
pub mod Hex
use Prim.Native.Char.{code}
use mathlib.Core.List.{reverse}
use mathlib.Core.Logic.{dite}
use mathlib.Core.WellFounded.{Acc, WellFounded}
use native.Mathlib.Decide.{dec_lt}
use lact.Prelude.{
  ℕ, zero, suc, ◌+◌, ◌-◌, ◌*◌, ◌/◌, ◌%◌, ◌^◌, ◌<◌, String, Bool, true, false, ◌&&◌, ◌||◌, List, [],
  ◌∷◌, Option, none, some, leb, ltb, ◌==◌, if◌then◌else◌, arith, ◌≡◌, refl,
}

abbrev pub Text : Type 0
Text = List ℕ

abbrev pub codes : String → Text
codes String.[] = []
codes (String.◌∷◌ c s) = code c ∷ codes s

abbrev pub is_empty : Text → Bool
is_empty [] = true
is_empty (c ∷ s) = false

-- `str::eq`
unfoldable pub text_eq : Text → Text → Bool
text_eq [] [] = true
text_eq [] (d ∷ t) = false
text_eq (c ∷ s) [] = false
text_eq (c ∷ s) (d ∷ t) = c == d && text_eq s t

-- `char::is_whitespace`, the property White_Space of Unicode.
pub is_whitespace : ℕ → Bool
is_whitespace c =
    (leb 9 c && leb c 13)
    || c == 32
    || c == 133
    || c == 160
    || c == 5760
    || (leb 8192 c && leb c 8202)
    || c == 8232
    || c == 8233
    || c == 8239
    || c == 8287
    || c == 12288

pub trim_start : Text → Text
trim_start [] = []
trim_start (c ∷ s) = if is_whitespace c then trim_start s else c ∷ s

pub trim_end : Text → Text
trim_end [] = []
trim_end (c ∷ s) =
    let rest = trim_end s in if is_empty rest && is_whitespace c then [] else c ∷ rest

unfoldable pub trim : Text → Text
unfolding trim_start trim_end is_whitespace
trim s = trim_end (trim_start s)

unfoldable pub strip_prefix : Text → Text → Option Text
strip_prefix [] s = some s
strip_prefix (c ∷ p) [] = none
strip_prefix (c ∷ p) (d ∷ s) = if c == d then strip_prefix p s else none

-- The words, with the letters of the word at hand in reverse.
pub words_from : Text → Text → List Text
words_from word [] = if is_empty word then [] else reverse word ∷ []
words_from word (c ∷ s) =
    let at_end = words_from [] s in
    let inside = words_from (c ∷ word) s in
    if is_whitespace c then (if is_empty word then at_end else reverse word ∷ at_end) else inside

unfoldable pub split_whitespace : Text → List Text
unfolding words_from is_whitespace
split_whitespace s = words_from [] s

pub digit_value : ℕ → Option ℕ
digit_value c =
    if leb b'0' c && leb c b'9'
    then some (c - b'0')
    else if leb b'A' c && leb c b'F'
    then some (c - b'A' + 10)
    else if leb b'a' c && leb c b'f'
    then some (c - b'a' + 10)
    else none

-- The digits behind `n`; `none` is an invalid digit or an overflow of the 64 bits.
pub scan : Text → ℕ → Option ℕ
unfolding digit_value
scan [] n = some n
scan (c ∷ s) n = elim (digit_value c) [
  | none ↦ none
  | some d ↦ if ltb (n * 16 + d) (2 ^ 64) then scan s (n * 16 + d) else none
]

-- A sign `+` may stand before the digits.
unfoldable pub parse_hex : Text → Option ℕ
unfolding scan
parse_hex [] = none
parse_hex (c ∷ []) = scan (c ∷ []) 0
parse_hex (c ∷ d ∷ s) = if c == b'+' then scan (d ∷ s) 0 else scan (c ∷ d ∷ s) 0

pub acc_below : (k n : ℕ) → n < k → Acc ◌<◌ n
acc_below zero n h = absurd (omega arith)
acc_below (suc k) n h = Acc.intro n λ m lt. acc_below k m (omega arith)

pub lt_wf : WellFounded ◌<◌
unfolding acc_below
lt_wf = record { apply = λ n. acc_below (suc n) n (omega arith) }

unfoldable pub digit : ℕ → ℕ
digit d = if ltb d 10 then b'0' + d else b'A' + (d - 10)

-- The last digit comes first, until nothing is left.
pub emit : (n : ℕ) → Acc ◌<◌ n → Text → Text
unfolding digit
emit n (Acc.intro _ smaller) out =
    dite (dec_lt 0 (n / 16))
      (λ h. emit (n / 16) (smaller (n / 16) (omega arith)) (digit (n % 16) ∷ out))
      (λ _. digit (n % 16) ∷ out)

unfoldable pub format_hex : ℕ → Text
unfolding emit lt_wf dec_lt
format_hex n = emit n (lt_wf.apply n) []

format_mask : format_hex 0xfff7bfff ≡ codes "FFF7BFFF"
unfolding format_hex
format_mask = refl

parse_mask : parse_hex (codes "fff7bfff") ≡ some 0xfff7bfff
unfolding parse_hex
parse_mask = refl

words_of_mint : split_whitespace (codes "ubuntu debian") ≡ codes "ubuntu" ∷ codes "debian" ∷ []
unfolding split_whitespace
words_of_mint = refl
