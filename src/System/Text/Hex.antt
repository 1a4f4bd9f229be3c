-- ===== src/System/Text/Hex.antt =====
-- A number that is written in hexadecimal digits is read back, in a line of its own too.
use mathlib.Core.Logic.{dif_pos, dif_neg}
use mathlib.Core.WellFounded.{Acc}
use native.Mathlib.Bridge.{le_prop}
use native.Mathlib.Decide.{dec_lt}
use lact.Prelude.{
  ℕ, ◌+◌, ◌*◌, ◌/◌, ◌%◌, ◌^◌, ◌<◌, ◌≡◌, ◌≢◌, refl, ◌∙◌, false, [], ◌∷◌, ◌++◌, some, arith, All,
  Option-cases, inl, inr,
}
use lact.System.Text.{
  Text, codes, is_empty, is_whitespace, trim_start, trim_end, trim, digit_value, digit, scan, emit,
  parse_hex, format_hex, lt_wf,
}

digit_value-digit : (d : ℕ) → d < 16 → digit_value (digit d) ≡ some d
unfolding digit_value digit
digit_value-digit d h = ground arith

scan-digit :
    (d n : ℕ) (out : Text)
    → d < 16
    → n * 16 + d < 2 ^ 64
    → scan (digit d ∷ out) n ≡ scan out (n * 16 + d)
unfolding scan
scan-digit d n out h fits = rw (scan, digit_value-digit d h) (ground arith)

scan-emit : (n : ℕ) (w : Acc ◌<◌ n) (out : Text) → n < 2 ^ 64 → scan (emit n w out) 0 ≡ scan out n
unfolding emit
scan-emit n (Acc.intro _ smaller) out fits = grind (
  arith,
  scan-digit (n % 16) (n / 16) out,
  λ (p : n / 16 < n). scan-emit (n / 16) (smaller (n / 16) p) (digit (n % 16) ∷ out),
)

-- What starts with a digit, and has digits only before `out`.
abbrev IsDigit : ℕ → Type 0
IsDigit c = (is_whitespace c ≡ false) × (c ≢ b'+')

digit-IsDigit : (d : ℕ) → d < 16 → IsDigit (digit d)
unfolding digit is_whitespace
digit-IsDigit d h = ground arith

emit-All :
    (n : ℕ) (w : Acc ◌<◌ n) (out : Text)
    → All IsDigit out
    → All IsDigit (emit n w out) × (is_empty (emit n w out) ≡ false)
unfolding emit
emit-All n (Acc.intro _ smaller) out h =
    let first = digit-IsDigit (n % 16) (omega arith) in
    elim (dec_lt 0 (n / 16)) [
      | yes p ↦
          rw (dif_pos _ le_prop p _ _)
            (emit-All (n / 16) (smaller (n / 16) (omega arith)) _ (first, h))
      | no p ↦ rw (dif_neg _ p _ _) ((first, h), refl)
    ]

parse-scan : (s : Text) → All IsDigit s → is_empty s ≡ false → parse_hex s ≡ scan s 0
unfolding parse_hex
parse-scan [] h ne = cc
parse-scan (c ∷ []) h ne = refl
parse-scan (c ∷ d ∷ s) ((space, plus), h) ne = ground arith

-- A number that fits 64 bits is read back from its digits.
pub parse-format : (n : ℕ) → n < 2 ^ 64 → parse_hex (format_hex n) ≡ some n
unfolding format_hex scan
parse-format n fits =
    let (digits, ne) = emit-All n (lt_wf.apply n) [] tt in
    parse-scan _ digits ne ∙ scan-emit n (lt_wf.apply n) [] fits

trim_end-All : (s : Text) → All IsDigit s → trim_end (s ++ 10 ∷ []) ≡ s
unfolding trim_end is_whitespace
trim_end-All [] h = refl
trim_end-All (c ∷ s) ((space, plus), h) = rw (trim_end-All s h, space) (ground arith)

trim_line : (s : Text) → All IsDigit s → trim (codes "0x" ++ (s ++ 10 ∷ [])) ≡ codes "0x" ++ s
unfolding trim trim_start trim_end is_whitespace
trim_line s h = rw (trim_end-All s h) (ground arith)

-- A line that holds the number after `0x`.
pub trim-format :
    (n : ℕ) → trim (codes "0x" ++ (format_hex n ++ 10 ∷ [])) ≡ codes "0x" ++ format_hex n
unfolding format_hex
trim-format n = trim_line _ (emit-All n (lt_wf.apply n) [] tt).0

scan_fits : (s : Text) (n r : ℕ) → n < 2 ^ 64 → scan s n ≡ some r → r < 2 ^ 64
unfolding scan
scan_fits [] n r h e = ground arith
scan_fits (c ∷ s) n r h e = elim (Option-cases (digit_value c)) [
  | inl p ↦ absurd (ground arith)
  | inr (d, p) ↦ ground (arith, scan_fits s (n * 16 + d) r)
]

pub parse_hex_fits : (s : Text) (r : ℕ) → parse_hex s ≡ some r → r < 2 ^ 64
unfolding parse_hex
parse_hex_fits [] r e = absurd (ground arith)
parse_hex_fits (c ∷ []) r e = scan_fits (c ∷ []) 0 r (omega arith) e
parse_hex_fits (c ∷ d ∷ s) r e = ground (arith, scan_fits (d ∷ s) 0 r, scan_fits (c ∷ d ∷ s) 0 r)
