-- ===== src/Nvidia/Report.antt =====
-- `get_clocks_info` in nvidia.rs: the offsets that clients see.
use lact.Prelude.{
  ℕ, ◌≡◌, Bool, false, not, Option, none, some, ◌&&◌, arith, inl, inr, ◌⊎◌, if◌then◌else◌,
}
use lact.Prelude.Int.{ℤ, pos, ltb_ℤ}
use lact.Prelude.Exec.{Result, Result-cases, ok, err}
use lact.Platform.{Platform}
use lact.Curve.{wrap_i32}
use lact.Nvidia.Device.{Clock, graphics, memory, Device, Nvidia}
use lact.Nvidia.Offsets.{taken, IsKnown}

-- `NvidiaClockInfo`, `NvidiaClocksTable`
pub record NvidiaClockInfo : Type 0 where
  pub max : ℤ
  pub offset : ℤ
  pub offset_range : ℤ × ℤ

pub record NvidiaClocksTable : Type 0 where
  pub gpc : Option NvidiaClockInfo
  pub mem : Option NvidiaClockInfo

module _ {P : Platform} (device : Device) (s : Nvidia P) where
  -- `(range.0..range.1).contains(&offset)`
  unfoldable pub contains : ℤ × ℤ → ℤ → Bool
  contains range offset = not (ltb_ℤ offset (range.0)) && ltb_ℤ offset (range.1)

  pub clock_info_from : Clock → Result ℕ → Result (ℤ × ℤ) → Result ℤ → Option NvidiaClockInfo
  unfolding contains
  clock_info_from clock (ok max_clock) (ok range) (ok offset) = some (record {
    max = wrap_i32 (pos max_clock);
    offset = if contains range offset then offset else s.last_applied clock;
    offset_range = range;
  })
  clock_info_from clock (err e) range offset = none
  clock_info_from clock (ok max_clock) (err e) offset = none
  clock_info_from clock (ok max_clock) (ok range) (err e) = none

  -- Only reads, so no call is recorded.
  unfoldable pub clock_info : Clock → Option NvidiaClockInfo
  unfolding clock_info_from
  clock_info clock =
      clock_info_from clock (device.max_clock clock s.calls) (device.offset_range clock s.calls)
        (device.offset clock s.calls)

  pub get_clocks_info : NvidiaClocksTable
  unfolding clock_info
  get_clocks_info = record { gpc = clock_info graphics; mem = clock_info memory }

  -- Where the remembered offsets are those that the card took last, and the card reports the offset
  -- of a clock either truly or out of its range: the offset that `get_clocks_info` shows for the
  -- clock, if any, is the one that the card took last, and the range is the card's.
  pub clock_info-taken :
      (clock : Clock) (read : ℤ) (range : ℤ × ℤ) (info : NvidiaClockInfo)
      → IsKnown device s
      → device.offset clock s.calls ≡ ok read
      → device.offset_range clock s.calls ≡ ok range
      → (read ≡ taken device clock s.calls) ⊎ (contains range read ≡ false)
      → clock_info clock ≡ some info
      → (info.offset ≡ taken device clock s.calls) × (info.offset_range ≡ range)
  unfolding clock_info clock_info_from
  clock_info-taken clock read range info k r g faithful e =
      elim (Result-cases (device.max_clock clock s.calls)) [
        | inl (m, p) ↦ ground (arith, k clock)
        | inr (er, p) ↦ ground arith
      ]
