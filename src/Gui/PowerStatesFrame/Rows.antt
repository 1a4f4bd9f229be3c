-- ===== src/Gui/PowerStatesFrame/Rows.antt =====
-- What the check boxes ask for.
use lact.Prelude.{
  ℕ, suc, ◌+◌, ◌≤◌, ◌≡◌, refl, true, some, List, [], ◌∷◌, ltb, arith, if◌then◌else◌, length,
}
use lact.Schema.{PowerState}
use lact.Gui.PowerStatesFrame.{PowerStateRow, index_or, new_row, new_rows, enabled_rows}

-- The numbers of the enabled states, those without one counted from `i`.
abbrev pub enabled_states : ℕ → List PowerState → List ℕ
enabled_states i [] = []
enabled_states i (state ∷ states) =
    let rest = enabled_states (suc i) states in
    if state.enabled then index_or state.index i ∷ rest else rest

-- At most 256 states make rows without a panic, which ask for the states that are enabled.
pub enabled_rows-new_rows :
    (i : ℕ) (states : List PowerState)
    → i + length states ≤ 256
    → (rows : List PowerStateRow) × (new_rows i states ≡ some rows)
      × (enabled_rows rows ≡ enabled_states i states)
unfolding new_rows enabled_rows new_row
enabled_rows-new_rows i [] h = ([], refl, refl)
enabled_rows-new_rows i (state ∷ states) h =
    let (rows, p, q) = enabled_rows-new_rows (suc i) states (omega arith) in
    let fits : ltb i 256 ≡ true = ground arith in
    (new_row state i ∷ rows, rw (fits) (rw p refl), rw q refl)
