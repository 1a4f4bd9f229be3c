-- ===== src/Gui/Adjustment.antt =====
-- pages/oc_adjustment: a `gtk::Adjustment` that remembers whether its value was changed.
use lact.Prelude.{Bool, true, false, not, ◌&&◌, ◌||◌, Option, none, some, if◌then◌else◌}
use lact.Platform.{Platform}
use lact.Gui.Toolkit.{Toolkit}

-- `gtk::Adjustment`. The limits bind a value only when it is set.
pub record OcAdjustment (P : Platform) : Type 0 where
  pub value : P.F64
  pub lower : P.F64
  pub upper : P.F64
  pub page_size : P.F64
  pub changed : Bool

module _ {P : Platform} (tk : Toolkit P) where
  -- The value within the limits.
  abbrev pub limited : OcAdjustment P → P.F64 → P.F64
  limited a v = tk.clamp v a.lower a.upper a.page_size

  -- The handler of `value_changed` runs where the value is another one.
  unfoldable pub set_value : P.F64 → OcAdjustment P → OcAdjustment P
  set_value v a = record a {
    value = limited a v;
    changed = a.changed || not (P.f64.eq (limited a v) a.value);
  }

  unfoldable pub set_initial_value : P.F64 → OcAdjustment P → OcAdjustment P
  unfolding set_value
  set_initial_value v a = record (set_value v a) { changed = false }

module _ {P : Platform} where
  abbrev pub set_lower : P.F64 → OcAdjustment P → OcAdjustment P
  set_lower v a = record a { lower = v }

  abbrev pub set_upper : P.F64 → OcAdjustment P → OcAdjustment P
  set_upper v a = record a { upper = v }

  abbrev pub filtered : OcAdjustment P → Bool → Option P.F64
  filtered a filter_zero =
      if filter_zero && P.f64.eq a.value (P.f64.of_decimal 0 1) then none else some a.value

  unfoldable pub get_changed_value : Bool → OcAdjustment P → Option P.F64
  get_changed_value filter_zero a = if a.changed then filtered a filter_zero else none

  unfoldable pub get_nonzero_value : OcAdjustment P → Option P.F64
  get_nonzero_value a = filtered a true
