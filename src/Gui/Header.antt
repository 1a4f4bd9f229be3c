-- ===== src/Gui/Header.antt =====
-- lact-gui/src/app/header.rs: the selectors of the card and of the profile.
pub mod Selected
use lact.Prelude.{ℕ, zero, suc, String, Option, none, some, List, [], ◌∷◌, str_eq, if◌then◌else◌}
use lact.Schema.{DeviceListEntry, ProfilesInfo}

pub data ProfileListItem : Type 0 where
  default : ProfileListItem
  profile : String → ProfileListItem

-- Each selector is its items with the number of the selected one.
pub record Header : Type 0 where
  pub gpus : List DeviceListEntry
  pub selected_gpu : ℕ
  pub profiles : List ProfileListItem
  pub selected_profile_index : ℕ

-- `TypedListView::get`
unfoldable pub item {ℓ} : {A : Type ℓ} → List A → ℕ → Option A
item [] i = none
item (a ∷ rest) zero = some a
item (a ∷ rest) (suc i) = item rest i

-- `.iter().position(|value| value == name)`
unfoldable pub position : List String → String → Option ℕ
position [] name = none
position (value ∷ rest) name =
    let later = position rest name in
    if str_eq value name then some 0 else elim later [ none ↦ none | some i ↦ some (suc i) ]

unfoldable pub items_of : List String → List ProfileListItem
items_of [] = []
items_of (name ∷ names) = profile name ∷ items_of names

abbrev selected_index : ProfilesInfo → Option ℕ
selected_index info = elim info.current_profile [
  | none ↦ some 0
  | some name ↦ elim (position info.profiles name) [ none ↦ none | some i ↦ some (suc i) ]
]

-- `HeaderMsg::Profiles`; an active profile that is not in the list is a panic.
unfoldable pub show_profiles : ProfilesInfo → Header → Option Header
unfolding position items_of
show_profiles info header = elim (selected_index info) [
  | none ↦ none
  | some i ↦
      some
        (record header { profiles = default ∷ items_of info.profiles; selected_profile_index = i })
]

abbrev id_of : Option DeviceListEntry → Option String
id_of none = none
id_of (some entry) = some entry.id

unfoldable pub selected_gpu_id : Header → Option String
unfolding item
selected_gpu_id header = id_of (item header.gpus header.selected_gpu)

unfoldable pub custom_profiles : List ProfileListItem → List String
custom_profiles [] = []
custom_profiles (default ∷ items) = custom_profiles items
custom_profiles (profile name ∷ items) = name ∷ custom_profiles items

abbrev name_of : Option ProfileListItem → Option (Option String)
name_of none = none
name_of (some default) = some none
name_of (some (profile name)) = some (some name)

-- The outer `none` is the panic of `expect`.
unfoldable pub selected_profile : Header → Option (Option String)
unfolding item
selected_profile header = name_of (item header.profiles header.selected_profile_index)
