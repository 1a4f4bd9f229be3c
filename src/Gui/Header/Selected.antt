-- ===== src/Gui/Header/Selected.antt =====
-- The selector of the profile shows the daemon's profile.
use lact.Prelude.{
  ℕ, suc, String, ◌≡◌, refl, ap, none, some, [], ◌∷◌, str_eq, eq_iff, arith, Option-cases,
  Bool-cases, inl, inr,
}
use lact.Prelude.Dict.{Dict, get, keys}
use lact.Config.{Profile, gpus}
use lact.Handler.State.{Env, Handler}
use lact.Handler.Profiles.{list_profiles}
use lact.Handler.Profiles.Valid.{IsReadable}
use lact.Gui.Header.{
  Header, default, profile, item, position, items_of, show_profiles, selected_profile,
}

position-item :
    {V : Type 0} (d : Dict String V) (name : String) (v : V)
    → get str_eq d name ≡ some v
    → (i : ℕ) × (position (keys d) name ≡ some i)
      × (item (items_of (keys d)) i ≡ some (profile name))
unfolding get position item items_of
position-item [] name v p = absurd (ground arith)
position-item ((k, w) ∷ d) name v p = elim (Bool-cases (str_eq k name)) [
  | inl q ↦ (0, rw q refl, ap (λ n. some (profile n)) ((eq_iff k name).0 q))
  | inr q ↦
      let (i, found, shown) = position-item d name v (ground arith) in
      (suc i, rw q (rw found refl), shown)
]

module _ (E : Env) where
  abbrev Shows : Handler E → Header → Type 0
  Shows h header =
      (after : Header) × (show_profiles (list_profiles E h) header ≡ some after)
      × (selected_profile after ≡ some h.config.current_profile)

  -- The selector with all profiles, and the one of a number selected.
  abbrev filled : Handler E → Header → ℕ → Header
  filled h header i = record header {
    profiles = default ∷ items_of (keys h.config.profiles);
    selected_profile_index = i;
  }

  Shows-default :
      (h : Handler E) (header : Header) → h.config.current_profile ≡ none → Shows h header
  unfolding show_profiles selected_profile item list_profiles
  Shows-default h header p = (filled h header 0, rw p refl, rw p refl)

  Shows-profile :
      (h : Handler E) (header : Header) (name : String) (v : Profile E.platform)
      → h.config.current_profile ≡ some name
      → get str_eq h.config.profiles name ≡ some v
      → Shows h header
  unfolding show_profiles selected_profile item list_profiles
  Shows-profile h header name v p q =
      let (i, found, shown) = position-item h.config.profiles name v q in
      (filled h header (suc i), rw p (rw (found, show_profiles) refl), rw shown (rw p refl))

  -- Where the settings of the daemon's selected profile can be read, the header takes the daemon's
  -- list of profiles without a panic, and then shows that profile, or the default, as the selected
  -- one.
  pub selected_profile-show_profiles :
      (h : Handler E) (header : Header)
      → IsReadable h.config
      → (after : Header) × (show_profiles (list_profiles E h) header ≡ some after)
        × (selected_profile after ≡ some h.config.current_profile)
  unfolding gpus
  selected_profile-show_profiles h header readable = elim (Option-cases h.config.current_profile) [
    | inl p ↦ Shows-default h header p
    | inr (name, p) ↦ elim (Option-cases (get str_eq h.config.profiles name)) [
      | inl missing ↦ absurd (ground arith)
      | inr (v, q) ↦ Shows-profile h header name v p q
    ]
  ]
