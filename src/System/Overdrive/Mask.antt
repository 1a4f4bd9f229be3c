-- ===== src/System/Overdrive/Mask.antt =====
-- The feature mask that is written, and the one that is read.
use Prim.Native.Nat.{bit_and, bit_or}
use lact.Prelude.{
  ℕ, ◌+◌, ◌^◌, ◌<◌, ◌≡◌, refl, sym, ap, subst, ◌∙◌, Bool, true, false, Option, none, some, [], ◌∷◌,
  ◌++◌, ◌==◌, if◌then◌else◌, arith, inl, inr, Option-cases, Bool-cases,
}
use mathlib.Core.Bool.{false≢true}
use lact.Prelude.Exec.{Error, Result, Result-cases, ok, err, is_ok, msg}
use lact.Prelude.Io.{pure, raise, lift, attempt, in_context, ◌>>=◌, ◌>>◌, bind_ok, bind_step}
use lact.System.Bits.{or_bit, and_bit, or_idem, or_fits}
use lact.System.Text.{Text, codes, strip_prefix, trim, parse_hex, format_hex}
use lact.System.Text.Hex.{parse-format, trim-format, parse_hex_fits}
use lact.System.Host.{Host, Machine, Io}
use lact.System.Initramfs.{InitramfsType, regenerate_initramfs}
use lact.System.Overdrive.{
  Message, pp_overdrive_mask, mask_of, mask_digits, conf_of, read_current_mask, ensure_not_toggled,
  create_conf, write_conf, finish_toggle, regenerate, enable_overdrive,
}
use lact.System.Overdrive.Kept.{Upholds-regenerate_initramfs}

-- A mask on a line of its own is read as it is.
pub mask_of-format :
    (mask : ℕ) → mask < 2 ^ 64 → mask_of (codes "0x" ++ (format_hex mask ++ 10 ∷ [])) ≡ ok mask
unfolding mask_of strip_prefix
mask_of-format mask fits = rw (trim-format mask) (rw (parse-format mask fits) refl)

-- The new mask has the bit, keeps the others, and fits.
pub with_overdrive :
    (mask : ℕ)
    → mask < 2 ^ 64
    → (bit_or mask pp_overdrive_mask == mask) ≡ false
    → (bit_or mask pp_overdrive_mask ≡ mask + pp_overdrive_mask)
      × (0 < bit_and (bit_or mask pp_overdrive_mask) pp_overdrive_mask)
      × (bit_or mask pp_overdrive_mask < 2 ^ 64)
with_overdrive mask fits new = elim (and_bit 14 mask) [
  | inl e ↦ (
    omega (arith, or_bit 14 mask),
    omega (arith, or_bit 14 (bit_or mask (2 ^ 14)), or_idem 14 mask),
    or_fits 64 mask (2 ^ 14) fits (omega arith),
  )
  | inr e ↦ absurd (ground (arith, or_bit 14 mask))
]

mask_digits_fits : (digits : Option Text) (mask : ℕ) → mask_digits digits ≡ ok mask → mask < 2 ^ 64
mask_digits_fits none mask e = absurd (ground arith)
mask_digits_fits (some digits) mask e = elim (Option-cases (parse_hex digits)) [
  | inl p ↦ absurd (ground arith)
  | inr (n, p) ↦ ground (arith, parse_hex_fits digits n p)
]

module _ (host : Host) where
  current_fits : (mask : ℕ) → read_current_mask host ≡ ok mask → mask < 2 ^ 64
  unfolding read_current_mask
  current_fits mask e = from host.feature_mask e
    where
      from :
          (r : Result Text)
          → (elim r as (λ x. Result ℕ) [ err e ↦ err e | ok contents ↦ mask_of contents ]) ≡ ok mask
          → mask < 2 ^ 64
      from (err e) p = absurd (ground arith)
      from (ok contents) p = mask_digits_fits (strip_prefix (codes "0x") (trim contents)) mask p

  finish_keeps :
      (r : Result InitramfsType) (m : Machine)
      → (finish_toggle host r m).1.module_conf ≡ m.module_conf
  unfolding finish_toggle pure ◌>>=◌
  finish_keeps (ok t) m = refl
  finish_keeps (err e) m = refl

  regenerate_keeps : (m : Machine) → (regenerate host m).1.module_conf ≡ m.module_conf
  unfolding regenerate attempt ◌>>=◌
  regenerate_keeps m =
      finish_keeps (regenerate_initramfs host m).0 (regenerate_initramfs host m).1
      ∙ ((Upholds-regenerate_initramfs host m.oc_toggled m.module_conf).after m (refl, refl)).1

  not_toggled : (m : Machine) → m.oc_toggled ≡ false → ensure_not_toggled host m ≡ (ok tt, m)
  unfolding ensure_not_toggled
  not_toggled m e = ground arith

  lifted : {A : Type 0} {r : Result A} {a : A} (m : Machine) → r ≡ ok a → lift r m ≡ (ok a, m)
  unfolding lift
  lifted m e = rw e

  module _ (m : Machine) (mask : ℕ) (fresh : m.oc_toggled ≡ false)
      (read : read_current_mask host ≡ ok mask) where
    abbrev if_new : Io (Unit {0})
    if_new =
        if bit_or mask pp_overdrive_mask == mask
        then raise (msg "Overdrive mask already enabled")
        else pure tt

    first_steps :
        {A : Type 0} (rest : ℕ → Io A)
        → (ensure_not_toggled host >> (lift (read_current_mask host) >>= rest)) m ≡ rest mask m
    first_steps rest =
        bind_step (ensure_not_toggled host) _ m tt m (not_toggled m fresh)
        ∙ bind_step (lift (read_current_mask host)) rest m mask m (lifted m read)

  module _ {A : Type 0} (e : Error) (k : Io A) (m : Machine) where
    guard_fails : (b : Bool) → b ≡ true → ((if b then raise e else pure tt) >> k) m ≡ (err e, m)
    unfolding raise ◌>>=◌
    guard_fails b p = rw p refl

    guard_goes_on : (b : Bool) → b ≡ false → ((if b then raise e else pure tt) >> k) m ≡ k m
    unfolding pure ◌>>=◌
    guard_goes_on b p = rw p refl

  abbrev write_new : Text → Io Message
  write_new conf = do
    in_context "Could not open module conf file" (create_conf host)
    in_context "Could not conf file permissions" (lift host.set_permissions)
    in_context "Could not write config" (write_conf host conf)
    regenerate host

  ok_after :
      {A : Type 0} {r r' : Result A × Machine} → r ≡ r' → is_ok r.0 ≡ true → is_ok r'.0 ≡ true
  ok_after q p = subst (λ x. is_ok x.0 ≡ true) q p

  wrote :
      (conf : Text) (m : Machine) (u : Unit {0})
      → (in_context "Could not write config" (write_conf host conf) m).0 ≡ ok u
      → (host.write_all conf).0 ≡ ok tt
  unfolding in_context write_conf
  wrote conf m u e = elim (Result-cases ((host.write_all conf).0)) [
    | inl (v, p) ↦ p
    | inr (er, p) ↦ absurd (ground arith)
  ]

  module _
      (truthful : (text : Text)
        → (host.write_all text).0 ≡ ok tt
        → (host.write_all text).1 ≡ text) where
    write_new_lem :
        (conf : Text) (m : Machine)
        → is_ok (write_new conf m).0 ≡ true
        → (write_new conf m).1.module_conf ≡ some conf
    unfolding in_context write_conf
    write_new_lem conf m p =
        let create = in_context "Could not open module conf file" (create_conf host) in
        let permit = in_context "Could not conf file permissions" (lift host.set_permissions) in
        let write = in_context "Could not write config" (write_conf host conf) in
        let (u1, (e1, q1)) = bind_ok create _ m p in
        let s1 : Machine = (create m).1 in
        let p1 = ok_after q1 p in
        let (u2, (e2, q2)) = bind_ok permit _ s1 p1 in
        let s2 : Machine = (permit s1).1 in
        let p2 = ok_after q2 p1 in
        let (u3, (e3, q3)) = bind_ok write _ s2 p2 in
        let kept = regenerate_keeps (write s2).1 in
        subst (λ r. r.1.module_conf ≡ some conf) (sym (q1 ∙ q2 ∙ q3))
          (kept ∙ ap some (truthful conf (wrote conf s2 u3 e3)))

  -- On a machine where overdrive was not toggled since it was started, whose mask can be read, and
  -- where a successful write has written its text: if `enable_overdrive` succeeds, the overdrive
  -- bit was not set in the mask, the module's options file holds the option with the mask plus that
  -- bit, this new mask is read back from its hexadecimal form, and the bit is set in it.
  pub enable_overdrive_lem :
      (m : Machine) (mask : ℕ)
      → m.oc_toggled ≡ false
      → read_current_mask host ≡ ok mask
      → ((text : Text) → (host.write_all text).0 ≡ ok tt → (host.write_all text).1 ≡ text)
      → is_ok (enable_overdrive host m).0 ≡ true
      → let new = mask + pp_overdrive_mask in
        (bit_and mask pp_overdrive_mask ≡ 0)
        × ((enable_overdrive host m).1.module_conf ≡ some (conf_of new))
        × (mask_of (codes "0x" ++ (format_hex new ++ 10 ∷ [])) ≡ ok new)
        × (0 < bit_and new pp_overdrive_mask)
  unfolding enable_overdrive
  enable_overdrive_lem m mask fresh read truthful done =
      let old_mask : Error = msg "Overdrive mask already enabled" in
      let test = bit_or mask pp_overdrive_mask == mask in
      let write = write_new (conf_of (bit_or mask pp_overdrive_mask)) in
      let q = first_steps m mask fresh read _ in
      elim (Bool-cases test) [
        | inl old ↦ absurd (false≢true (ok_after (q ∙ guard_fails old_mask write m test old) done))
        | inr new ↦
            let q' = q ∙ guard_goes_on old_mask write m test new in
            let (sum, set, fits) = with_overdrive mask (current_fits mask read) new in
            let conf =
              write_new_lem truthful (conf_of (bit_or mask pp_overdrive_mask)) m
                (ok_after q' done) in
            let new_mask = bit_or mask pp_overdrive_mask in
            let written = subst (λ r. r.1.module_conf ≡ some (conf_of new_mask)) (sym q') conf in
            let (now, reads, shows) =
              subst
                (λ n.
                  ((enable_overdrive host m).1.module_conf ≡ some (conf_of n))
                  × (mask_of (codes "0x" ++ (format_hex n ++ 10 ∷ [])) ≡ ok n)
                  × (0 < bit_and n pp_overdrive_mask))
                sum (written, mask_of-format new_mask fits, set) in
            (omega (arith, or_bit 14 mask), now, reads, shows)
      ]
