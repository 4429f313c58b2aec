-- ===== src/Selfupdate/Untouched.antt =====
-- What a failed update leaves.
use tx.Base.{
  if◌then◌else◌, Bool, true, false, ◌≡◌, ◌⊎◌, refl, sym, ap, ◌∙◌, Result, ok, err, Bool-cases, inl,
  inr,
}
use tx.Selfupdate.Site.{UpdateFault}
use tx.Selfupdate.Update.{
  Options, Machine, Disk, Decision, up_to_date, install, decide, dropped, staged, renamed, opened,
  carry_out, update,
}
use tx.Text.{Text, Bytes}

-- After a failure the executable is as before, and so is the rest, unless the staged file could not
-- be removed.
abbrev pub IsUntouched : Machine → Disk → Disk → Type 0
IsUntouched m before after =
    (after.binary ≡ before.binary) × ((after.has_stage ≡ before.has_stage) ⊎ (m.can_remove ≡ false))

renamed-IsUntouched :
    (m : Machine) (latest : Text) (opts : Options) (path : Text) (r : Result UpdateFault Bytes)
    (d : Disk) {f : UpdateFault}
    → d.has_stage ≡ false
    → (renamed m latest opts path r (record { binary = d.binary; has_stage = true })).0 ≡ err f
    → IsUntouched m d
        (renamed m latest opts path r (record { binary = d.binary; has_stage = true })).1
unfolding renamed dropped
renamed-IsUntouched m latest opts path (ok content) d clean e = absurd (cc e)
renamed-IsUntouched m latest opts path (err f) d clean e = (
  refl,
  elim (Bool-cases m.can_remove) [
    | inl can ↦ inl (ap (λ c. if c then false else true) can ∙ sym clean)
    | inr cannot ↦ inr cannot
  ],
)

opened-IsUntouched :
    (m : Machine) (can : Bool) (latest : Text) (opts : Options) (path : Text)
    (r : Result UpdateFault Bytes) (d : Disk) {f : UpdateFault}
    → d.has_stage ≡ false
    → (opened m can latest opts path r d).0 ≡ err f
    → IsUntouched m d (opened m can latest opts path r d).1
unfolding opened
opened-IsUntouched m false latest opts path r d clean e = (refl, inl refl)
opened-IsUntouched m true latest opts path r d clean e =
    renamed-IsUntouched m latest opts path r d clean e

carry_out-IsUntouched :
    (m : Machine) (opts : Options) (decision : Result UpdateFault Decision) (d : Disk)
    {f : UpdateFault}
    → d.has_stage ≡ false
    → (carry_out m opts decision d).0 ≡ err f
    → IsUntouched m d (carry_out m opts decision d).1
unfolding carry_out
carry_out-IsUntouched m opts (err f) d clean e = (refl, inl refl)
carry_out-IsUntouched m opts (ok (up_to_date latest)) d clean e = (refl, inl refl)
carry_out-IsUntouched m opts (ok (install latest path url digest)) d clean e =
    opened-IsUntouched m m.can_create latest opts path (staged m url digest) d clean e

-- An update that starts without a staged file of its own and fails, for whatever reason and at
-- whatever step, leaves the executable as it was, and no staged file unless the system cannot remove
-- it.
pub update-untouched :
    (m : Machine) (opts : Options) (d : Disk) (f : UpdateFault)
    → d.has_stage ≡ false
    → (update m opts d).0 ≡ err f
    → ((update m opts d).1.binary ≡ d.binary)
      × (((update m opts d).1.has_stage ≡ d.has_stage) ⊎ (m.can_remove ≡ false))
unfolding update
update-untouched m opts d f clean e = carry_out-IsUntouched m opts (decide m opts) d clean e
