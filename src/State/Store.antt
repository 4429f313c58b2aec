-- ===== src/State/Store.antt =====
-- WriteBoxEnv's way to the disk: a temporary file that is renamed. Whether a call of the operating
-- system succeeds, and what a failed write leaves in the temporary file, is a parameter.
use tx.Base.{
  not, Bool-cases, ◌≡◌, ◌⊎◌, refl, inl, inr, Bool, Option, none, some, List, [], ◌∷◌, All, Result,
  ok, err, if◌then◌else◌,
}
use tx.State.{Env, print_env}
use tx.Text.{Text}

-- The env file of the box, and the temporary file.
pub record Files : Type 0 where
  pub env_file : Option Text
  pub temp_file : Option Text

pub record Outcomes : Type 0 where
  pub creates : Bool
  pub writes : Bool
  pub syncs : Bool
  pub closes : Bool
  pub renames : Bool
  -- What is in the temporary file after a write that failed.
  pub partly_written : Text

pub data WriteFault : Type 0 where
  not_created not_written not_synced not_closed not_renamed : WriteFault

-- The states of the files after each call, newest first.
abbrev pub Run : Type 0
Run = Result WriteFault (Unit {0}) × List Files

abbrev with_temp : Files → Option Text → Files
with_temp fs t = record { env_file = fs.env_file; temp_file = t }

-- The deferred removal of the temporary file.
unfoldable pub give_up : WriteFault → Files → List Files → Run
give_up e fs before = (err e, with_temp fs none ∷ before)

unfoldable pub write_box_env : Outcomes → Env → Files → Run
unfolding give_up
write_box_env o env fs =
    let contents = print_env env in
    let created = with_temp fs (some []) in
    let partial = with_temp fs (some o.partly_written) in
    let written = with_temp fs (some contents) in
    let renamed : Files = record { env_file = some contents; temp_file = none } in
    if not o.creates
    then (err not_created, fs ∷ [])
    else if not o.writes
    then give_up not_written fs (partial ∷ created ∷ fs ∷ [])
    else if not o.syncs
    then give_up not_synced fs (written ∷ created ∷ fs ∷ [])
    else if not o.closes
    then give_up not_closed fs (written ∷ created ∷ fs ∷ [])
    else if not o.renames
    then give_up not_renamed fs (written ∷ created ∷ fs ∷ [])
    else (ok tt, renamed ∷ written ∷ created ∷ fs ∷ [])

-- The env file as the last state has it.
abbrev pub last_env : Files → List Files → Option Text
last_env fs [] = fs.env_file
last_env fs (s ∷ ss) = s.env_file

abbrev pub IsOldOrNew : Env → Files → Files → Type 0
IsOldOrNew env fs s = (s.env_file ≡ fs.env_file) ⊎ (s.env_file ≡ some (print_env env))

-- At every moment of WriteBoxEnv, whichever call fails, the env file is the old one or the whole
-- new one; and at the end it is the old
-- one if WriteBoxEnv fails and the new one if it succeeds.
pub write_box_env-atomic :
    (o : Outcomes) (env : Env) (fs : Files)
    → All (IsOldOrNew env fs) (write_box_env o env fs).1
      × ((e : WriteFault)
          → (write_box_env o env fs).0 ≡ err e
          → last_env fs (write_box_env o env fs).1 ≡ fs.env_file)
      × ((write_box_env o env fs).0 ≡ ok tt
          → last_env fs (write_box_env o env fs).1 ≡ some (print_env env))
unfolding write_box_env
write_box_env-atomic o env fs = elim (Bool-cases o.creates) [
  | inr a ↦ rw a ((inl refl, tt), λ e h. refl, λ h. cc)
  | inl a ↦ elim (Bool-cases o.writes) [
    | inr b ↦ rw (a, b) ((inl refl, (inl refl, (inl refl, (inl refl, tt)))), λ e h. refl, λ h. cc)
    | inl b ↦ elim (Bool-cases o.syncs) [
      | inr c ↦
          rw (a, b, c) ((inl refl, (inl refl, (inl refl, (inl refl, tt)))), λ e h. refl, λ h. cc)
      | inl c ↦ elim (Bool-cases o.closes) [
        | inr d ↦
            rw (a, b, c, d)
              ((inl refl, (inl refl, (inl refl, (inl refl, tt)))), λ e h. refl, λ h. cc)
        | inl d ↦ elim (Bool-cases o.renames) [
          | inr f ↦
              rw (a, b, c, d, f)
                ((inl refl, (inl refl, (inl refl, (inl refl, tt)))), λ e h. refl, λ h. cc)
          | inl f ↦
              rw (a, b, c, d, f)
                ((inr refl, (inl refl, (inl refl, (inl refl, tt)))), λ e h. cc, λ h. refl)
        ]
      ]
    ]
  ]
]
