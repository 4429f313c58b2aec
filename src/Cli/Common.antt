-- ===== src/Cli/Common.antt =====
-- withBoxLock and ensureBoxImage (internal/cli/box_common.go) and generateFreshBoxName
-- (internal/cli/cmd_create.go). The version is version.Version, set by the build.
use tx.Base.{ℕ, zero, suc, Bool, true, false, List, ◌∷◌, ◌++◌, Result, ok, err}
use tx.Box.Create.{needed}
use tx.Box.{Fault, bad_name, objects_exist, no_fresh_name}
use tx.Docker.Exec.{
  Exec, pure, raise, lift, ◌>>=◌, acquire_lock, release_lock, image_exists, build_image,
}
use tx.Docker.{Engine, Reply, done, not_found, failed}
use tx.Names.{NameFault, Rand, generate}
use tx.Text.{Text, codes}

-- fmt.Sprintf("tx9-box:%s", version.Version)
unfoldable pub image_tag : Text → Text
image_tag version = codes "tx9-box:" ++ version

unfoldable pub generated : Result NameFault Text → Result Fault Text
generated (ok name) = ok name
generated (err f) = err (bad_name f)

-- errors.Is(err, box.ErrObjectsExist)
unfoldable pub is_objects_exist : Fault → Bool
is_objects_exist (objects_exist kind ref) = true
is_objects_exist _ = false

module _ (engine : Engine) where
  -- An action whose error is looked at.
  abbrev pub attempt : {E A : Type 0} → Exec engine Fault A → Exec engine E (Result Fault A)
  attempt m w = let (r, w') = m w in (ok r, w')

  -- What runs under a lock that is held; `defer release()` runs however it ends.
  unfoldable pub under_lock : {E A : Type 0} → Text → Exec engine E A → Exec engine E A
  under_lock {E} name body w =
      let (r, w') = body w in let (released, w'') = release_lock engine {E = E} name w' in (r, w'')

  unfoldable pub locked :
      {E A : Type 0} → E → Text → Exec engine E A → Reply (Unit {0}) → Exec engine E A
  locked busy name body (done u) = under_lock name body
  locked busy name body not_found = raise busy
  locked busy name body failed = raise busy

  -- withBoxLock, with the error of a lock that cannot be taken; that the Docker client connects is
  -- left out.
  unfoldable pub with_box_lock : {E A : Type 0} → E → Text → Exec engine E A → Exec engine E A
  with_box_lock busy name body = do reply ← acquire_lock engine name; locked busy name body reply

  unfoldable pub built : Text → Bool → Exec engine Fault (Unit {0})
  built tag true = pure tt
  built tag false = do reply ← build_image engine tag; lift (needed reply)

  unfoldable pub ensure_box_image : Text → Exec engine Fault (Unit {0})
  ensure_box_image tag = do
    reply ← image_exists engine tag
    have_image ← lift (needed reply)
    built tag have_image

  -- A name whose objects exist is put aside, and the loop goes on.
  unfoldable pub fresh_or :
      Text → Exec engine Fault Text → Result Fault (Unit {0}) → Exec engine Fault Text
  fresh_or name next (ok u) w = (ok name, w)
  fresh_or name next (err f) w = elim (is_objects_exist f) [ true ↦ next w | false ↦ (err f, w) ]

  unfoldable pub fresh_rounds :
      ℕ → (ℕ → Rand) → (Text → Exec engine Fault (Unit {0})) → List Text → Exec engine Fault Text
  fresh_rounds zero rands preflight taken = raise no_fresh_name
  fresh_rounds (suc rounds) rands preflight taken = do
    name ← lift (generated (generate (rands rounds) taken))
    checked ← attempt (preflight name)
    fresh_or name (fresh_rounds rounds rands preflight (name ∷ taken)) checked

  -- The random numbers of each round are a parameter.
  unfoldable pub generate_fresh_box_name :
      (ℕ → Rand) → (Text → Exec engine Fault (Unit {0})) → List Text → Exec engine Fault Text
  generate_fresh_box_name = fresh_rounds 100
