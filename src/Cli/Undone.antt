-- ===== src/Cli/Undone.antt =====
-- An import that fails destroys what it created.
use tx.Base.{◌≡◌, refl, err, Result-cases, inl, inr}
use tx.Box.Create.{start}
use tx.Box.Destroy.{destroy}
use tx.Cli.Common.{image_tag}
use tx.Cli.Import.{of_box, or_destroy, destroying, restore, create_and_restore}
use tx.Cli.Restored.{ImportFault, ImportFiles, ImportOptions}
use tx.Docker.Exec.{Exec, continue}
use tx.Docker.{Engine, World}
use tx.Mounts.{Host}
use tx.Text.{Text}

module _ (engine : Engine) where
  destroying-fails :
      {A : Type 0} (name : Text) (m : Exec engine ImportFault A) (w : World engine)
      {f : ImportFault}
      → (destroying engine name m w).0 ≡ err f
      → (destroying engine name m w).1 ≡ (destroy engine name (m w).1).1
  unfolding destroying or_destroy
  destroying-fails name m w e = elim (Result-cases (m w).0) [
    | inl (a, r) ↦ absurd (cc (rw (r, destroying, or_destroy) at e))
    | inr (f, r) ↦ rw (r, destroying, or_destroy) refl
  ]

  -- The run ended with Destroy.
  unfoldable pub EndsDestroyed : Text → World engine → Type 0
  EndsDestroyed name after = (v : World engine) × (after ≡ (destroy engine name v).1)

  continue-fails :
      {A B : Type 0} (name : Text) (m : Exec engine ImportFault A) (w : World engine)
      (next : A → Exec engine ImportFault B) {f : ImportFault}
      → ((a : A) (v : World engine) → (next a v).0 ≡ err f → EndsDestroyed name (next a v).1)
      → (continue (destroying engine name m w).0 next (destroying engine name m w).1).0 ≡ err f
      → EndsDestroyed name
          (continue (destroying engine name m w).0 next (destroying engine name m w).1).1
  unfolding EndsDestroyed
  continue-fails name m w next h e = elim (Result-cases (destroying engine name m w).0) [
    | inl (a, r) ↦ rw r (h a (destroying engine name m w).1 (rw r at e))
    | inr (g, r) ↦ rw r ((m w).1, destroying-fails name m w r)
  ]

  -- When an import fails from Create on, the last thing that it has done is to destroy the box.
  pub create_and_restore-EndsDestroyed :
      (host : Host) (files : ImportFiles) (opts : ImportOptions) (name tok : Text)
      (w : World engine) (f : ImportFault)
      → (create_and_restore engine host files opts name tok w).0 ≡ err f
      → EndsDestroyed name (create_and_restore engine host files opts name tok w).1
  unfolding create_and_restore
  create_and_restore-EndsDestroyed host files opts name tok w f e =
      continue-fails name _ w _
        (λ b v.
          continue-fails name (restore engine files name (image_tag opts.version)) v _ (λ u v'.
            continue-fails name (of_box engine (start engine b)) v' _
              (λ u' v'' bad. absurd (cc bad))))
        e
