-- ===== src/Cli/Paired.antt =====
-- A box that is quiesced and resumed in pairs, in the calls of a backup.
use tx.Base.{
  Bool, true, false, not, ◌&&◌, ◌≡◌, refl, ◌∙◌, List, [], ◌∷◌, Result, ok, err, if◌then◌else◌,
  refuse_if,
}
use tx.Archive.Format.{Json}
use tx.Archive.Gpg.{Gpg}
use tx.Box.Runtime.{hb, hb_command}
use tx.Box.{Box, Fault}
use tx.Cli.Backup.{of_box, boxed, pause, resume, quiesced, resuming, capture, backup_quiesced}
use tx.Cli.BackupFile.{file_failed, Files, BackupOptions, build_tar_script}
use tx.Docker.Exec.{call, lift, continue}
use tx.Docker.Keeps.{continue-keeps}
use tx.Docker.{Engine, World, Event, exec_ran}
use tx.Text.{Text, codes, text_eq, is_empty}

abbrev pub last_word : List Text → Text
last_word [] = []
last_word (word ∷ []) = word
last_word (word ∷ next ∷ words) = last_word (next ∷ words)

abbrev pub resumes : Event → Bool
resumes (exec_ran id cmd reply) = text_eq (last_word cmd) (codes "resume")
resumes _ = false

abbrev pub pauses : Event → Bool
pauses (exec_ran id cmd reply) = text_eq (last_word cmd) (codes "pause")
pauses _ = false

-- Whether `pause` was run and `resume` not since.
unfoldable pub pending : List Event → Bool
pending [] = false
pending (e ∷ es) = if resumes e then false else if pauses e then true else pending es

-- Every `resume` was run when one was pending.
unfoldable pub proper : List Event → Bool
proper [] = true
proper (e ∷ es) = (if resumes e then pending es else true) && proper es

-- Nothing is pending, and every `resume` was run when one was.
pub record IsPaired (t : List Event) : Type 0 where
  pub none_pending : pending t ≡ false
  pub is_proper : proper t ≡ true

-- No `pause` and no `resume` between these calls.
pub record IsQuiet (t u : List Event) : Type 0 where
  pub same_pending : pending u ≡ pending t
  pub keeps_proper : proper t ≡ true → proper u ≡ true

IsQuiet-refl : (t : List Event) → IsQuiet t t
IsQuiet-refl t = record { same_pending = refl; keeps_proper = λ p. p }

IsQuiet-trans : {t u v : List Event} → IsQuiet t u → IsQuiet u v → IsQuiet t v
IsQuiet-trans a b = record {
  same_pending = b.same_pending ∙ a.same_pending;
  keeps_proper = λ p. b.keeps_proper (a.keeps_proper p);
}

pub IsPaired-IsQuiet : {t u : List Event} → IsQuiet t u → IsPaired t → IsPaired u
IsPaired-IsQuiet q p = record {
  none_pending = q.same_pending ∙ p.none_pending;
  is_proper = q.keeps_proper p.is_proper;
}

module _ (engine : Engine) (b : Box) (tok : Text) where
  hb-trace :
      (args : List Text) (w : World engine)
      → is_empty b.agent_id ≡ false
      → (hb engine b tok args w).1.trace
        ≡ exec_ran b.agent_id
            (hb_command tok args)
            (engine.exec b.agent_id (hb_command tok args) [] w.state).0
          ∷ w.trace
  unfolding hb call
  hb-trace args w there = rw (there, hb) refl

  pub hb-IsQuiet :
      (arg : Text) (args : List Text) (w : World engine)
      → is_empty b.agent_id ≡ false
      → text_eq (last_word (arg ∷ args)) (codes "resume") ≡ false
      → text_eq (last_word (arg ∷ args)) (codes "pause") ≡ false
      → IsQuiet w.trace (hb engine b tok (arg ∷ args) w).1.trace
  unfolding pending proper hb_command
  hb-IsQuiet arg args w there no_resume no_pause = rw (hb-trace (arg ∷ args) w there) (record {
    same_pending = rw (no_resume, no_pause) refl;
    keeps_proper = λ p. rw (no_resume, p) refl;
  })

  -- After `pause`, a resume is pending.
  record IsPausedBox (t : List Event) : Type 0 where
    is_pending : pending t ≡ true
    pub is_proper : proper t ≡ true

  IsPausedBox-IsQuiet : {t u : List Event} → IsQuiet t u → IsPausedBox t → IsPausedBox u
  IsPausedBox-IsQuiet q p = record {
    is_pending = q.same_pending ∙ p.is_pending;
    is_proper = q.keeps_proper p.is_proper;
  }

  pause-IsPausedBox :
      (w : World engine)
      → is_empty b.agent_id ≡ false
      → proper w.trace ≡ true
      → IsPausedBox (hb engine b tok (pause engine) w).1.trace
  unfolding pending proper hb_command text_eq
  pause-IsPausedBox w there p =
      rw (hb-trace (pause engine) w there) (record { is_pending = refl; is_proper = p })

  resume-IsPaired :
      (w : World engine)
      → is_empty b.agent_id ≡ false
      → IsPausedBox w.trace
      → IsPaired (hb engine b tok (resume engine) w).1.trace
  unfolding pending proper hb_command text_eq
  resume-IsPaired w there p =
      rw (hb-trace (resume engine) w there)
        (record { none_pending = refl; is_proper = rw (p.is_pending, p.is_proper) refl })

  capture-IsQuiet :
      (files : Files) (w : World engine) → IsQuiet w.trace (capture engine files b w).1.trace
  unfolding capture call pending proper build_tar_script text_eq
  capture-IsQuiet files w =
      continue-keeps (IsQuiet w.trace) (lift (refuse_if (not files.can_open_raw) file_failed) w) _
        (IsQuiet-refl w.trace) (λ u. record { same_pending = refl; keeps_proper = λ p. p })

  backup_quiesced-IsQuiet :
      (json : Json) (g : Gpg) (files : Files) (opts : BackupOptions) (passphrase : Text)
      (quiet : Result Fault (Unit {0})) (w : World engine)
      → is_empty b.agent_id ≡ false
      → IsQuiet w.trace (backup_quiesced engine json g files opts b tok passphrase quiet w).1.trace
  unfolding backup_quiesced text_eq
  backup_quiesced-IsQuiet json g files opts passphrase quiet w there =
      let keeps = IsQuiet w.trace in
      continue-keeps keeps (lift (boxed engine quiet) w) _ (IsQuiet-refl w.trace) (λ u.
        let one = hb-IsQuiet (codes "verify-state") (codes "--checkpoint" ∷ []) w there refl refl in
        continue-keeps keeps
          (of_box engine (hb engine b tok (codes "verify-state" ∷ codes "--checkpoint" ∷ [])) w) _
          one
          (λ u'.
            let two =
              IsQuiet-trans one (hb-IsQuiet (codes "write-manifest") [] _ there refl refl) in
            continue-keeps keeps (of_box engine (hb engine b tok (codes "write-manifest" ∷ [])) _) _
              two
              (λ u''.
                let three = IsQuiet-trans two (capture-IsQuiet files _) in
                continue-keeps keeps (capture engine files b _) _ three (λ raw. three))))

  -- From the quiescing on, with what it returned.
  pub resuming-IsPaired :
      (json : Json) (g : Gpg) (files : Files) (opts : BackupOptions) (passphrase : Text)
      (r : Result Fault (Unit {0})) (w : World engine)
      → is_empty b.agent_id ≡ false
      → IsPaired w.trace
      → IsPaired
          (continue
            (quiesced engine b tok r w).0
            (λ q.
              resuming engine q.0 b tok
                (backup_quiesced engine json g files opts b tok passphrase q.1))
            (quiesced engine b tok r w).1).1.trace
  unfolding quiesced resuming
  resuming-IsPaired json g files opts passphrase (ok u) w there p =
      IsPaired-IsQuiet (backup_quiesced-IsQuiet json g files opts passphrase (ok tt) w there) p
  resuming-IsPaired json g files opts passphrase (err f) w there p =
      let out = hb engine b tok (pause engine) w in
      resume-IsPaired _ there (
        IsPausedBox-IsQuiet (backup_quiesced-IsQuiet json g files opts passphrase out.0 out.1 there)
          (pause-IsPausedBox w there p.is_proper))
