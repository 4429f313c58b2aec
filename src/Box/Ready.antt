-- ===== src/Box/Ready.antt =====
-- What PrepareRuntime has run when it succeeds.
use tx.Base.{
  arith, ℕ, zero, suc, ◌+◌, ◌≤◌, ◌==◌, false, err, subst, Bool, Bool-cases, ◌≡◌, refl, ◌∙◌, sym, ap,
  List, [], ◌∷◌, ok, Result-cases, inl, inr,
}
use tx.Box.Runtime.{hb, hb_up, hb_result, hb_command, prepare_runtime}
use tx.Box.{Box, Fault}
use tx.Docker.Exec.{Exec, call, ◌>>◌}
use tx.Docker.Keeps.{continue-eq-ok}
use tx.Docker.{Engine, World, Event, Reply, done, not_found, failed, ExecResult, exec_ran}
use tx.Text.{Text, codes, is_empty}

hb_result-ok :
    (reply : Reply ExecResult) {u : Unit {0}}
    → hb_result reply ≡ ok u
    → (r : ExecResult) × (reply ≡ done r) × (r.exit_code ≡ 0)
unfolding hb_result
hb_result-ok (done r) e = (r, refl, ground arith)
hb_result-ok not_found e = cc
hb_result-ok failed e = cc

-- `after` is a run of `hb` with these arguments that succeeded, and then `before`.
pub record HasRun (b : Box) (token : Text) (args : List Text) (before after : List Event)
    : Type 0 where
  pub result : ExecResult
  pub call_is : after ≡ exec_ran b.agent_id (hb_command token args) (done result) ∷ before
  pub exited_with : result.exit_code ≡ 0

module _ (engine : Engine) (b : Box) (token : Text) where
  hb-HasRun :
      (args : List Text) (w : World engine) {u : Unit {0}}
      → (hb engine b token args w).0 ≡ ok u
      → HasRun b token args w.trace (hb engine b token args w).1.trace
  unfolding hb call
  hb-HasRun args w e = elim (Bool-cases (is_empty b.agent_id)) [
    | inl missing ↦ absurd (cc (rw (missing, hb) at e))
    | inr there ↦
        let (r, done_is, code) = hb_result-ok _ (rw (there, hb) at e) in
        record { result = r; call_is = rw (there, hb, done_is) refl; exited_with = code }
  ]

abbrev is_clean : Reply ExecResult → Bool
is_clean (done r) = r.exit_code == 0
is_clean not_found = false
is_clean failed = false

-- This many runs of `hb up` that failed, one after another and nothing else, lead from the calls
-- `before` to `after`.
pub data FailedUps (b : Box) (token : Text) : ℕ → List Event → List Event → Type 0 where
  none_failed : {t : List Event} → FailedUps b token 0 t t
  one_failed :
      {n : ℕ} {t u : List Event} (reply : Reply ExecResult)
      → is_clean reply ≡ false
      → FailedUps b token n (exec_ran b.agent_id (hb_command token (codes "up" ∷ [])) reply ∷ t) u
      → FailedUps b token (suc n) t u

-- Readiness: `hb up` came through after some failed attempts and nothing else, and was followed by
-- `hb wire-once` and `hb doctor`, which came through as well.
pub record IsReady (b : Box) (token : Text) (before after : List Event) : Type 0 where
  pub attempts : ℕ
  pub few_attempts : attempts ≤ 5
  pub earlier : List Event
  pub up : List Event
  pub wired : List Event
  pub have_failed : FailedUps b token attempts before earlier
  pub has_up : HasRun b token (codes "up" ∷ []) earlier up
  pub has_wired : HasRun b token (codes "wire-once" ∷ []) up wired
  pub has_doctor : HasRun b token (codes "doctor" ∷ []) wired after

hb_result-unclean :
    (reply : Reply ExecResult) {f : Fault} → hb_result reply ≡ err f → is_clean reply ≡ false
unfolding hb_result
hb_result-unclean (done r) e = ground arith
hb_result-unclean not_found e = refl
hb_result-unclean failed e = refl

module _ (engine : Engine) (canceled_in : ℕ → Bool) (b : Box) (token : Text) where
  -- A run that fails is a failed call of a box that has its container.
  hb-failed :
      (w : World engine) {f : Fault}
      → is_empty b.agent_id ≡ false
      → (hb engine b token (codes "up" ∷ []) w).0 ≡ err f
      → (reply : Reply ExecResult) × ((hb engine b token (codes "up" ∷ []) w).1.trace
          ≡ exec_ran b.agent_id (hb_command token (codes "up" ∷ [])) reply ∷ w.trace)
        × (is_clean reply ≡ false)
  unfolding hb call
  hb-failed w there e =
      let reply = (engine.exec b.agent_id (hb_command token (codes "up" ∷ [])) [] w.state).0 in
      (reply, rw (there, hb) refl, hb_result-unclean reply (rw (there, hb) at e))

  -- How `hb up` came through.
  record HasComeUp (retries : ℕ) (before after : List Event) : Type 0 where
    attempts : ℕ
    few_attempts : attempts ≤ retries
    earlier : List Event
    have_failed : FailedUps b token attempts before earlier
    has_up : HasRun b token (codes "up" ∷ []) earlier after

  came_up_now :
      (retries : ℕ) {t u : List Event}
      → HasRun b token (codes "up" ∷ []) t u
      → HasComeUp retries t u
  came_up_now retries {t} ran = record {
    attempts = 0;
    few_attempts = omega arith;
    earlier = t;
    have_failed = none_failed;
    has_up = ran;
  }

  came_up_later :
      (retries : ℕ) (reply : Reply ExecResult) {t u v : List Event}
      → is_clean reply ≡ false
      → t ≡ exec_ran b.agent_id (hb_command token (codes "up" ∷ [])) reply ∷ u
      → HasComeUp retries t v
      → HasComeUp (suc retries) u v
  came_up_later retries reply unclean at_reply up = record {
    attempts = suc up.attempts;
    few_attempts = omega (arith, up.few_attempts);
    earlier = up.earlier;
    have_failed =
        one_failed reply unclean
          (subst (λ s. FailedUps b token up.attempts s up.earlier) at_reply up.have_failed);
    has_up = up.has_up;
  }

  hb_up-HasComeUp :
      (retries attempt : ℕ) (w : World engine) {u : Unit {0}}
      → is_empty b.agent_id ≡ false
      → (hb_up engine canceled_in retries attempt b token w).0 ≡ ok u
      → HasComeUp retries w.trace (hb_up engine canceled_in retries attempt b token w).1.trace
  unfolding hb_up
  hb_up-HasComeUp zero attempt w there e =
      came_up_now 0 (hb-HasRun engine b token (codes "up" ∷ []) w e)
  hb_up-HasComeUp (suc retries) attempt w there e =
      elim (Result-cases (hb engine b token (codes "up" ∷ []) w).0) [
        | inl (u, h) ↦
            rw (h, hb_up)
              (came_up_now (suc retries) (hb-HasRun engine b token (codes "up" ∷ []) w h))
        | inr (f, h) ↦ elim (Bool-cases (canceled_in attempt)) [
          | inl c ↦ absurd (cc (rw (h, hb_up, c) at e))
          | inr c ↦
              let w' = (hb engine b token (codes "up" ∷ []) w).1 in
              let (reply, at_reply, unclean) = hb-failed w there h in
              let up = hb_up-HasComeUp retries (attempt + 1) w' there (rw (h, hb_up, c) at e) in
              rw (h, hb_up, c) (came_up_later retries reply unclean at_reply up)
        ]
      ]

  hb-there :
      (w : World engine) {u : Unit {0}}
      → (hb engine b token (codes "up" ∷ []) w).0 ≡ ok u
      → is_empty b.agent_id ≡ false
  unfolding hb
  hb-there w e = elim (Bool-cases (is_empty b.agent_id)) [
    | inl missing ↦ absurd (cc (rw (missing, hb) at e))
    | inr there ↦ there
  ]

  -- Without a container no attempt comes through.
  hb_up-there :
      (retries attempt : ℕ) (w : World engine) {u : Unit {0}}
      → (hb_up engine canceled_in retries attempt b token w).0 ≡ ok u
      → is_empty b.agent_id ≡ false
  unfolding hb_up
  hb_up-there zero attempt w e = hb-there w e
  hb_up-there (suc retries) attempt w e =
      elim (Result-cases (hb engine b token (codes "up" ∷ []) w).0) [
        | inl (u, h) ↦ hb-there w h
        | inr (f, h) ↦ elim (Bool-cases (canceled_in attempt)) [
          | inl c ↦ absurd (cc (rw (h, hb_up, c) at e))
          | inr c ↦ hb_up-there retries (attempt + 1) _ (rw (h, hb_up, c) at e)
        ]
      ]

  -- What follows once `hb up` has come through.
  wired_up : Exec engine Fault (Unit {0})
  wired_up = do hb engine b token (codes "wire-once" ∷ []); hb engine b token (codes "doctor" ∷ [])

  wired_up-HasRun :
      (w : World engine)
      → (wired_up w).0 ≡ ok tt
      → (wired : List Event) × HasRun b token (codes "wire-once" ∷ []) w.trace wired
        × HasRun b token (codes "doctor" ∷ []) wired (wired_up w).1.trace
  unfolding wired_up
  wired_up-HasRun w e =
      let out = hb engine b token (codes "wire-once" ∷ []) w in
      let (u, wired_ok, same) =
        continue-eq-ok out (λ _. hb engine b token (codes "doctor" ∷ [])) e in
      (
        out.1.trace,
        hb-HasRun engine b token (codes "wire-once" ∷ []) w wired_ok,
        rw (same)
            (hb-HasRun engine b token (codes "doctor" ∷ []) out.1 (sym (ap (λ o. o.0) same) ∙ e)),
      )

  -- When PrepareRuntime succeeds, its calls are, in this order: at most five runs of `hb up` that
  -- failed, a run of `hb up` that exited with 0, and one of `hb wire-once` and one of `hb doctor` that
  -- did so; it makes no other call.
  pub prepare_runtime-IsReady :
      (w : World engine)
      → (prepare_runtime engine canceled_in b token w).0 ≡ ok tt
      → IsReady b token w.trace (prepare_runtime engine canceled_in b token w).1.trace
  unfolding prepare_runtime wired_up
  prepare_runtime-IsReady w e =
      let out = hb_up engine canceled_in 5 1 b token w in
      let (u, up_ok, same) = continue-eq-ok out (λ _. wired_up) e in
      let up = hb_up-HasComeUp 5 1 w (hb_up-there 5 1 w up_ok) up_ok in
      let (wired, has_wired, has_doctor) = wired_up-HasRun out.1 (sym (ap (λ o. o.0) same) ∙ e) in
      record {
        attempts = up.attempts;
        few_attempts = up.few_attempts;
        earlier = up.earlier;
        up = out.1.trace;
        wired = wired;
        have_failed = up.have_failed;
        has_up = up.has_up;
        has_wired = has_wired;
        has_doctor = rw (same) has_doctor;
      }
