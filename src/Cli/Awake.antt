-- ===== src/Cli/Awake.antt =====
-- The runs of hb that wake a box, once it was seen to be active.
use tx.Base.{
  arith, ℕ, zero, suc, ◌+◌, Bool, true, false, ◌≡◌, refl, List, [], ◌∷◌, ok, Bool-cases,
  Result-cases, inl, inr,
}
use tx.Box.Backed.{any_event}
use tx.Box.Runtime.{hb, hb_up, prepare_runtime, agent_quiesced, quiesce_script}
use tx.Box.{Box}
use tx.Cli.Gentle.{says_active, roused, IsGentle, IsGentle-refl, exec_ran-IsGentle}
use tx.Docker.Exec.{call}
use tx.Docker.Keeps.{continue-keeps}
use tx.Docker.{Engine, World, Event}
use tx.Text.{Text, codes, text_eq, text_eq_refl, is_empty}

module _ (engine : Engine) (b : Box) (tok : Text) where
  pub agent_quiesced-IsGentle :
      (w : World engine) → IsGentle w.trace (agent_quiesced engine b tok w).1.trace
  unfolding agent_quiesced call text_eq
  agent_quiesced-IsGentle w = elim (Bool-cases (is_empty b.agent_id)) [
    | inl missing ↦ rw (missing, agent_quiesced) (IsGentle-refl w.trace)
    | inr there ↦ rw (there, agent_quiesced) (exec_ran-IsGentle _ _ _ w.trace refl)
  ]

  -- The answer that the box is not quiesced is the answer of a check.
  pub agent_quiesced-active :
      (w : World engine)
      → (agent_quiesced engine b tok w).0 ≡ ok false
      → any_event says_active (agent_quiesced engine b tok w).1.trace ≡ true
  unfolding agent_quiesced call any_event
  agent_quiesced-active w e = elim (Bool-cases (is_empty b.agent_id)) [
    | inl missing ↦ absurd (cc (rw (missing, agent_quiesced) at e))
    | inr there ↦
        rw (there, agent_quiesced, rw (there, agent_quiesced) at e, text_eq_refl quiesce_script)
          refl
  ]

  -- Once a check has said so, `hb` may run.
  pub record IsAwake (t : List Event) : Type 0 where
    pub is_roused : roused t ≡ true
    pub was_active : any_event says_active t ≡ true

  hb-IsAwake :
      (args : List Text) (w : World engine)
      → IsAwake w.trace
      → IsAwake (hb engine b tok args w).1.trace
  unfolding hb call roused any_event
  hb-IsAwake args w a = elim (Bool-cases (is_empty b.agent_id)) [
    | inl missing ↦ rw (missing, hb) a
    | inr there ↦
        rw (there, hb)
          (record {
            is_roused = ground (arith, a.is_roused, a.was_active);
            was_active = ground (arith, a.was_active);
          })
  ]

  hb_up-IsAwake :
      (canceled_in : ℕ → Bool) (retries attempt : ℕ) (w : World engine)
      → IsAwake w.trace
      → IsAwake (hb_up engine canceled_in retries attempt b tok w).1.trace
  unfolding hb_up
  hb_up-IsAwake canceled_in zero attempt w a = hb-IsAwake (codes "up" ∷ []) w a
  hb_up-IsAwake canceled_in (suc retries) attempt w a =
      let tried = hb-IsAwake (codes "up" ∷ []) w a in
      elim (Result-cases (hb engine b tok (codes "up" ∷ []) w).0) [
        | inl (u, h) ↦ rw (h, hb_up) tried
        | inr (f, h) ↦ elim (Bool-cases (canceled_in attempt)) [
          | inl c ↦ rw (h, hb_up, c) tried
          | inr c ↦ rw (h, hb_up, c) (hb_up-IsAwake canceled_in retries (attempt + 1) _ tried)
        ]
      ]

  pub prepare_runtime-IsAwake :
      (canceled_in : ℕ → Bool) (w : World engine)
      → IsAwake w.trace
      → IsAwake (prepare_runtime engine canceled_in b tok w).1.trace
  unfolding prepare_runtime
  prepare_runtime-IsAwake canceled_in w a =
      let one = hb_up-IsAwake canceled_in 5 1 w a in
      continue-keeps IsAwake (hb_up engine canceled_in 5 1 b tok w) _ one (λ u.
        let two = hb-IsAwake (codes "wire-once" ∷ []) _ one in
        continue-keeps IsAwake (hb engine b tok (codes "wire-once" ∷ []) _) _ two
          (λ u'. hb-IsAwake (codes "doctor" ∷ []) _ two))
