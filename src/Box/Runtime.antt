-- ===== src/Box/Runtime.antt =====
-- HB, AgentQuiesced and PrepareRuntime (internal/box/create.go). What `hb` writes is not passed on.
use tx.Base.{
  zero, suc, ℕ, ◌+◌, ◌==◌, Bool, true, false, not, List, [], ◌∷◌, ◌++◌, if◌then◌else◌, Result, ok,
  err,
}
use tx.Box.{Box, Fault, engine_failed, missing_container, exited, unexpected_output, canceled}
use tx.Docker.Exec.{Exec, lift, ◌>>=◌, ◌>>◌, exec}
use tx.Docker.{Engine, Reply, done, not_found, failed, ExecResult}
use tx.Text.Trim.{trim_space}
use tx.Text.{Text, codes, is_empty, text_eq}

-- runuser and env, with the token that takes precedence
abbrev pub agent_env : Text → List Text
agent_env token =
    codes "runuser"
    ∷ codes "-u"
    ∷ codes "agent"
    ∷ codes "--"
    ∷ codes "env"
    ∷ codes "HOME=/data/home/agent"
    ∷ codes "EXECUTOR_HOST=executor"
    ∷ (codes "BOXD_EXECUTOR_TOKEN=" ++ token)
    ∷ []

unfoldable pub hb_command : Text → List Text → List Text
hb_command token args =
    agent_env token
    ++ ((codes "bash"
          ∷ codes "--noprofile"
          ∷ codes "--norc"
          ∷ codes "-c"
          ∷ codes ". /etc/profile.d/hermes-box.sh; exec hb \"$@\""
          ∷ codes "hb"
          ∷ [])
        ++ args)

unfoldable pub hb_result : Reply ExecResult → Result Fault (Unit {0})
hb_result (done r) = if not (r.exit_code == 0) then err (exited r.exit_code) else ok tt
hb_result not_found = err engine_failed
hb_result failed = err engine_failed

abbrev pub quiesce_script : Text
quiesce_script =
    codes
      ". /etc/profile.d/hermes-box.sh; if hb is-paused; then echo paused; else rc=$?; [ \"$rc\" -eq 1 ] && echo active || exit \"$rc\"; fi"

unfoldable pub quiesced_output : Text → Result Fault Bool
quiesced_output out =
    if text_eq out (codes "paused")
    then ok true
    else if text_eq out (codes "active")
    then ok false
    else err (unexpected_output out)

unfoldable pub quiesced_result : Reply ExecResult → Result Fault Bool
quiesced_result (done r) =
    if not (r.exit_code == 0)
    then err (exited r.exit_code)
    else quiesced_output (trim_space r.stdout)
quiesced_result not_found = err engine_failed
quiesced_result failed = err engine_failed

module _ (engine : Engine) where
  unfoldable pub hb : Box → Text → List Text → Exec engine Fault (Unit {0})
  hb b token args w = elim (is_empty b.agent_id) [
    | true ↦ (err missing_container, w)
    | false ↦
        (exec engine b.agent_id (hb_command token args) [] >>= λ reply. lift (hb_result reply)) w
  ]

  unfoldable pub agent_quiesced : Box → Text → Exec engine Fault Bool
  agent_quiesced b token w = elim (is_empty b.agent_id) [
    | true ↦ (err missing_container, w)
    | false ↦
        (exec engine b.agent_id
              (agent_env token
                ++ (codes "bash"
                    ∷ codes "--noprofile"
                    ∷ codes "--norc"
                    ∷ codes "-c"
                    ∷ quiesce_script
                    ∷ []))
              (codes "root")
            >>= λ reply. lift (quiesced_result reply))
          w
  ]

  module _ (canceled_in : ℕ → Bool) where
    -- The loop of `hb up`, with the attempts that may follow this one; `canceled_in` tells whether
    -- the context ends in the wait after an attempt.
    unfoldable pub hb_up : ℕ → ℕ → Box → Text → Exec engine Fault (Unit {0})
    hb_up zero attempt b token w = hb b token (codes "up" ∷ []) w
    hb_up (suc retries) attempt b token w =
        let (r, w') = hb b token (codes "up" ∷ []) w in
        elim r [
          | ok u ↦ (ok u, w')
          | err e ↦ elim (canceled_in attempt) [
            | true ↦ (err canceled, w')
            | false ↦ hb_up retries (attempt + 1) b token w'
          ]
        ]

    unfoldable pub prepare_runtime : Box → Text → Exec engine Fault (Unit {0})
    prepare_runtime b token = do
      hb_up 5 1 b token
      hb b token (codes "wire-once" ∷ [])
      hb b token (codes "doctor" ∷ [])
