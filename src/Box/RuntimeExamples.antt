-- ===== src/Box/RuntimeExamples.antt =====
-- Runs of PrepareRuntime and RecreateAgent on engines for tests.
use tx.Base.{◌≡◌, refl, false, Option, none, some, [], ok, ◌<◌}
use tx.Box.Ready.{IsReady, prepare_runtime-IsReady}
use tx.Box.Recreate.{recreate_agent}
use tx.Box.Runtime.{hb, hb_up, hb_result, hb_command, prepare_runtime}
use tx.Box.Stopped.{runs, recreate_agent-stopped}
use tx.Box.{Box}
use tx.Decimal.{pos}
use tx.Docker.Exec.{call}
use tx.Docker.Fixed.{labels_of, fixed_engine, new_world}
use tx.Docker.{Engine, ContainerInfo, done, failed}
use tx.Mounts.{Host, FileInfo}
use tx.Text.{codes, is_empty}

abbrev fox_box : Box
fox_box = record {
  name = codes "fox";
  agent_id = codes "a1";
  executor_id = codes "e1";
  agent_state = codes "exited";
  executor_state = codes "exited";
  executor_web_base_url = [];
  version = codes "1.0";
}

abbrev stopped_fox : ContainerInfo
stopped_fox = record {
  config = some (labels_of (codes "fox"));
  id = codes "a1";
  image = codes "img";
  running = some false;
  host_config = some (pos 0, pos 0);
}

abbrev plain_engine : Engine
plain_engine =
    fixed_engine (some (codes "owl")) (done (labels_of (codes "fox"))) (done tt) (λ spec. failed)

abbrev stopped_engine : Engine
stopped_engine = record plain_engine { container_inspect = λ ref s. (done stopped_fox, s) }

no_perm : (info : FileInfo) → ◌≡◌ {A = Option FileInfo} none (some info) → info.perm < 512
no_perm info e = cc

abbrev bare_host : Host
bare_host = record {
  stat = λ p. none;
  perm_bits = λ p. no_perm;
  abs = λ p. some p;
  eval_symlinks = λ p. some p;
  mountinfo = none;
}

hb_runs_through :
    (prepare_runtime plain_engine (λ n. false) fox_box [] (new_world plain_engine tt)).0 ≡ ok tt
unfolding prepare_runtime hb_up hb hb_result hb_command call is_empty
hb_runs_through = refl

prepare_runtime-IsReady_example :
    IsReady fox_box [] []
      (prepare_runtime plain_engine (λ n. false) fox_box [] (new_world plain_engine tt)).1.trace
prepare_runtime-IsReady_example =
    prepare_runtime-IsReady plain_engine (λ n. false) fox_box [] (new_world plain_engine tt)
      hb_runs_through

recreate_agent-stopped_example :
    runs
      (recreate_agent stopped_engine bare_host fox_box [] [] (new_world stopped_engine tt)).1.trace
    ≡ runs []
recreate_agent-stopped_example =
    recreate_agent-stopped stopped_engine bare_host fox_box [] [] stopped_fox
      (new_world stopped_engine tt) refl refl
