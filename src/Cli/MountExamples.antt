-- ===== src/Cli/MountExamples.antt =====
-- Mount commands on an engine for tests.
use tx.Base.{◌≡◌, refl, true, false, Option, none, some, [], ◌∷◌, ◌<◌}
use tx.Box.Saving.{MountJson}
use tx.Cli.Gentle.{roused}
use tx.Cli.Mount.{cmd_mount_add, cmd_mount_remove}
use tx.Cli.Roused.{cmd_mount-roused}
use tx.Docker.Fixed.{fixed_engine, new_world, labels_of}
use tx.Docker.{Engine, done}
use tx.Mounts.{Host, FileInfo}
use tx.Text.{codes}

-- A box that runs, with its token; every command in it comes through.
abbrev fox_engine : Engine
fox_engine =
    record (fixed_engine (some (codes "fox")) (done (labels_of (codes "fox"))) (done tt)
      (λ spec. done (codes "a2"))) {
        list_box_containers = λ s. (
          done (
              record {
                id = codes "a1";
                labels = (codes "tx9.role", codes "agent") ∷ labels_of (codes "fox");
                state = codes "running";
                image = codes "tx9-box:1.0";
                image_id = codes "i1";
              }
              ∷ []),
          s,
        );
        read_box_env = λ name s. (done ((codes "EXECUTOR_MCP_TOKEN", codes "t") ∷ []), s);
      }

no_perm : (info : FileInfo) → ◌≡◌ {A = Option FileInfo} none (some info) → info.perm < 512
no_perm info e = cc

abbrev bare_host : Host
bare_host = record {
  stat = λ p. none;
  perm_bits = λ p. no_perm;
  abs = λ p. some p;
  eval_symlinks = λ p. some p;
  mountinfo = none;
}

abbrev no_json : MountJson
no_json = record { marshal = λ mounts. some (codes "[]"); unmarshal = λ raw. some [] }

nothing_run : roused [] ≡ true
unfolding roused
nothing_run = refl

cmd_mount-roused_example :
    (roused
        (cmd_mount_add fox_engine
          (λ n. false)
          bare_host
          no_json
          (codes "fox")
          (codes "/srv")
          (codes "/mnt/srv")
          true
          false
          (new_world fox_engine tt)).1.trace
      ≡ true)
    × (roused
          (cmd_mount_remove fox_engine
            (λ n. false)
            bare_host
            no_json
            (codes "fox")
            (codes "/mnt/srv")
            (new_world fox_engine tt)).1.trace
        ≡ true)
cmd_mount-roused_example =
    cmd_mount-roused fox_engine (λ n. false) bare_host no_json (codes "fox") (codes "/srv")
      (codes "/mnt/srv") true false (new_world fox_engine tt) nothing_run
