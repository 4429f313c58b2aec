-- ===== src/Docker/Fixed.antt =====
-- An engine for tests, whose objects never change.
use tx.Base.{true, Option, none, some, [], ◌∷◌}
use tx.Decimal.{pos}
use tx.Docker.{Engine, World, Reply, done, not_found, Labels, ContainerInfo, ContainerSpec}
use tx.Text.{Text, codes}

abbrev pub labels_of : Text → Labels
labels_of name = (codes "tx9", codes "1") ∷ (codes "tx9.box", name) ∷ []

-- What an engine replies that has one answer to each kind of call.
abbrev pub fixed_engine :
    Option Text → Reply Labels → Reply (Unit {0}) → (ContainerSpec → Reply Text) → Engine
fixed_engine owner volumes removal creation = record {
  State = Unit {0};
  list_box_containers = λ s. (done [], s);
  container_inspect = λ ref s. (container_of owner ref, s);
  network_inspect = λ ref s. (not_found, s);
  volume_inspect = λ ref s. (volumes, s);
  container_remove = λ ref s. (removal, s);
  network_remove = λ ref s. (removal, s);
  volume_remove = λ ref s. (removal, s);
  network_create = λ name labels s. (done (codes "net"), s);
  volume_create = λ name labels s. (done name, s);
  container_create = λ spec s. (creation spec, s);
  container_start = λ id s. (done tt, s);
  container_stop = λ id s. (done tt, s);
  container_update_resources = λ id limits s. (done tt, s);
  remove_box_env = λ name s. (done tt, s);
  remove_env_file = λ name s. (removal, s);
  read_box_env = λ name s. (done [], s);
  write_box_env = λ name env s. (done tt, s);
  read_boxes_dir = λ s. (done [], s);
  exec = λ id cmd user s. (done (record { stdout = []; stderr = []; exit_code = 0 }), s);
  run_ephemeral = λ opts s. (done 0, s);
  image_list = λ reference s. (done [], s);
  image_remove = λ tag s. (removal, s);
  image_exists = λ tag s. (done true, s);
  build_image = λ tag s. (done tt, s);
  acquire_lock = λ name s. (done tt, s);
  release_lock = λ name s. (done tt, s);
}
  where
    container_of : Option Text → Text → Reply ContainerInfo
    container_of none ref = not_found
    container_of (some name) ref = done (record {
      config = some (labels_of name);
      id = ref;
      image = codes "img";
      running = some true;
      host_config = some (pos 0, pos 0);
    })

abbrev pub new_world : (engine : Engine) → engine.State → World engine
new_world engine s = record { state = s; trace = [] }
