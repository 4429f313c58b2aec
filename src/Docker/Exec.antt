-- ===== src/Docker/Exec.antt =====
-- Actions that call the engine and may fail: what was called before a failure stays called.
use tx.Base.{ℕ, Bool, List, ◌∷◌, Result, ok, err}
use tx.Docker.{
  Engine, World, Event, Reply, Summary, ContainerInfo, NetworkInfo, Labels, ContainerSpec, listed,
  container_inspected, network_inspected, volume_inspected, container_removed, network_removed,
  volume_removed, network_created, volume_created, container_created, container_started,
  container_stopped, resources_updated, env_removed, env_read, env_written, dir_read, exec_ran,
  ephemeral_ran, images_listed, image_removed, image_sought, image_built, lock_taken, lock_released,
  env_file_removed, ExecResult, EphemeralOpts, ImageSummary, DirEntry,
}
use tx.Decimal.{ℤ}
use tx.Dict.{Dict}
use tx.Text.{Text}

abbrev pub Exec : Engine → Type 0 → Type 0 → Type 0
Exec engine E A = World engine → Result E A × World engine

module _ {engine : Engine} {E : Type 0} where
  abbrev pub pure : {A : Type 0} → A → Exec engine E A
  pure a w = (ok a, w)

  abbrev pub raise : {A : Type 0} → E → Exec engine E A
  raise e w = (err e, w)

  abbrev pub continue : {A B : Type 0} → Result E A → (A → Exec engine E B) → Exec engine E B
  continue (ok a) f w = f a w
  continue (err e) f w = (err e, w)

  infixl 5 ◌>>=◌ ◌>>◌
  abbrev pub ◌>>=◌ : {A B : Type 0} → Exec engine E A → (A → Exec engine E B) → Exec engine E B
  ◌>>=◌ m f w = let (r, w') = m w in continue r f w'

  abbrev pub ◌>>◌ : {B : Type 0} → Exec engine E (Unit {0}) → Exec engine E B → Exec engine E B
  m >> k = m >>= λ _. k

  -- A pure step that may fail.
  abbrev pub lift : {A : Type 0} → Result E A → Exec engine E A
  lift r w = (r, w)

  -- One call of the engine, recorded.
  unfoldable pub call :
      {A : Type 0}
      → (engine.State → Reply A × engine.State)
      → (Reply A → Event)
      → Exec engine E (Reply A)
  call f event w = let (r, s) = f w.state in (ok r, record { state = s; trace = event r ∷ w.trace })

module _ (engine : Engine) {E : Type 0} where
  abbrev pub list_box_containers : Exec engine E (Reply (List Summary))
  list_box_containers = call engine.list_box_containers listed

  abbrev pub container_inspect : Text → Exec engine E (Reply ContainerInfo)
  container_inspect ref = call (engine.container_inspect ref) (container_inspected ref)

  abbrev pub network_inspect : Text → Exec engine E (Reply NetworkInfo)
  network_inspect ref = call (engine.network_inspect ref) (network_inspected ref)

  abbrev pub volume_inspect : Text → Exec engine E (Reply Labels)
  volume_inspect ref = call (engine.volume_inspect ref) (volume_inspected ref)

  abbrev pub container_remove : Text → Exec engine E (Reply (Unit {0}))
  container_remove id = call (engine.container_remove id) (λ _. container_removed id)

  abbrev pub network_remove : Text → Exec engine E (Reply (Unit {0}))
  network_remove id = call (engine.network_remove id) (λ _. network_removed id)

  abbrev pub volume_remove : Text → Exec engine E (Reply (Unit {0}))
  volume_remove name = call (engine.volume_remove name) (λ _. volume_removed name)

  abbrev pub network_create : Text → Labels → Exec engine E (Reply Text)
  network_create name labels =
      call (engine.network_create name labels) (λ _. network_created name labels)

  abbrev pub volume_create : Text → Labels → Exec engine E (Reply Text)
  volume_create name labels =
      call (engine.volume_create name labels) (λ _. volume_created name labels)

  abbrev pub container_create : ContainerSpec → Exec engine E (Reply Text)
  container_create spec = call (engine.container_create spec) (container_created spec)

  abbrev pub container_start : Text → Exec engine E (Reply (Unit {0}))
  container_start id = call (engine.container_start id) (λ _. container_started id)

  abbrev pub container_stop : Text → Exec engine E (Reply (Unit {0}))
  container_stop id = call (engine.container_stop id) (λ _. container_stopped id)

  abbrev pub container_update_resources : Text → ℤ × ℤ → Exec engine E (Reply (Unit {0}))
  container_update_resources id limits =
      call (engine.container_update_resources id limits) (resources_updated id limits)

  abbrev pub remove_box_env : Text → Exec engine E (Reply (Unit {0}))
  remove_box_env name = call (engine.remove_box_env name) (λ _. env_removed name)

  abbrev pub read_box_env : Text → Exec engine E (Reply (Dict Text))
  read_box_env name = call (engine.read_box_env name) (λ _. env_read name)

  abbrev pub write_box_env : Text → Dict Text → Exec engine E (Reply (Unit {0}))
  write_box_env name env = call (engine.write_box_env name env) (λ _. env_written name env)

  abbrev pub read_boxes_dir : Exec engine E (Reply (List DirEntry))
  read_boxes_dir = call engine.read_boxes_dir (λ _. dir_read)

  abbrev pub exec : Text → List Text → Text → Exec engine E (Reply ExecResult)
  exec id cmd user = call (engine.exec id cmd user) (exec_ran id cmd)

  abbrev pub run_ephemeral : EphemeralOpts → Exec engine E (Reply ℕ)
  run_ephemeral opts = call (engine.run_ephemeral opts) (λ _. ephemeral_ran opts)

  abbrev pub image_list : Text → Exec engine E (Reply (List ImageSummary))
  image_list reference = call (engine.image_list reference) (λ _. images_listed)

  abbrev pub image_remove : Text → Exec engine E (Reply (Unit {0}))
  image_remove tag = call (engine.image_remove tag) (λ _. image_removed tag)

  abbrev pub image_exists : Text → Exec engine E (Reply Bool)
  image_exists tag = call (engine.image_exists tag) (λ _. image_sought tag)

  abbrev pub build_image : Text → Exec engine E (Reply (Unit {0}))
  build_image tag = call (engine.build_image tag) (λ _. image_built tag)

  abbrev pub acquire_lock : Text → Exec engine E (Reply (Unit {0}))
  acquire_lock name = call (engine.acquire_lock name) (lock_taken name)

  abbrev pub release_lock : Text → Exec engine E (Reply (Unit {0}))
  release_lock name = call (engine.release_lock name) (λ _. lock_released name)

  abbrev pub remove_env_file : Text → Exec engine E (Reply (Unit {0}))
  remove_env_file name = call (engine.remove_env_file name) (env_file_removed name)
