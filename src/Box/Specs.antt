-- ===== src/Box/Specs.antt =====
-- The options of Create and the specifications of the two containers (internal/box/create.go).
use tx.Base.{Bool, List, [], ◌∷◌, ◌++◌, if◌then◌else◌}
use tx.Dict.{insert}
use tx.Docker.{ContainerSpec, box_labels, role_agent, role_executor, label_executor_web_base_url}
use tx.Box.{agent_name, executor_name, executor_volume}
use tx.Mounts.{AgentMount}
use tx.Resources.{Resources, ContainerResources}
use tx.Text.Split.{join}
use tx.Text.{Text, codes, is_empty}

pub record ExecutorConfig : Type 0 where
  pub web_base_url : Text
  pub publish_ip : Text
  pub publish_port : Text
  pub dns : List Text

pub record CreateOpts : Type 0 where
  pub name : Text
  pub image : Text
  pub token : Text
  pub executor : ExecutorConfig
  pub resources : Resources
  pub agent_mounts : List AgentMount
  pub no_start : Bool

abbrev executor_port : Text
executor_port = codes "4788/tcp"

abbrev ipv6_disable_sysctl : List (Text × Text)
ipv6_disable_sysctl = (codes "net.ipv6.conf.all.disable_ipv6", codes "1") ∷ []

-- newAgentContainerSpecWithResources
unfoldable pub new_agent_container_spec :
    Text
    → Text
    → Text
    → Text
    → Text
    → Text
    → List Text
    → List Text
    → ContainerResources
    → ContainerSpec
unfolding is_empty
new_agent_container_spec name image token ver net_id agent_vol external_binds supplemental_groups
      resources =
    record {
      name = agent_name name;
      image = image;
      entrypoint = codes "/opt/hermes-box/bin/entrypoint" ∷ [];
      env =
          (codes "EXECUTOR_HOST=executor"
            ∷ (codes "BOXD_EXECUTOR_TOKEN=" ++ token)
            ∷ codes "BOX_EXECUTOR_BRIDGE_PORT=4788"
            ∷ codes "BOX_HERMES_BRIDGE_PORT=0"
            ∷ (codes "TX9_BOX_NAME=" ++ name)
            ∷ [])
          ++ (elim supplemental_groups [
            | [] ↦ []
            | g ∷ gs ↦ (codes "TX9_AGENT_MOUNT_GIDS=" ++ join (codes ",") (g ∷ gs)) ∷ []
          ]);
      labels = box_labels name ver role_agent;
      network_id = net_id;
      network_aliases = codes "agent" ∷ [];
      binds = (agent_vol ++ codes ":/data") ∷ external_binds;
      group_add = supplemental_groups;
      exposed_ports = [];
      port_bindings = [];
      dns = [];
      sysctls = ipv6_disable_sysctl;
      nano_cpus = resources.nano_cpus;
      memory_bytes = resources.memory_bytes;
    }

unfoldable pub executor_spec : CreateOpts → Text → Text → ContainerSpec
unfolding is_empty insert
executor_spec opts ver net_id =
    let config = opts.executor in
    let labels = box_labels opts.name ver role_executor in
    record {
      name = executor_name opts.name;
      image = opts.image;
      entrypoint = codes "/opt/hermes-box/bin/executor-entrypoint" ∷ [];
      env =
          ((codes "EXECUTOR_MCP_TOKEN=" ++ opts.token) ∷ (codes "TX9_BOX_NAME=" ++ opts.name) ∷ [])
          ++ (if is_empty config.web_base_url
              then []
              else (codes "EXECUTOR_WEB_BASE_URL=" ++ config.web_base_url) ∷ []);
      labels =
          if is_empty config.web_base_url
          then labels
          else insert label_executor_web_base_url config.web_base_url labels;
      network_id = net_id;
      network_aliases = codes "executor" ∷ [];
      binds = (executor_volume opts.name ++ codes ":/data") ∷ [];
      group_add = [];
      exposed_ports = executor_port ∷ [];
      port_bindings =
          (
            executor_port,
            (
              if is_empty config.publish_ip then codes "0.0.0.0" else config.publish_ip,
              config.publish_port,
            ),
          )
          ∷ [];
      dns = config.dns;
      sysctls = ipv6_disable_sysctl;
      nano_cpus = opts.resources.executor.nano_cpus;
      memory_bytes = opts.resources.executor.memory_bytes;
    }
