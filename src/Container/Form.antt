-- ===== src/Container/Form.antt =====
-- lib/containerForm.ts: the form of a container. Capabilities are a leaf of several values.
pub mod Saved
use vyos_client.Base.{String, Bool, false, Option, none, some, List, [], ◌∷◌, ◌++◌, or_else}
use vyos_client.Config.Op.{ConfigOp, set_node, delete_node}
use vyos_client.Config.Diff.{ScalarField, FlagField, diff_to_ops}
use vyos_client.Config.MultiValue.{multi_value_diff_ops}
use vyos_client.Container.Types.{ContainerDefinition}
use vyos_client.Container.Paths.{container_name_path}

pub record ContainerFormValues : Type 0 where
  pub image : String
  pub description : String
  pub entrypoint : String
  pub command : String
  pub arguments : String
  pub host_name : String
  pub restart : String
  pub cpu_quota : String
  pub memory : String
  pub shared_memory : String
  pub uid : String
  pub gid : String
  pub log_driver : String
  pub disabled : Bool
  pub allow_host_pid : Bool
  pub allow_host_networks : Bool
  pub privileged : Bool
  pub capabilities : List String

abbrev pub blank_container_form_values : ContainerFormValues
blank_container_form_values = record {
  image = "";
  description = "";
  entrypoint = "";
  command = "";
  arguments = "";
  host_name = "";
  restart = "";
  cpu_quota = "";
  memory = "";
  shared_memory = "";
  uid = "";
  gid = "";
  log_driver = "";
  disabled = false;
  allow_host_pid = false;
  allow_host_networks = false;
  privileged = false;
  capabilities = [];
}

unfoldable pub container_to_form_values : ContainerDefinition → ContainerFormValues
container_to_form_values container = record {
  image = or_else container.image "";
  description = or_else container.description "";
  entrypoint = or_else container.entrypoint "";
  command = or_else container.command "";
  arguments = or_else container.arguments "";
  host_name = or_else container.host_name "";
  restart = or_else container.restart "";
  cpu_quota = or_else container.cpu_quota "";
  memory = or_else container.memory "";
  shared_memory = or_else container.shared_memory "";
  uid = or_else container.uid "";
  gid = or_else container.gid "";
  log_driver = or_else container.log_driver "";
  disabled = container.disabled;
  allow_host_pid = container.allow_host_pid;
  allow_host_networks = container.allow_host_networks;
  privileged = container.privileged;
  capabilities = container.capabilities;
}

abbrev pub scalar_fields : List (ScalarField ContainerFormValues)
scalar_fields =
    record { get = λ v. v.image; segments = "image" ∷ [] }
    ∷ record { get = λ v. v.description; segments = "description" ∷ [] }
    ∷ record { get = λ v. v.entrypoint; segments = "entrypoint" ∷ [] }
    ∷ record { get = λ v. v.command; segments = "command" ∷ [] }
    ∷ record { get = λ v. v.arguments; segments = "arguments" ∷ [] }
    ∷ record { get = λ v. v.host_name; segments = "host-name" ∷ [] }
    ∷ record { get = λ v. v.restart; segments = "restart" ∷ [] }
    ∷ record { get = λ v. v.cpu_quota; segments = "cpu-quota" ∷ [] }
    ∷ record { get = λ v. v.memory; segments = "memory" ∷ [] }
    ∷ record { get = λ v. v.shared_memory; segments = "shared-memory" ∷ [] }
    ∷ record { get = λ v. v.uid; segments = "uid" ∷ [] }
    ∷ record { get = λ v. v.gid; segments = "gid" ∷ [] }
    ∷ record { get = λ v. v.log_driver; segments = "log-driver" ∷ [] }
    ∷ []

abbrev pub flag_fields : List (FlagField ContainerFormValues)
flag_fields =
    record { get = λ v. v.disabled; segments = "disable" ∷ [] }
    ∷ record { get = λ v. v.allow_host_pid; segments = "allow-host-pid" ∷ [] }
    ∷ record { get = λ v. v.allow_host_networks; segments = "allow-host-networks" ∷ [] }
    ∷ record { get = λ v. v.privileged; segments = "privileged" ∷ [] }
    ∷ []

abbrev pub container_before : Option ContainerDefinition → ContainerFormValues
container_before none = blank_container_form_values
container_before (some container) = container_to_form_values container

-- A new container is created by a bare `set`.
abbrev pub create_op : Option ContainerDefinition → List String → List ConfigOp
create_op none base = set_node base ∷ []
create_op (some before) base = []

unfoldable pub container_form_to_ops :
    String → Option ContainerDefinition → ContainerFormValues → List ConfigOp
unfolding container_name_path container_to_form_values diff_to_ops multi_value_diff_ops
container_form_to_ops name before values =
    let old_values = container_before before in
    let base = container_name_path name [] in
    create_op before base
    ++ diff_to_ops base scalar_fields flag_fields old_values values
    ++ multi_value_diff_ops (base ++ "capability" ∷ []) old_values.capabilities values.capabilities

unfoldable pub delete_container_op : String → ConfigOp
unfolding container_name_path
delete_container_op name = delete_node (container_name_path name [])
