-- ===== src/Container/Types.antt =====
-- lib/containerTypes.ts. An optional field is an `Option`, a choice is its text, and a field `type`
-- is named `kind`.
use vyos_client.Base.{String, Bool, false, Option, none, List, [], ◌∷◌}

abbrev pub container_capabilities : List String
container_capabilities =
    "net-admin" ∷ "net-bind-service" ∷ "net-raw" ∷ "chown" ∷ "mknod" ∷ "setpcap" ∷ "sys-admin"
    ∷ "sys-module" ∷ "sys-nice" ∷ "sys-rawio" ∷ "sys-time" ∷ []

abbrev pub container_restart_policies : List String
container_restart_policies = "no" ∷ "on-failure" ∷ "always" ∷ []

abbrev pub container_log_drivers : List String
container_log_drivers = "k8s-file" ∷ "journald" ∷ "none" ∷ []

abbrev pub container_volume_modes : List String
container_volume_modes = "ro" ∷ "rw" ∷ []

abbrev pub container_volume_propagations : List String
container_volume_propagations =
    "shared" ∷ "slave" ∷ "private" ∷ "rshared" ∷ "rslave" ∷ "rprivate" ∷ []

abbrev pub container_port_protocols : List String
container_port_protocols = "tcp" ∷ "udp" ∷ []

abbrev pub container_macvlan_modes : List String
container_macvlan_modes = "bridge" ∷ "private" ∷ "vepa" ∷ []

pub record ContainerSysctlParameter : Type 0 where
  pub parameter : String
  pub value : String

pub record ContainerDevice : Type 0 where
  pub id : String
  pub source : Option String
  pub destination : Option String

pub record ContainerEnvironmentVariable : Type 0 where
  pub name : String
  pub value : String

pub record ContainerLabel : Type 0 where
  pub name : String
  pub value : String

pub record ContainerNetworkAttachment : Type 0 where
  pub network_name : String
  pub addresses : List String
  pub mac : Option String

pub record ContainerPort : Type 0 where
  pub id : String
  pub listen_addresses : List String
  pub source : Option String
  pub destination : Option String
  pub protocol : Option String

pub record ContainerTmpfs : Type 0 where
  pub id : String
  pub destination : Option String
  pub size : Option String

pub record ContainerVolume : Type 0 where
  pub id : String
  pub source : Option String
  pub destination : Option String
  pub mode : Option String
  pub propagation : Option String

pub record ContainerHealthCheck : Type 0 where
  pub command : Option String
  pub interval : Option String
  pub timeout : Option String
  pub retry : Option String

abbrev pub blank_health_check : ContainerHealthCheck
blank_health_check = record { command = none; interval = none; timeout = none; retry = none }

pub record ContainerDefinition : Type 0 where
  pub name : String
  pub image : Option String
  pub description : Option String
  pub disabled : Bool
  pub allow_host_pid : Bool
  pub allow_host_networks : Bool
  pub privileged : Bool
  pub capabilities : List String
  pub entrypoint : Option String
  pub command : Option String
  pub arguments : Option String
  pub host_name : Option String
  pub restart : Option String
  pub cpu_quota : Option String
  pub memory : Option String
  pub shared_memory : Option String
  pub uid : Option String
  pub gid : Option String
  pub log_driver : Option String
  pub name_servers : List String
  pub sysctl : List ContainerSysctlParameter
  pub devices : List ContainerDevice
  pub environment : List ContainerEnvironmentVariable
  pub labels : List ContainerLabel
  pub networks : List ContainerNetworkAttachment
  pub ports : List ContainerPort
  pub tmpfs : List ContainerTmpfs
  pub volumes : List ContainerVolume
  pub health_check : ContainerHealthCheck

-- Without its name in the source.
abbrev pub blank_container_definition : String → ContainerDefinition
blank_container_definition name = record {
  name = name;
  image = none;
  description = none;
  disabled = false;
  allow_host_pid = false;
  allow_host_networks = false;
  privileged = false;
  capabilities = [];
  entrypoint = none;
  command = none;
  arguments = none;
  host_name = none;
  restart = none;
  cpu_quota = none;
  memory = none;
  shared_memory = none;
  uid = none;
  gid = none;
  log_driver = none;
  name_servers = [];
  sysctl = [];
  devices = [];
  environment = [];
  labels = [];
  networks = [];
  ports = [];
  tmpfs = [];
  volumes = [];
  health_check = blank_health_check;
}

pub record ContainerNetworkMacvlan : Type 0 where
  pub mode : Option String
  pub parent : Option String

pub record ContainerNetwork : Type 0 where
  pub name : String
  pub description : Option String
  pub mtu : Option String
  pub gateways : List String
  pub prefixes : List String
  pub no_name_server : Bool
  pub kind : Option String
  pub macvlan : Option ContainerNetworkMacvlan
  pub vrf : Option String

-- Without its name in the source.
abbrev pub blank_container_network : String → ContainerNetwork
blank_container_network name = record {
  name = name;
  description = none;
  mtu = none;
  gateways = [];
  prefixes = [];
  no_name_server = false;
  kind = none;
  macvlan = none;
  vrf = none;
}

pub record ContainerRegistryMirror : Type 0 where
  pub address : Option String
  pub host_name : Option String
  pub port : Option String
  pub path : Option String

pub record ContainerRegistry : Type 0 where
  pub name : String
  pub username : Option String
  pub has_password : Bool
  pub disabled : Bool
  pub insecure : Bool
  pub mirror : Option ContainerRegistryMirror

-- Without its name in the source.
abbrev pub blank_container_registry : String → ContainerRegistry
blank_container_registry name = record {
  name = name;
  username = none;
  has_password = false;
  disabled = false;
  insecure = false;
  mirror = none;
}

pub record ContainerConfig : Type 0 where
  pub containers : List ContainerDefinition
  pub networks : List ContainerNetwork
  pub registries : List ContainerRegistry

abbrev pub blank_container_config : ContainerConfig
blank_container_config = record { containers = []; networks = []; registries = [] }
