-- ===== src/Container/Parse.antt =====
-- lib/containerParse.ts: from the JSON tree of `container` to the typed configuration.
-- `localeCompare` is an argument; the paths are in Container.Paths.
use vyos_client.Base.{String, Bool, Option, none, some, List, or_else, if◌then◌else◌}
use vyos_client.Base.Sorting.{sort_by}
use vyos_client.Json.{
  Value, undefined, as_string, as_string_array, child, is_flag_present, is_defined,
}
use vyos_client.Firewall.Parse.{record_entries}
use vyos_client.Interfaces.Parse.{sorted_entries}
use vyos_client.Container.Types.{
  ContainerSysctlParameter, ContainerDevice, ContainerEnvironmentVariable, ContainerLabel,
  ContainerNetworkAttachment, ContainerPort, ContainerTmpfs, ContainerVolume, ContainerHealthCheck,
  blank_health_check, ContainerDefinition, ContainerNetworkMacvlan, ContainerNetwork,
  ContainerRegistryMirror, ContainerRegistry, ContainerConfig, blank_container_config,
}

unfoldable pub parse_health_check : Value → ContainerHealthCheck
parse_health_check raw =
    let root = child raw "health-check" in
    if is_defined root
    then record {
      command = as_string (child root "command");
      interval = as_string (child root "interval");
      timeout = as_string (child root "timeout");
      retry = as_string (child root "retry");
    }
    else blank_health_check

-- The fields `type` and `macvlan`.
unfoldable pub parse_network_type : Value → Option String × Option ContainerNetworkMacvlan
parse_network_type raw =
    let type_root = child raw "type" in
    let macvlan_root = child type_root "macvlan" in
    if is_flag_present type_root "bridge"
    then (some "bridge", none)
    else if is_defined macvlan_root
    then (
      some "macvlan",
      some (record {
        mode = as_string (child macvlan_root "mode");
        parent = as_string (child macvlan_root "parent");
      }),
    )
    else (none, none)

unfoldable pub parse_container_network : String → Value → ContainerNetwork
unfolding parse_network_type
parse_container_network name raw =
    let (kind, macvlan) = parse_network_type raw in
    record {
      name = name;
      description = as_string (child raw "description");
      mtu = as_string (child raw "mtu");
      gateways = as_string_array (child raw "gateway");
      prefixes = as_string_array (child raw "prefix");
      no_name_server = is_flag_present raw "no-name-server";
      vrf = as_string (child raw "vrf");
      kind = kind;
      macvlan = macvlan;
    }

unfoldable pub parse_mirror : Value → Option ContainerRegistryMirror
parse_mirror raw =
    let root = child raw "mirror" in
    if is_defined root
    then some (record {
      address = as_string (child root "address");
      host_name = as_string (child root "host-name");
      port = as_string (child root "port");
      path = as_string (child root "path");
    })
    else none

unfoldable pub parse_container_registry : String → Value → ContainerRegistry
unfolding parse_mirror
parse_container_registry name raw =
    let auth_root = child raw "authentication" in
    record {
      name = name;
      username = as_string (child auth_root "username");
      has_password = is_defined (child auth_root "password");
      disabled = is_flag_present raw "disable";
      insecure = is_flag_present raw "insecure";
      mirror = parse_mirror raw;
    }

module _ (locale_before : String → String → Bool) where
  unfoldable pub parse_sysctl : Value → List ContainerSysctlParameter
  unfolding record_entries sort_by
  parse_sysctl raw =
      sorted_entries locale_before (λ (x : ContainerSysctlParameter). x.parameter)
        (λ parameter v. record {
          parameter = parameter;
          value = or_else (as_string (child v "value")) "";
        })
        (child raw "parameter")

  unfoldable pub parse_devices : Value → List ContainerDevice
  unfolding record_entries sort_by
  parse_devices raw =
      sorted_entries locale_before (λ (x : ContainerDevice). x.id)
        (λ id v. record {
          id = id;
          source = as_string (child v "source");
          destination = as_string (child v "destination");
        })
        (child raw "device")

  unfoldable pub parse_environment : Value → List ContainerEnvironmentVariable
  unfolding record_entries sort_by
  parse_environment raw =
      sorted_entries locale_before (λ (x : ContainerEnvironmentVariable). x.name)
        (λ name v. record { name = name; value = or_else (as_string (child v "value")) "" })
        (child raw "environment")

  unfoldable pub parse_labels : Value → List ContainerLabel
  unfolding record_entries sort_by
  parse_labels raw =
      sorted_entries locale_before (λ (x : ContainerLabel). x.name)
        (λ name v. record { name = name; value = or_else (as_string (child v "value")) "" })
        (child raw "label")

  unfoldable pub parse_network_attachments : Value → List ContainerNetworkAttachment
  unfolding record_entries sort_by
  parse_network_attachments raw =
      sorted_entries locale_before (λ (x : ContainerNetworkAttachment). x.network_name)
        (λ network_name v. record {
          network_name = network_name;
          addresses = as_string_array (child v "address");
          mac = as_string (child v "mac");
        })
        (child raw "network")

  unfoldable pub parse_ports : Value → List ContainerPort
  unfolding record_entries sort_by
  parse_ports raw =
      sorted_entries locale_before (λ (x : ContainerPort). x.id)
        (λ id v. record {
          id = id;
          listen_addresses = as_string_array (child v "listen-address");
          source = as_string (child v "source");
          destination = as_string (child v "destination");
          protocol = as_string (child v "protocol");
        })
        (child raw "port")

  unfoldable pub parse_tmpfs : Value → List ContainerTmpfs
  unfolding record_entries sort_by
  parse_tmpfs raw =
      sorted_entries locale_before (λ (x : ContainerTmpfs). x.id)
        (λ id v. record {
          id = id;
          destination = as_string (child v "destination");
          size = as_string (child v "size");
        })
        (child raw "tmpfs")

  unfoldable pub parse_volumes : Value → List ContainerVolume
  unfolding record_entries sort_by
  parse_volumes raw =
      sorted_entries locale_before (λ (x : ContainerVolume). x.id)
        (λ id v. record {
          id = id;
          source = as_string (child v "source");
          destination = as_string (child v "destination");
          mode = as_string (child v "mode");
          propagation = as_string (child v "propagation");
        })
        (child raw "volume")

  unfoldable pub parse_container_definition : String → Value → ContainerDefinition
  unfolding parse_sysctl parse_devices parse_environment parse_labels parse_network_attachments
      parse_ports parse_tmpfs parse_volumes parse_health_check
  parse_container_definition name raw = record {
    name = name;
    image = as_string (child raw "image");
    description = as_string (child raw "description");
    disabled = is_flag_present raw "disable";
    allow_host_pid = is_flag_present raw "allow-host-pid";
    allow_host_networks = is_flag_present raw "allow-host-networks";
    privileged = is_flag_present raw "privileged";
    capabilities = as_string_array (child raw "capability");
    entrypoint = as_string (child raw "entrypoint");
    command = as_string (child raw "command");
    arguments = as_string (child raw "arguments");
    host_name = as_string (child raw "host-name");
    restart = as_string (child raw "restart");
    cpu_quota = as_string (child raw "cpu-quota");
    memory = as_string (child raw "memory");
    shared_memory = as_string (child raw "shared-memory");
    uid = as_string (child raw "uid");
    gid = as_string (child raw "gid");
    log_driver = as_string (child raw "log-driver");
    name_servers = as_string_array (child raw "name-server");
    sysctl = parse_sysctl (child raw "sysctl");
    devices = parse_devices raw;
    environment = parse_environment raw;
    labels = parse_labels raw;
    networks = parse_network_attachments raw;
    ports = parse_ports raw;
    tmpfs = parse_tmpfs raw;
    volumes = parse_volumes raw;
    health_check = parse_health_check raw;
  }

  unfoldable pub parse_containers : Value → List ContainerDefinition
  unfolding parse_container_definition record_entries sort_by
  parse_containers container =
      sorted_entries locale_before (λ (x : ContainerDefinition). x.name) parse_container_definition
        (child container "name")

  unfoldable pub parse_container_networks : Value → List ContainerNetwork
  unfolding parse_container_network record_entries sort_by
  parse_container_networks container =
      sorted_entries locale_before (λ (x : ContainerNetwork). x.name) parse_container_network
        (child container "network")

  unfoldable pub parse_container_registries : Value → List ContainerRegistry
  unfolding parse_container_registry record_entries sort_by
  parse_container_registries container =
      sorted_entries locale_before (λ (x : ContainerRegistry). x.name) parse_container_registry
        (child container "registry")

  unfoldable pub parse_container_config : Value → ContainerConfig
  unfolding parse_containers parse_container_networks parse_container_registries
  parse_container_config undefined = blank_container_config
  parse_container_config container = record {
    containers = parse_containers container;
    networks = parse_container_networks container;
    registries = parse_container_registries container;
  }
