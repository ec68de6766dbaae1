-- ===== src/Ha/Parse.antt =====
-- lib/haParse.ts: from the JSON trees of `high-availability` and `service conntrack-sync` to the typed
-- configuration, and the paths of their nodes. `localeCompare` is an argument.
use vyos_client.Base.{ℕ, String, Bool, Option, none, some, List, ◌∷◌, map, or_else}
use vyos_client.Base.Number.{to_number}
use vyos_client.Base.Sorting.{sort_by}
use vyos_client.Json.{Value, obj, as_string, as_array, child, is_flag_present, is_defined}
use vyos_client.Firewall.Parse.{record_entries}
use vyos_client.Ha.Types.{
  VrrpHealthCheck, VrrpTransitionScripts, VrrpAddress, VrrpGroup, VrrpSyncGroup, VrrpGarpSettings,
  HaConfig, ConntrackSyncInterface, ConntrackSyncConfig,
}

-- A number of the configuration is a text of digits.
unfoldable pub number_or_undefined : Value → Option ℕ
number_or_undefined v = elim (as_string v) [ none ↦ none | some s ↦ to_number s ]

unfoldable pub ha_path : List String → List String
ha_path rest = "high-availability" ∷ rest

unfoldable pub vrrp_path : List String → List String
unfolding ha_path
vrrp_path rest = ha_path ("vrrp" ∷ rest)

unfoldable pub vrrp_group_path : String → List String → List String
unfolding vrrp_path
vrrp_group_path name rest = vrrp_path ("group" ∷ name ∷ rest)

unfoldable pub vrrp_sync_group_path : String → List String → List String
unfolding vrrp_path
vrrp_sync_group_path name rest = vrrp_path ("sync-group" ∷ name ∷ rest)

unfoldable pub conntrack_sync_path : List String → List String
conntrack_sync_path rest = "service" ∷ "conntrack-sync" ∷ rest

unfoldable pub conntrack_sync_interface_path : String → List String → List String
unfolding conntrack_sync_path
conntrack_sync_interface_path name rest = conntrack_sync_path ("interface" ∷ name ∷ rest)

unfoldable pub parse_vrrp_health_check : Value → Option VrrpHealthCheck
unfolding number_or_undefined
parse_vrrp_health_check (obj entries) =
    let raw = obj entries in
    some record {
      failure_count = or_else (number_or_undefined (child raw "failure-count")) 3;
      interval = or_else (number_or_undefined (child raw "interval")) 60;
      ping = as_string (child raw "ping");
      script = as_string (child raw "script");
      timeout = number_or_undefined (child raw "timeout");
    }
parse_vrrp_health_check _ = none

unfoldable pub parse_transition_scripts : Value → VrrpTransitionScripts
parse_transition_scripts raw = record {
  master = as_string (child raw "master");
  backup = as_string (child raw "backup");
  fault = as_string (child raw "fault");
  stop = as_string (child raw "stop");
}

unfoldable pub parse_vrrp_addresses : Value → List VrrpAddress
unfolding record_entries
parse_vrrp_addresses raw =
    map (λ e. record { address = e.0; interface = as_string (child e.1 "interface") })
      (record_entries raw)

unfoldable pub parse_vrrp_group : String → Value → VrrpGroup
unfolding number_or_undefined parse_vrrp_health_check parse_transition_scripts parse_vrrp_addresses
parse_vrrp_group name raw =
    let auth = child raw "authentication" in
    let track = child raw "track" in
    record {
      name = name;
      interface = as_string (child raw "interface");
      vrid = as_string (child raw "vrid");
      priority = or_else (number_or_undefined (child raw "priority")) 100;
      advertise_interval = or_else (number_or_undefined (child raw "advertise-interval")) 1;
      description = as_string (child raw "description");
      disabled = is_flag_present raw "disable";
      no_preempt = is_flag_present raw "no-preempt";
      preempt_delay = or_else (number_or_undefined (child raw "preempt-delay")) 0;
      rfc3768_compatibility = is_flag_present raw "rfc3768-compatibility";
      hello_source_address = as_string (child raw "hello-source-address");
      peer_addresses = as_array (child raw "peer-address");
      has_authentication_password = is_defined (child auth "password");
      authentication_type = as_string (child auth "type");
      health_check = parse_vrrp_health_check (child raw "health-check");
      exclude_vrrp_interface = is_flag_present track "exclude-vrrp-interface";
      track_interfaces = as_array (child track "interface");
      transition_scripts = parse_transition_scripts (child raw "transition-script");
      addresses = parse_vrrp_addresses (child raw "address");
      excluded_addresses = parse_vrrp_addresses (child raw "excluded-address");
    }

unfoldable pub parse_vrrp_sync_group : String → Value → VrrpSyncGroup
unfolding parse_vrrp_health_check parse_transition_scripts
parse_vrrp_sync_group name raw = record {
  name = name;
  members = as_array (child raw "member");
  health_check = parse_vrrp_health_check (child raw "health-check");
  transition_scripts = parse_transition_scripts (child raw "transition-script");
}

unfoldable pub parse_garp : Value → VrrpGarpSettings
unfolding number_or_undefined
parse_garp raw = record {
  interval = or_else (as_string (child raw "interval")) "0";
  master_delay = or_else (number_or_undefined (child raw "master-delay")) 5;
  master_refresh = or_else (number_or_undefined (child raw "master-refresh")) 5;
  master_refresh_repeat = or_else (number_or_undefined (child raw "master-refresh-repeat")) 1;
  master_repeat = or_else (number_or_undefined (child raw "master-repeat")) 5;
}

unfoldable pub parse_ha_config : (String → String → Bool) → Value → HaConfig
unfolding number_or_undefined parse_garp parse_vrrp_group parse_vrrp_sync_group sort_by
    record_entries
parse_ha_config locale_before high_availability =
    let vrrp = child high_availability "vrrp" in
    let global_params = child vrrp "global-parameters" in
    record {
      disabled = is_flag_present high_availability "disable";
      global = record {
        snmp_trap = is_flag_present (child vrrp "snmp") "trap";
        startup_delay = number_or_undefined (child global_params "startup-delay");
        version = as_string (child global_params "version");
        garp = parse_garp (child global_params "garp");
      };
      groups =
          sort_by (λ (a b : VrrpGroup). locale_before a.name b.name)
            (map (λ e. parse_vrrp_group e.0 e.1) (record_entries (child vrrp "group")));
      sync_groups =
          sort_by (λ (a b : VrrpSyncGroup). locale_before a.name b.name)
            (map (λ e. parse_vrrp_sync_group e.0 e.1) (record_entries (child vrrp "sync-group")));
    }

unfoldable pub parse_conntrack_sync_interfaces : Value → List ConntrackSyncInterface
unfolding record_entries number_or_undefined
parse_conntrack_sync_interfaces raw =
    map
      (λ e. record {
        name = e.0;
        peer = as_string (child e.1 "peer");
        port = number_or_undefined (child e.1 "port");
      })
      (record_entries raw)

unfoldable pub parse_conntrack_sync_config : Value → ConntrackSyncConfig
unfolding number_or_undefined parse_conntrack_sync_interfaces
parse_conntrack_sync_config conntrack_sync =
    let failover_vrrp = child (child conntrack_sync "failover-mechanism") "vrrp" in
    record {
      accept_protocols = as_array (child conntrack_sync "accept-protocol");
      disable_external_cache = is_flag_present conntrack_sync "disable-external-cache";
      disable_syslog = is_flag_present conntrack_sync "disable-syslog";
      event_listen_queue_size =
          or_else (number_or_undefined (child conntrack_sync "event-listen-queue-size")) 8;
      expect_sync = as_array (child conntrack_sync "expect-sync");
      startup_resync = is_flag_present conntrack_sync "startup-resync";
      vrrp_sync_group = as_string (child failover_vrrp "sync-group");
      ignore_addresses = as_array (child conntrack_sync "ignore-address");
      interfaces = parse_conntrack_sync_interfaces (child conntrack_sync "interface");
      listen_addresses = as_array (child conntrack_sync "listen-address");
      mcast_group = or_else (as_string (child conntrack_sync "mcast-group")) "225.0.0.50";
      sync_queue_size = or_else (number_or_undefined (child conntrack_sync "sync-queue-size")) 1;
      purge_timeout = or_else (number_or_undefined (child conntrack_sync "purge-timeout")) 60;
    }
