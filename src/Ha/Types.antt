-- ===== src/Ha/Types.antt =====
-- lib/haTypes.ts. An optional field is an `Option`.
use vyos_client.Base.{ℕ, String, Bool, Option, List, [], ◌∷◌}

pub record VrrpHealthCheck : Type 0 where
  pub failure_count : ℕ
  pub interval : ℕ
  pub ping : Option String
  pub script : Option String
  pub timeout : Option ℕ

pub record VrrpTransitionScripts : Type 0 where
  pub master : Option String
  pub backup : Option String
  pub fault : Option String
  pub stop : Option String

pub record VrrpAddress : Type 0 where
  pub address : String
  pub interface : Option String

pub record VrrpGroup : Type 0 where
  pub name : String
  pub interface : Option String
  pub vrid : Option String
  pub priority : ℕ
  pub advertise_interval : ℕ
  pub description : Option String
  pub disabled : Bool
  pub no_preempt : Bool
  pub preempt_delay : ℕ
  pub rfc3768_compatibility : Bool
  pub hello_source_address : Option String
  pub peer_addresses : List String
  pub has_authentication_password : Bool
  pub authentication_type : Option String
  pub health_check : Option VrrpHealthCheck
  pub exclude_vrrp_interface : Bool
  pub track_interfaces : List String
  pub transition_scripts : VrrpTransitionScripts
  pub addresses : List VrrpAddress
  pub excluded_addresses : List VrrpAddress

pub record VrrpSyncGroup : Type 0 where
  pub name : String
  pub members : List String
  pub health_check : Option VrrpHealthCheck
  pub transition_scripts : VrrpTransitionScripts

pub record VrrpGarpSettings : Type 0 where
  pub interval : String
  pub master_delay : ℕ
  pub master_refresh : ℕ
  pub master_refresh_repeat : ℕ
  pub master_repeat : ℕ

pub record VrrpGlobalSettings : Type 0 where
  pub snmp_trap : Bool
  pub startup_delay : Option ℕ
  pub version : Option String
  pub garp : VrrpGarpSettings

pub record HaConfig : Type 0 where
  pub disabled : Bool
  pub global : VrrpGlobalSettings
  pub groups : List VrrpGroup
  pub sync_groups : List VrrpSyncGroup

pub record ConntrackSyncInterface : Type 0 where
  pub name : String
  pub peer : Option String
  pub port : Option ℕ

pub record ConntrackSyncConfig : Type 0 where
  pub accept_protocols : List String
  pub disable_external_cache : Bool
  pub disable_syslog : Bool
  pub event_listen_queue_size : ℕ
  pub expect_sync : List String
  pub startup_resync : Bool
  pub vrrp_sync_group : Option String
  pub ignore_addresses : List String
  pub interfaces : List ConntrackSyncInterface
  pub listen_addresses : List String
  pub mcast_group : String
  pub sync_queue_size : ℕ
  pub purge_timeout : ℕ

abbrev pub conntrack_sync_accept_protocols : List String
conntrack_sync_accept_protocols = "tcp" ∷ "udp" ∷ "icmp" ∷ "icmp6" ∷ "sctp" ∷ "dccp" ∷ []

abbrev pub conntrack_sync_expect_sync_protocols : List String
conntrack_sync_expect_sync_protocols = "all" ∷ "ftp" ∷ "sip" ∷ "h323" ∷ "nfs" ∷ "sqlnet" ∷ []
