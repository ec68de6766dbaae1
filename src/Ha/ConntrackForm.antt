-- ===== src/Ha/ConntrackForm.antt =====
-- lib/haConntrackSyncForm.ts: the form of the connection tracking synchronisation.
use vyos_client.Base.{String, Bool, List, [], ◌∷◌, ◌++◌, ◌==◌, or_else, if◌then◌else◌}
use vyos_client.Base.Text.{trim}
use vyos_client.Base.Number.{show}
use vyos_client.Config.Op.{ConfigOp, set_node, set_value, delete_node}
use vyos_client.Config.Diff.{ScalarField, FlagField, scalar_ops, flag_ops}
use vyos_client.Ha.Types.{ConntrackSyncConfig}
use vyos_client.Ha.Parse.{conntrack_sync_path, conntrack_sync_interface_path}

pub record ConntrackSyncFormValues : Type 0 where
  pub disable_external_cache : Bool
  pub disable_syslog : Bool
  pub event_listen_queue_size : String
  pub startup_resync : Bool
  pub vrrp_sync_group : String
  pub mcast_group : String
  pub sync_queue_size : String
  pub purge_timeout : String

unfoldable pub conntrack_sync_to_form_values : ConntrackSyncConfig → ConntrackSyncFormValues
unfolding show
conntrack_sync_to_form_values config = record {
  disable_external_cache = config.disable_external_cache;
  disable_syslog = config.disable_syslog;
  event_listen_queue_size = show config.event_listen_queue_size;
  startup_resync = config.startup_resync;
  vrrp_sync_group = or_else config.vrrp_sync_group "";
  mcast_group = config.mcast_group;
  sync_queue_size = show config.sync_queue_size;
  purge_timeout = show config.purge_timeout;
}

abbrev pub flag_fields : List (FlagField ConntrackSyncFormValues)
flag_fields =
    record { get = λ v. v.disable_external_cache; segments = "disable-external-cache" ∷ [] }
    ∷ record { get = λ v. v.disable_syslog; segments = "disable-syslog" ∷ [] }
    ∷ record { get = λ v. v.startup_resync; segments = "startup-resync" ∷ [] }
    ∷ []

abbrev pub scalar_fields : List (ScalarField ConntrackSyncFormValues)
scalar_fields =
    record { get = λ v. v.event_listen_queue_size; segments = "event-listen-queue-size" ∷ [] }
    ∷ record {
      get = λ v. v.vrrp_sync_group;
      segments = "failover-mechanism" ∷ "vrrp" ∷ "sync-group" ∷ [];
    }
    ∷ record { get = λ v. v.mcast_group; segments = "mcast-group" ∷ [] }
    ∷ record { get = λ v. v.sync_queue_size; segments = "sync-queue-size" ∷ [] }
    ∷ record { get = λ v. v.purge_timeout; segments = "purge-timeout" ∷ [] }
    ∷ []

unfoldable pub conntrack_sync_form_to_ops :
    ConntrackSyncFormValues → ConntrackSyncFormValues → List ConfigOp
unfolding conntrack_sync_path scalar_ops flag_ops
conntrack_sync_form_to_ops before values =
    flag_ops conntrack_sync_path flag_fields before values
    ++ scalar_ops conntrack_sync_path scalar_fields before values

-- `if (text.trim() !== '') ops.push({ op: 'set', path, value: text.trim() })`
abbrev set_typed : List String → String → List ConfigOp
set_typed path text = if trim text == "" then [] else set_value path (trim text) ∷ []

unfoldable pub add_conntrack_sync_interface_ops : String → String → String → List ConfigOp
unfolding conntrack_sync_interface_path trim
add_conntrack_sync_interface_ops name peer port =
    set_node (conntrack_sync_interface_path name [])
      ∷ set_typed (conntrack_sync_interface_path name ("peer" ∷ [])) peer
    ++ set_typed (conntrack_sync_interface_path name ("port" ∷ [])) port

unfoldable pub remove_conntrack_sync_interface_op : String → ConfigOp
unfolding conntrack_sync_interface_path
remove_conntrack_sync_interface_op name = delete_node (conntrack_sync_interface_path name [])
