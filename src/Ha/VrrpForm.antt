-- ===== src/Ha/VrrpForm.antt =====
-- lib/haVrrpForm.ts: the forms of VRRP: the global settings, a group and a sync group.
pub mod Authentication
use vyos_client.Base.{
  ℕ, String, Bool, true, false, not, ◌&&◌, Option, none, some, List, [], ◌∷◌, ◌++◌, ◌==◌, or_else,
  if◌then◌else◌,
}
use vyos_client.Base.Text.{trim}
use vyos_client.Base.Number.{show}
use vyos_client.Config.Op.{ConfigOp, set_node, set_value, delete_node, delete_value}
use vyos_client.Config.Diff.{ScalarField, FlagField, scalar_ops, flag_ops, toggle_op}
use vyos_client.Ha.Types.{VrrpGroup, VrrpSyncGroup, VrrpHealthCheck}
use vyos_client.Ha.Parse.{ha_path, vrrp_path, vrrp_group_path, vrrp_sync_group_path}

unfoldable pub toggle_ha_disable_op : Bool → ConfigOp
unfolding ha_path
toggle_ha_disable_op disabled = toggle_op (ha_path ("disable" ∷ [])) disabled

unfoldable pub toggle_vrrp_snmp_trap_op : Bool → ConfigOp
unfolding vrrp_path
toggle_vrrp_snmp_trap_op enabled = toggle_op (vrrp_path ("snmp" ∷ "trap" ∷ [])) enabled

pub record VrrpGlobalFormValues : Type 0 where
  pub startup_delay : String
  pub version : String
  pub garp_interval : String
  pub garp_master_delay : String
  pub garp_master_refresh : String
  pub garp_master_refresh_repeat : String
  pub garp_master_repeat : String

abbrev pub global_scalar_fields : List (ScalarField VrrpGlobalFormValues)
global_scalar_fields =
    record { get = λ v. v.startup_delay; segments = "global-parameters" ∷ "startup-delay" ∷ [] }
    ∷ record { get = λ v. v.version; segments = "global-parameters" ∷ "version" ∷ [] }
    ∷ record {
      get = λ v. v.garp_interval;
      segments = "global-parameters" ∷ "garp" ∷ "interval" ∷ [];
    }
    ∷ record {
      get = λ v. v.garp_master_delay;
      segments = "global-parameters" ∷ "garp" ∷ "master-delay" ∷ [];
    }
    ∷ record {
      get = λ v. v.garp_master_refresh;
      segments = "global-parameters" ∷ "garp" ∷ "master-refresh" ∷ [];
    }
    ∷ record {
      get = λ v. v.garp_master_refresh_repeat;
      segments = "global-parameters" ∷ "garp" ∷ "master-refresh-repeat" ∷ [];
    }
    ∷ record {
      get = λ v. v.garp_master_repeat;
      segments = "global-parameters" ∷ "garp" ∷ "master-repeat" ∷ [];
    }
    ∷ []

unfoldable pub vrrp_global_form_to_ops : VrrpGlobalFormValues → VrrpGlobalFormValues → List ConfigOp
unfolding scalar_ops vrrp_path
vrrp_global_form_to_ops before values = scalar_ops vrrp_path global_scalar_fields before values

pub record VrrpGroupFormValues : Type 0 where
  pub interface : String
  pub vrid : String
  pub priority : String
  pub advertise_interval : String
  pub description : String
  pub disabled : Bool
  pub no_preempt : Bool
  pub preempt_delay : String
  pub rfc3768_compatibility : Bool
  pub hello_source_address : String
  pub authentication_password : String
  pub authentication_type : String
  pub exclude_vrrp_interface : Bool
  pub health_check_ping : String
  pub health_check_script : String
  pub health_check_failure_count : String
  pub health_check_interval : String
  pub health_check_timeout : String
  pub transition_master : String
  pub transition_backup : String
  pub transition_fault : String
  pub transition_stop : String

abbrev pub blank_vrrp_group_form_values : VrrpGroupFormValues
blank_vrrp_group_form_values = record {
  interface = "";
  vrid = "";
  priority = "";
  advertise_interval = "";
  description = "";
  disabled = false;
  no_preempt = false;
  preempt_delay = "";
  rfc3768_compatibility = false;
  hello_source_address = "";
  authentication_password = "";
  authentication_type = "";
  exclude_vrrp_interface = false;
  health_check_ping = "";
  health_check_script = "";
  health_check_failure_count = "";
  health_check_interval = "";
  health_check_timeout = "";
  transition_master = "";
  transition_backup = "";
  transition_fault = "";
  transition_stop = "";
}

-- `healthCheck?.x`, and `String` of a number of the health check, where there is one.
abbrev pub check_text : Option VrrpHealthCheck → (VrrpHealthCheck → Option String) → Option String
check_text none get = none
check_text (some h) get = get h

abbrev number_text : Option ℕ → String
number_text none = ""
number_text (some n) = show n

abbrev pub check_number : Option VrrpHealthCheck → (VrrpHealthCheck → Option ℕ) → String
check_number none get = ""
check_number (some h) get = number_text (get h)

unfoldable pub vrrp_group_to_form_values : VrrpGroup → VrrpGroupFormValues
unfolding show
vrrp_group_to_form_values group = record {
  interface = or_else group.interface "";
  vrid = or_else group.vrid "";
  priority = show group.priority;
  advertise_interval = show group.advertise_interval;
  description = or_else group.description "";
  disabled = group.disabled;
  no_preempt = group.no_preempt;
  preempt_delay = show group.preempt_delay;
  rfc3768_compatibility = group.rfc3768_compatibility;
  hello_source_address = or_else group.hello_source_address "";
  authentication_password = "";
  authentication_type = or_else group.authentication_type "";
  exclude_vrrp_interface = group.exclude_vrrp_interface;
  health_check_ping = or_else (check_text group.health_check (λ h. h.ping)) "";
  health_check_script = or_else (check_text group.health_check (λ h. h.script)) "";
  health_check_failure_count = check_number group.health_check (λ h. some h.failure_count);
  health_check_interval = check_number group.health_check (λ h. some h.interval);
  health_check_timeout = check_number group.health_check (λ h. h.timeout);
  transition_master = or_else group.transition_scripts.master "";
  transition_backup = or_else group.transition_scripts.backup "";
  transition_fault = or_else group.transition_scripts.fault "";
  transition_stop = or_else group.transition_scripts.stop "";
}

abbrev pub group_flag_fields : List (FlagField VrrpGroupFormValues)
group_flag_fields =
    record { get = λ v. v.disabled; segments = "disable" ∷ [] }
    ∷ record { get = λ v. v.no_preempt; segments = "no-preempt" ∷ [] }
    ∷ record { get = λ v. v.rfc3768_compatibility; segments = "rfc3768-compatibility" ∷ [] }
    ∷ record {
      get = λ v. v.exclude_vrrp_interface;
      segments = "track" ∷ "exclude-vrrp-interface" ∷ [];
    }
    ∷ []

abbrev pub group_scalar_fields : List (ScalarField VrrpGroupFormValues)
group_scalar_fields =
    record { get = λ v. v.interface; segments = "interface" ∷ [] }
    ∷ record { get = λ v. v.vrid; segments = "vrid" ∷ [] }
    ∷ record { get = λ v. v.priority; segments = "priority" ∷ [] }
    ∷ record { get = λ v. v.advertise_interval; segments = "advertise-interval" ∷ [] }
    ∷ record { get = λ v. v.description; segments = "description" ∷ [] }
    ∷ record { get = λ v. v.preempt_delay; segments = "preempt-delay" ∷ [] }
    ∷ record { get = λ v. v.hello_source_address; segments = "hello-source-address" ∷ [] }
    ∷ record { get = λ v. v.health_check_ping; segments = "health-check" ∷ "ping" ∷ [] }
    ∷ record { get = λ v. v.health_check_script; segments = "health-check" ∷ "script" ∷ [] }
    ∷ record {
      get = λ v. v.health_check_failure_count;
      segments = "health-check" ∷ "failure-count" ∷ [];
    }
    ∷ record { get = λ v. v.health_check_interval; segments = "health-check" ∷ "interval" ∷ [] }
    ∷ record { get = λ v. v.health_check_timeout; segments = "health-check" ∷ "timeout" ∷ [] }
    ∷ record { get = λ v. v.transition_master; segments = "transition-script" ∷ "master" ∷ [] }
    ∷ record { get = λ v. v.transition_backup; segments = "transition-script" ∷ "backup" ∷ [] }
    ∷ record { get = λ v. v.transition_fault; segments = "transition-script" ∷ "fault" ∷ [] }
    ∷ record { get = λ v. v.transition_stop; segments = "transition-script" ∷ "stop" ∷ [] }
    ∷ []

-- `before ? vrrpGroupToFormValues(before) : blankVRRPGroupFormValues()`
unfoldable pub vrrp_group_before : Option VrrpGroup → VrrpGroupFormValues
unfolding vrrp_group_to_form_values
vrrp_group_before none = blank_vrrp_group_form_values
vrrp_group_before (some before) = vrrp_group_to_form_values before

-- `before?.hasAuthenticationPassword ?? false`
abbrev pub had_password : Option VrrpGroup → Bool
had_password none = false
had_password (some before) = before.has_authentication_password

-- The authentication's commands: `had` says that a password is set, `old_type` is the type that the
-- form was opened with.
unfoldable pub authentication_ops : List String → Bool → String → String → String → List ConfigOp
authentication_ops auth_path had old_type typed_password new_type =
    if new_type == ""
    then if had && not (old_type == "") then delete_node auth_path ∷ [] else []
    else if not (typed_password == "")
    then set_value (auth_path ++ "password" ∷ []) typed_password
      ∷ set_value (auth_path ++ "type" ∷ []) new_type
      ∷ []
    else if had && not (new_type == old_type)
    then set_value (auth_path ++ "type" ∷ []) new_type ∷ []
    else []

-- `if (before === undefined) ops.push({ op: 'set', path: base })`
abbrev pub create_ops {ℓ} : {A : Type ℓ} → List String → Option A → List ConfigOp
create_ops base none = set_node base ∷ []
create_ops base (some before) = []

unfoldable pub vrrp_group_form_to_ops :
    String → Option VrrpGroup → VrrpGroupFormValues → List ConfigOp
unfolding vrrp_group_path vrrp_group_before authentication_ops scalar_ops flag_ops trim
vrrp_group_form_to_ops name before values =
    let base = vrrp_group_path name [] in
    let before_values = vrrp_group_before before in
    create_ops base before
    ++ flag_ops (λ segments. base ++ segments) group_flag_fields before_values values
    ++ scalar_ops (λ segments. base ++ segments) group_scalar_fields before_values values
    ++ authentication_ops (base ++ "authentication" ∷ []) (had_password before)
        before_values.authentication_type (trim values.authentication_password)
        (trim values.authentication_type)

unfoldable pub delete_vrrp_group_op : String → ConfigOp
unfolding vrrp_group_path
delete_vrrp_group_op name = delete_node (vrrp_group_path name [])

-- `leaf` is "address" or "excluded-address".
unfoldable pub add_vrrp_group_address_ops : String → String → String → String → List ConfigOp
unfolding vrrp_group_path trim
add_vrrp_group_address_ops group_name leaf address iface =
    let base = vrrp_group_path group_name (leaf ∷ address ∷ []) in
    set_node base
    ∷ (if trim iface == "" then [] else set_value (base ++ "interface" ∷ []) (trim iface) ∷ [])

unfoldable pub remove_vrrp_group_address_op : String → String → String → ConfigOp
unfolding vrrp_group_path
remove_vrrp_group_address_op group_name leaf address =
    delete_node (vrrp_group_path group_name (leaf ∷ address ∷ []))

pub record VrrpSyncGroupFormValues : Type 0 where
  pub health_check_ping : String
  pub health_check_script : String
  pub health_check_failure_count : String
  pub health_check_interval : String
  pub health_check_timeout : String
  pub transition_master : String
  pub transition_backup : String
  pub transition_fault : String
  pub transition_stop : String

abbrev pub blank_vrrp_sync_group_form_values : VrrpSyncGroupFormValues
blank_vrrp_sync_group_form_values = record {
  health_check_ping = "";
  health_check_script = "";
  health_check_failure_count = "";
  health_check_interval = "";
  health_check_timeout = "";
  transition_master = "";
  transition_backup = "";
  transition_fault = "";
  transition_stop = "";
}

unfoldable pub vrrp_sync_group_to_form_values : VrrpSyncGroup → VrrpSyncGroupFormValues
unfolding show
vrrp_sync_group_to_form_values group = record {
  health_check_ping = or_else (check_text group.health_check (λ h. h.ping)) "";
  health_check_script = or_else (check_text group.health_check (λ h. h.script)) "";
  health_check_failure_count = check_number group.health_check (λ h. some h.failure_count);
  health_check_interval = check_number group.health_check (λ h. some h.interval);
  health_check_timeout = check_number group.health_check (λ h. h.timeout);
  transition_master = or_else group.transition_scripts.master "";
  transition_backup = or_else group.transition_scripts.backup "";
  transition_fault = or_else group.transition_scripts.fault "";
  transition_stop = or_else group.transition_scripts.stop "";
}

abbrev pub sync_group_scalar_fields : List (ScalarField VrrpSyncGroupFormValues)
sync_group_scalar_fields =
    record { get = λ v. v.health_check_ping; segments = "health-check" ∷ "ping" ∷ [] }
    ∷ record { get = λ v. v.health_check_script; segments = "health-check" ∷ "script" ∷ [] }
    ∷ record {
      get = λ v. v.health_check_failure_count;
      segments = "health-check" ∷ "failure-count" ∷ [];
    }
    ∷ record { get = λ v. v.health_check_interval; segments = "health-check" ∷ "interval" ∷ [] }
    ∷ record { get = λ v. v.health_check_timeout; segments = "health-check" ∷ "timeout" ∷ [] }
    ∷ record { get = λ v. v.transition_master; segments = "transition-script" ∷ "master" ∷ [] }
    ∷ record { get = λ v. v.transition_backup; segments = "transition-script" ∷ "backup" ∷ [] }
    ∷ record { get = λ v. v.transition_fault; segments = "transition-script" ∷ "fault" ∷ [] }
    ∷ record { get = λ v. v.transition_stop; segments = "transition-script" ∷ "stop" ∷ [] }
    ∷ []

unfoldable pub vrrp_sync_group_before : Option VrrpSyncGroup → VrrpSyncGroupFormValues
unfolding vrrp_sync_group_to_form_values
vrrp_sync_group_before none = blank_vrrp_sync_group_form_values
vrrp_sync_group_before (some before) = vrrp_sync_group_to_form_values before

unfoldable pub vrrp_sync_group_form_to_ops :
    String → Option VrrpSyncGroup → VrrpSyncGroupFormValues → List ConfigOp
unfolding vrrp_sync_group_path vrrp_sync_group_before scalar_ops
vrrp_sync_group_form_to_ops name before values =
    let base = vrrp_sync_group_path name [] in
    create_ops base before
    ++ scalar_ops (λ segments. base ++ segments) sync_group_scalar_fields
        (vrrp_sync_group_before before) values

unfoldable pub delete_vrrp_sync_group_op : String → ConfigOp
unfolding vrrp_sync_group_path
delete_vrrp_sync_group_op name = delete_node (vrrp_sync_group_path name [])

unfoldable pub add_vrrp_sync_group_member_op : String → String → ConfigOp
unfolding vrrp_sync_group_path
add_vrrp_sync_group_member_op sync_group_name member_name =
    set_value (vrrp_sync_group_path sync_group_name ("member" ∷ [])) member_name

unfoldable pub remove_vrrp_sync_group_member_op : String → String → ConfigOp
unfolding vrrp_sync_group_path
remove_vrrp_sync_group_member_op sync_group_name member_name =
    delete_value (vrrp_sync_group_path sync_group_name ("member" ∷ [])) member_name
