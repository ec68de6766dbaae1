-- ===== src/Tests/Queue.antt =====
-- The queue at concrete changes.
use vyos_client.Base.{String, Bool, true, false, none, List, [], ◌∷◌, ◌++◌, ◌≡◌, refl}
use mathlib.Core.List.{Memᴰ}
use vyos_client.Config.Op.{set_node, set_value, delete_node}
use vyos_client.Store.Pending.{
  PendingChange, NewChange, Enabled, add, latest_pending_op, partialize, with_pending_enable,
  same_path, is_valueless, cancels, has_pending_delete,
}
use vyos_client.Config.Op.{delete}
use vyos_client.Store.Pending.Latest.{Asks, latest-add_self}
use vyos_client.Store.Pending.Cancel.{add-takes_back}
use vyos_client.Store.Pending.Enable.{with_pending_enable-decided, with_pending_enable-stays_off}
use vyos_client.Store.Pending.Persist.{partialize-secret}
use vyos_client.Masking.{normalize}
use vyos_client.Masking.Secrets.{SecretPath}

abbrev ssh : List String
ssh = "service" ∷ "ssh" ∷ []

abbrev lldp : List String
lldp = "service" ∷ "lldp" ∷ []

abbrev disable_ssh : PendingChange
disable_ssh = record { id = "1"; op = delete_node ssh; label = "Disable SSH" }

abbrev enable_lldp : PendingChange
enable_lldp = record { id = "2"; op = set_node lldp; label = "Enable LLDP" }

abbrev queue : List PendingChange
queue = disable_ssh ∷ enable_lldp ∷ []

abbrev enable_ssh : NewChange
enable_ssh = record { op = set_node ssh; label = "Enable SSH" }

abbrev set_port : NewChange
set_port = record { op = set_value ("service" ∷ "ssh" ∷ "port" ∷ []) "22"; label = "Port" }

latest-add_self_example :
    Asks set_port.op (latest_pending_op (add "3" set_port queue) set_port.op.path)
latest-add_self_example = unfold cancels in latest-add_self "3" set_port queue refl

add-takes_back_example :
    (earlier : List PendingChange) × (taken : PendingChange) × (later : List PendingChange) × (queue
      ≡ earlier ++ taken ∷ later)
    × (add "3" enable_ssh queue ≡ earlier ++ later)
    × (is_valueless delete taken.op ≡ true)
    × (same_path taken.op.path ssh ≡ true)
    × (latest_pending_op later ssh ≡ none)
unfolding cancels
add-takes_back_example = add-takes_back "3" enable_ssh queue refl

-- A configuration that is its flag.
abbrev flag : Enabled Bool
flag = record { enabled = λ b. b; with_enabled = λ b c. c }

with_pending_enable-decided_example : with_pending_enable flag true ssh queue ≡ false
unfolding latest_pending_op
with_pending_enable-decided_example = with_pending_enable-decided flag (λ t b. refl) true ssh queue

abbrev set_password : PendingChange
set_password = record {
  id = "4";
  op = set_value ("user" ∷ "Plaintext_Password" ∷ []) "hunter2";
  label = "Password";
}

partialize-secret_example : ¬ Memᴰ set_password (partialize (disable_ssh ∷ set_password ∷ []))
unfolding normalize
partialize-secret_example =
    partialize-secret (disable_ssh ∷ set_password ∷ []) set_password "hunter2"
      (SecretPath.named_leaf ("user" ∷ []) "Plaintext_Password" "plaintext-password" refl refl) refl
      (λ e. cc)

with_pending_enable-stays_off_example :
    with_pending_enable flag true ssh (
      add "3"
        (record { op = set_node ssh; label = "Enable SSH" })
        (disable_ssh ∷ enable_lldp ∷ disable_ssh ∷ []))
    ≡ false
unfolding same_path latest_pending_op has_pending_delete
with_pending_enable-stays_off_example =
    with_pending_enable-stays_off flag (λ t b. refl) true ssh "3" "Enable SSH"
      (disable_ssh ∷ enable_lldp ∷ []) [] disable_ssh refl refl refl refl
