-- ===== src/Dhcp/Form/SubnetRoundTrip.antt =====
-- Saving the form of a subnet.
use vyos_client.Base.{ℕ, ◌⊎◌, inl, String, Bool, Option, none, some, [], ◌≡◌, refl, ap, inr}
use vyos_client.Json.{Value, undefined, as_string, child, str, to_text}
use vyos_client.Json.Paths.{get_path}
use vyos_client.Config.Router.{Router}
use vyos_client.Config.Router.Runs.{run_all}
use vyos_client.Config.Diff.{diff_to_ops}
use vyos_client.Config.Diff.Effect.{Saved}
use vyos_client.Config.Diff.Form.{Form, opened_values, IsOpened, HasSingleFields, form-round_trip}
use vyos_client.Config.Diff.Shown.{saved_text, shown-edited, read-edited}
use vyos_client.Base.Text.{trim}
use vyos_client.Base.Number.{show, to_number-show}
use vyos_client.Dhcp.Types.{DhcpSubnet}
use vyos_client.Dhcp.Parse.{parse_subnet, parse_options, as_number, subnet_path}
use vyos_client.Dhcp.Form.{
  options_to_form_values, SubnetFormValues, blank_subnet_form_values, subnet_to_form_values,
  subnet_scalar_fields, lease_text, subnet_before, subnet_form_to_ops,
}

-- What the form shows when it is opened again.
abbrev pub saved_values : SubnetFormValues → SubnetFormValues → SubnetFormValues
saved_values before values = record {
  options = record {
    default_router = saved_text before.options.default_router values.options.default_router;
    domain_name = saved_text before.options.domain_name values.options.domain_name;
  };
  subnet_id = saved_text before.subnet_id values.subnet_id;
  lease = saved_text before.lease values.lease;
}

-- A lease is blank, or the digits of a number.
abbrev pub IsLease : String → Type 0
IsLease text = (text ≡ "") ⊎ ((n : ℕ) × (text ≡ show n))

-- What the form shows for the lease's leaf.
abbrev shown_lease : Value → String
shown_lease v = lease_text (as_number v)

shown_lease-typed : (text : String) → IsLease text → (text ≡ "") ⊎ (shown_lease (str text) ≡ text)
unfolding as_number lease_text as_string to_text
shown_lease-typed text (inl e) = inl e
shown_lease-typed text (inr (n, e)) = inr (rw (e, to_number-show n) refl)

missing_lease : shown_lease undefined ≡ ""
unfolding as_number lease_text as_string
missing_lease = refl

pub parse-saved_values :
    (locale_before numeric_before : String → String → Bool) (cidr : String) (raw raw' : Value)
    (before values : SubnetFormValues)
    → before ≡ subnet_to_form_values (parse_subnet locale_before numeric_before cidr raw)
    → IsLease (trim values.lease)
    → Saved subnet_scalar_fields [] before values raw raw'
    → subnet_to_form_values (parse_subnet locale_before numeric_before cidr raw')
      ≡ saved_values before values
unfolding parse_subnet parse_options subnet_to_form_values options_to_form_values
parse-saved_values locale_before numeric_before cidr raw raw' before values h k
      ((e_options_default_router, (e_options_domain_name, (e_subnet_id, (e_lease, _)))), _) =
    λ i. record {
      options = record {
        default_router =
            shown-edited _ _ _ (values.options.default_router)
              (ap (λ f. f.options.default_router) h) e_options_default_router i;
        domain_name =
            shown-edited _ _ _ (values.options.domain_name) (ap (λ f. f.options.domain_name) h)
              e_options_domain_name i;
      };
      subnet_id = shown-edited _ _ _ (values.subnet_id) (ap (λ f. f.subnet_id) h) e_subnet_id i;
      lease =
          read-edited shown_lease _ _ _ values.lease (shown_lease-typed (trim values.lease) k)
            missing_lease (ap (λ f. f.lease) h) e_lease i;
    }

pub blank_form :
    (locale_before numeric_before : String → String → Bool) (cidr : String)
    → blank_subnet_form_values
      ≡ subnet_to_form_values (parse_subnet locale_before numeric_before cidr undefined)
unfolding parse_subnet parse_options subnet_to_form_values options_to_form_values child as_string
    as_number lease_text
blank_form locale_before numeric_before cidr = refl

abbrev pub form :
    (locale_before numeric_before : String → String → Bool) (cidr : String)
    → Form DhcpSubnet SubnetFormValues
form locale_before numeric_before cidr = record {
  parse = λ raw. parse_subnet locale_before numeric_before cidr raw;
  to_values = subnet_to_form_values;
  blank = blank_subnet_form_values;
  scalar_fields = subnet_scalar_fields;
  flag_fields = [];
  saved = saved_values;
  IsAccepted = λ values. IsLease (trim values.lease);
  is_separate = refl;
  blank-parse = blank_form locale_before numeric_before cidr;
  saved-parse = parse-saved_values locale_before numeric_before cidr;
}

-- The form is the generic diff over its node.
subnet_form_to_ops-diff :
    (locale_before numeric_before : String → String → Bool) (network_name cidr : String)
    (before : Option DhcpSubnet) (values : SubnetFormValues)
    → subnet_form_to_ops network_name cidr before values
      ≡ diff_to_ops
          (subnet_path network_name cidr [])
          subnet_scalar_fields
          []
          (opened_values (form locale_before numeric_before cidr) before)
          values
unfolding subnet_form_to_ops subnet_before
subnet_form_to_ops-diff locale_before numeric_before network_name cidr none values = refl
subnet_form_to_ops-diff locale_before numeric_before network_name cidr (some before) values = refl

-- After its commands have run, the subnet that is parsed shows in each field the text that was
-- typed, trimmed where it was edited. The form was opened on the subnet that was there, or on none,
-- each field's node holds one value, and the lease is blank or a number.
pub subnet_form_to_ops-round_trip :
    (r : Router) (s : r.State) (locale_before numeric_before : String → String → Bool)
    (network_name cidr : String) (before : Option DhcpSubnet) (values : SubnetFormValues)
    → IsOpened
        (form locale_before numeric_before cidr)
        (get_path (r.tree s) (subnet_path network_name cidr []))
        before
    → HasSingleFields (form locale_before numeric_before cidr) r (subnet_path network_name cidr [])
    → IsLease (trim values.lease)
    → subnet_to_form_values (
        parse_subnet locale_before numeric_before cidr (
          get_path
            (r.tree (run_all r s (subnet_form_to_ops network_name cidr before values)))
            (subnet_path network_name cidr [])))
      ≡ saved_values (opened_values (form locale_before numeric_before cidr) before) values
subnet_form_to_ops-round_trip r s locale_before numeric_before network_name cidr before values
      opened single accepted =
    form-round_trip (form locale_before numeric_before cidr) r s (subnet_path network_name cidr [])
      before values _
      (subnet_form_to_ops-diff locale_before numeric_before network_name cidr before values) opened
      single accepted
