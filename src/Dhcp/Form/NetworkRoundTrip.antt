-- ===== src/Dhcp/Form/NetworkRoundTrip.antt =====
-- Saving the form of a shared network.
use vyos_client.Base.{String, Bool, Option, none, some, [], ◌≡◌, refl, ap}
use vyos_client.Json.{Value, undefined, as_string, child, is_flag_present}
use vyos_client.Json.Paths.{get_path}
use vyos_client.Config.Router.{Router}
use vyos_client.Config.Router.Runs.{run_all}
use vyos_client.Config.Diff.{diff_to_ops}
use vyos_client.Config.Diff.Effect.{Saved}
use vyos_client.Config.Diff.Form.{Form, opened_values, IsOpened, HasSingleFields, form-round_trip}
use vyos_client.Config.Diff.Shown.{saved_text, shown-edited, toggled-eq-new}
use vyos_client.Dhcp.Types.{DhcpSharedNetwork}
use vyos_client.Dhcp.Parse.{parse_shared_network, parse_options, shared_network_path}
use vyos_client.Dhcp.Form.{
  options_scalar_fields, options_to_form_values, SharedNetworkFormValues,
  blank_shared_network_form_values, shared_network_to_form_values, shared_network_flag_fields,
  shared_network_before, shared_network_form_to_ops,
}

-- What the form shows when it is opened again.
abbrev pub saved_values :
    SharedNetworkFormValues → SharedNetworkFormValues → SharedNetworkFormValues
saved_values before values = record {
  options = record {
    default_router = saved_text before.options.default_router values.options.default_router;
    domain_name = saved_text before.options.domain_name values.options.domain_name;
  };
  authoritative = values.authoritative;
}

pub parse-saved_values :
    (locale_before numeric_before : String → String → Bool) (name : String) (raw raw' : Value)
    (before values : SharedNetworkFormValues)
    → before
      ≡ shared_network_to_form_values (parse_shared_network locale_before numeric_before name raw)
    → Unit {0}
    → Saved
        (options_scalar_fields SharedNetworkFormValues (λ v. v.options))
        shared_network_flag_fields
        before
        values
        raw
        raw'
    → shared_network_to_form_values (parse_shared_network locale_before numeric_before name raw')
      ≡ saved_values before values
unfolding parse_shared_network parse_options shared_network_to_form_values options_to_form_values
parse-saved_values locale_before numeric_before name raw raw' before values h k
      ((e_options_default_router, (e_options_domain_name, _)), (e_authoritative, _)) =
    λ i. record {
      options = record {
        default_router =
            shown-edited _ _ _ (values.options.default_router)
              (ap (λ f. f.options.default_router) h) e_options_default_router i;
        domain_name =
            shown-edited _ _ _ (values.options.domain_name) (ap (λ f. f.options.domain_name) h)
              e_options_domain_name i;
      };
      authoritative =
          toggled-eq-new _ _ _ (values.authoritative) (ap (λ f. f.authoritative) h) e_authoritative
            i;
    }

pub blank_form :
    (locale_before numeric_before : String → String → Bool) (name : String)
    → blank_shared_network_form_values
      ≡ shared_network_to_form_values
          (parse_shared_network locale_before numeric_before name undefined)
unfolding parse_shared_network parse_options shared_network_to_form_values options_to_form_values
    child as_string is_flag_present
blank_form locale_before numeric_before name = refl

abbrev pub form :
    (locale_before numeric_before : String → String → Bool) (name : String)
    → Form DhcpSharedNetwork SharedNetworkFormValues
form locale_before numeric_before name = record {
  parse = λ raw. parse_shared_network locale_before numeric_before name raw;
  to_values = shared_network_to_form_values;
  blank = blank_shared_network_form_values;
  scalar_fields = (options_scalar_fields SharedNetworkFormValues (λ v. v.options));
  flag_fields = shared_network_flag_fields;
  saved = saved_values;
  IsAccepted = λ values. Unit {0};
  is_separate = refl;
  blank-parse = blank_form locale_before numeric_before name;
  saved-parse = parse-saved_values locale_before numeric_before name;
}

-- The form is the generic diff over its node.
shared_network_form_to_ops-diff :
    (locale_before numeric_before : String → String → Bool) (name : String)
    (before : Option DhcpSharedNetwork) (values : SharedNetworkFormValues)
    → shared_network_form_to_ops name before values
      ≡ diff_to_ops
          (shared_network_path name [])
          (options_scalar_fields SharedNetworkFormValues (λ v. v.options))
          shared_network_flag_fields
          (opened_values (form locale_before numeric_before name) before)
          values
unfolding shared_network_form_to_ops shared_network_before
shared_network_form_to_ops-diff locale_before numeric_before name none values = refl
shared_network_form_to_ops-diff locale_before numeric_before name (some before) values = refl

-- After its commands have run, the shared network that is parsed shows the chosen flag and, in each
-- text field, the text that was typed, trimmed where it was edited. The form was opened on the node that
-- was there, or on none, and each field's node holds one value.
pub shared_network_form_to_ops-round_trip :
    (r : Router) (s : r.State) (locale_before numeric_before : String → String → Bool)
    (name : String) (before : Option DhcpSharedNetwork) (values : SharedNetworkFormValues)
    → IsOpened
        (form locale_before numeric_before name)
        (get_path (r.tree s) (shared_network_path name []))
        before
    → HasSingleFields (form locale_before numeric_before name) r (shared_network_path name [])
    → shared_network_to_form_values (
        parse_shared_network locale_before numeric_before name (
          get_path
            (r.tree (run_all r s (shared_network_form_to_ops name before values)))
            (shared_network_path name [])))
      ≡ saved_values (opened_values (form locale_before numeric_before name) before) values
shared_network_form_to_ops-round_trip r s locale_before numeric_before name before values opened
      single =
    form-round_trip (form locale_before numeric_before name) r s (shared_network_path name [])
      before values _
      (shared_network_form_to_ops-diff locale_before numeric_before name before values) opened
      single tt
