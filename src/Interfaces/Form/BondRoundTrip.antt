-- ===== src/Interfaces/Form/BondRoundTrip.antt =====
-- Saving the form of a bond: lib/interfaceConfigForm.ts.
use vyos_client.Base.{String, Option, none, some, [], ◌≡◌, refl, ap}
use vyos_client.Base.Text.{trim}
use vyos_client.Json.{Value, undefined, as_string, child, is_flag_present}
use vyos_client.Json.Paths.{get_path}
use vyos_client.Config.Router.{Router}
use vyos_client.Config.Router.Runs.{run_all}
use vyos_client.Config.Diff.{diff_to_ops}
use vyos_client.Config.Diff.Effect.{Saved}
use vyos_client.Config.Diff.Form.{Form, opened_values, IsOpened, HasSingleFields, form-round_trip}
use vyos_client.Config.Diff.Shown.{saved_text, shown-edited, toggled-eq-new, read-edited}
use vyos_client.Interfaces.Types.{BondInterface, bond_modes, bond_hash_policies, bond_lacp_rates}
use vyos_client.Interfaces.Parse.{parse_bond_interface, as_number, as_choice, bond_path}
use vyos_client.Interfaces.Form.{
  BondFormValues, blank_bond_form_values, bond_to_form_values, common_to_form_values,
  bond_scalar_fields, common_flag_fields, bond_form_to_ops, number_text,
}
use vyos_client.Interfaces.Form.Choices.{
  IsNumberText, shown_number, shown_number-typed, missing-shown_number, IsChoice, shown_choice,
  shown_choice-typed, saved_or, read-edited_or,
}

-- What the form shows when it is opened again.
abbrev pub saved_values : BondFormValues → BondFormValues → BondFormValues
saved_values before values = record {
  common = record {
    description = saved_text before.common.description values.common.description;
    disabled = values.common.disabled;
    mac = saved_text before.common.mac values.common.mac;
    mtu = saved_text before.common.mtu values.common.mtu;
    vrf = saved_text before.common.vrf values.common.vrf;
  };
  mode = saved_or "802.3ad" before.mode values.mode;
  hash_policy = saved_text before.hash_policy values.hash_policy;
  primary = saved_text before.primary values.primary;
  lacp_rate = saved_text before.lacp_rate values.lacp_rate;
  min_links = saved_text before.min_links values.min_links;
}

-- Numbers are typed as their digits, and choices are chosen.
abbrev pub IsBond : BondFormValues → Type 0
IsBond values =
    IsNumberText (trim values.common.mtu)
    × IsNumberText (trim values.min_links)
    × IsChoice bond_modes (trim values.mode)
    × IsChoice bond_hash_policies (trim values.hash_policy)
    × IsChoice bond_lacp_rates (trim values.lacp_rate)

pub parse-saved_values :
    (name : String) (raw raw' : Value) (before values : BondFormValues)
    → before ≡ bond_to_form_values (parse_bond_interface name raw)
    → IsBond values
    → Saved bond_scalar_fields (common_flag_fields (λ v. v.common)) before values raw raw'
    → bond_to_form_values (parse_bond_interface name raw') ≡ saved_values before values
unfolding parse_bond_interface bond_to_form_values common_to_form_values as_string
parse-saved_values name raw raw' before values h (mtu, links, mode, hash, rate)
      (
        (
          e_description,
          (e_mac, (e_mtu, (e_vrf, (e_mode, (e_hash, (e_primary, (e_rate, (e_links, _)))))))),
        ),
        (e_disabled, _),
      ) =
    λ i. record {
      common = record {
        description =
            shown-edited _ _ _ (values.common.description) (ap (λ f. f.common.description) h)
              e_description i;
        disabled =
            toggled-eq-new _ _ _ (values.common.disabled) (ap (λ f. f.common.disabled) h) e_disabled
              i;
        mac = shown-edited _ _ _ (values.common.mac) (ap (λ f. f.common.mac) h) e_mac i;
        mtu =
            read-edited shown_number _ _ _ values.common.mtu
              (shown_number-typed (trim values.common.mtu) mtu) missing-shown_number
              (ap (λ f. f.common.mtu) h) e_mtu i;
        vrf = shown-edited _ _ _ (values.common.vrf) (ap (λ f. f.common.vrf) h) e_vrf i;
      };
      mode =
          read-edited_or "802.3ad" (shown_choice bond_modes "802.3ad") _ _ _ values.mode
            (shown_choice-typed bond_modes "802.3ad" (trim values.mode) mode) refl
            (ap (λ f. f.mode) h) e_mode i;
      hash_policy =
          read-edited (shown_choice bond_hash_policies "") _ _ _ values.hash_policy
            (shown_choice-typed bond_hash_policies "" (trim values.hash_policy) hash) refl
            (ap (λ f. f.hash_policy) h) e_hash i;
      primary = shown-edited _ _ _ (values.primary) (ap (λ f. f.primary) h) e_primary i;
      lacp_rate =
          read-edited (shown_choice bond_lacp_rates "") _ _ _ values.lacp_rate
            (shown_choice-typed bond_lacp_rates "" (trim values.lacp_rate) rate) refl
            (ap (λ f. f.lacp_rate) h) e_rate i;
      min_links =
          read-edited shown_number _ _ _ values.min_links
            (shown_number-typed (trim values.min_links) links) missing-shown_number
            (ap (λ f. f.min_links) h) e_links i;
    }

pub blank_form :
    (name : String)
    → blank_bond_form_values ≡ bond_to_form_values (parse_bond_interface name undefined)
unfolding parse_bond_interface bond_to_form_values common_to_form_values child as_string as_number
    as_choice number_text is_flag_present
blank_form name = refl

abbrev pub form : (name : String) → Form BondInterface BondFormValues
form name = record {
  parse = λ raw. parse_bond_interface name raw;
  to_values = bond_to_form_values;
  blank = blank_bond_form_values;
  scalar_fields = bond_scalar_fields;
  flag_fields = common_flag_fields (λ v. v.common);
  saved = saved_values;
  IsAccepted = IsBond;
  is_separate = refl;
  blank-parse = blank_form name;
  saved-parse = parse-saved_values name;
}

bond_form_to_ops-diff :
    (name : String) (before : Option BondInterface) (values : BondFormValues)
    → bond_form_to_ops name before values
      ≡ diff_to_ops
          (bond_path name [])
          bond_scalar_fields
          (common_flag_fields (λ v. v.common))
          (opened_values (form name) before)
          values
unfolding bond_form_to_ops
bond_form_to_ops-diff name none values = refl
bond_form_to_ops-diff name (some before) values = refl

-- After the form of a bond has been saved, the bond that is parsed shows in each field what was typed,
-- trimmed where it was edited; a mode that was blanked shows as the default. The form was opened on the
-- node that was there, or on none, and each field's node holds one value. The MTU and the number of
-- links are blank or the decimal digits of a number up to 2^53 - 1, with no zero in front, as a number
-- comes back without it; the mode, the hash policy and the LACP rate are blank or among those that the
-- parser knows.
pub bond_form_to_ops-round_trip :
    (r : Router) (s : r.State) (name : String) (before : Option BondInterface)
    (values : BondFormValues)
    → IsOpened (form name) (get_path (r.tree s) (bond_path name [])) before
    → HasSingleFields (form name) r (bond_path name [])
    → IsBond values
    → bond_to_form_values (
        parse_bond_interface name (
          get_path
            (r.tree (run_all r s (bond_form_to_ops name before values)))
            (bond_path name [])))
      ≡ saved_values (opened_values (form name) before) values
bond_form_to_ops-round_trip r s name before values opened single accepted =
    form-round_trip (form name) r s (bond_path name []) before values _
      (bond_form_to_ops-diff name before values) opened single accepted
