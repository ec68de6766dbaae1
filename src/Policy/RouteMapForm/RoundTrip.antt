-- ===== src/Policy/RouteMapForm/RoundTrip.antt =====
-- Saving the form of a route map's rule: lib/routeMapForm.ts.
use vyos_client.Base.{
  take, drop, List, ◌∷◌, ◌++◌, true, sym, subst, ◌∙◌, All, String, Option, none, some, [], ◌≡◌,
  refl, ap, or_else, inr,
}
use vyos_client.Json.{Value, undefined, as_string, as_string_array, child, is_flag_present}
use vyos_client.Json.Paths.{get_path}
use vyos_client.Config.Router.{Router}
use vyos_client.Config.Router.Runs.{run_all}
use vyos_client.Config.Diff.{diff_to_ops, ScalarField}
use vyos_client.Config.Diff.Effect.{Saved, paths}
use vyos_client.Config.Diff.Saved.{diff_to_ops-Saved, diff_to_ops-untouched}
use vyos_client.Config.Diff.Separate.{apart_all}
use vyos_client.Config.Diff.Unedited.{IsUnedited, diff_to_ops-unedited, Saved-unedited}
use vyos_client.Config.Diff.Form.{Form, opened_values, IsOpened, opened_values-parse}
use vyos_client.Config.Diff.Shown.{saved_text, shown-edited, toggled-eq-new, read-edited}
use vyos_client.Policy.Types.{RouteMapRule}
use vyos_client.Policy.Parse.{
  parse_route_map_rule, parse_route_map_match, parse_route_map_set, first,
}
use vyos_client.Policy.Paths.{route_map_path, route_map_rule_path}
use vyos_client.Policy.RouteMapForm.{
  RouteMapRuleFormValues, blank_route_map_rule_form_values, route_map_rule_to_form_values,
  match_to_form_values, set_to_form_values, scalar_fields, flag_fields, route_map_rule_form_to_ops,
  route_map_rule_before,
}

-- What the form shows when it is opened again.
abbrev pub saved_values : RouteMapRuleFormValues → RouteMapRuleFormValues → RouteMapRuleFormValues
saved_values before values = record {
  action = saved_text before.action values.action;
  description = saved_text before.description values.description;
  call = saved_text before.call values.call;
  on_match_goto = saved_text before.on_match_goto values.on_match_goto;
  on_match_next = values.on_match_next;
  match = record {
    as_path = saved_text before.match.as_path values.match.as_path;
    community_list = saved_text before.match.community_list values.match.community_list;
    community_exact_match = values.match.community_exact_match;
    ip_prefix_list = saved_text before.match.ip_prefix_list values.match.ip_prefix_list;
    ipv6_prefix_list = saved_text before.match.ipv6_prefix_list values.match.ipv6_prefix_list;
    protocol = saved_text before.match.protocol values.match.protocol;
    metric = saved_text before.match.metric values.match.metric;
    local_preference = saved_text before.match.local_preference values.match.local_preference;
    tag = saved_text before.match.tag values.match.tag;
  };
  set = record {
    metric = saved_text before.set.metric values.set.metric;
    local_preference = saved_text before.set.local_preference values.set.local_preference;
    as_path_prepend = saved_text before.set.as_path_prepend values.set.as_path_prepend;
    as_path_exclude = saved_text before.set.as_path_exclude values.set.as_path_exclude;
    community_add = saved_text before.set.community_add values.set.community_add;
    community_replace = saved_text before.set.community_replace values.set.community_replace;
    community_none = values.set.community_none;
    community_delete = saved_text before.set.community_delete values.set.community_delete;
    origin = saved_text before.set.origin values.set.origin;
    tag = saved_text before.set.tag values.set.tag;
    weight = saved_text before.set.weight values.set.weight;
  };
}

-- A community, of which the form shows the first.
unfoldable pub first_text : Value → String
unfolding as_string_array
first_text v = or_else (first (as_string_array v)) ""

pub parse-saved_values :
    (rule_number : String) (raw raw' : Value) (before values : RouteMapRuleFormValues)
    → before ≡ route_map_rule_to_form_values (parse_route_map_rule rule_number raw)
    → Unit {0}
    → Saved scalar_fields flag_fields before values raw raw'
    → route_map_rule_to_form_values (parse_route_map_rule rule_number raw')
      ≡ saved_values before values
unfolding parse_route_map_rule parse_route_map_match parse_route_map_set
    route_map_rule_to_form_values match_to_form_values set_to_form_values first_text
parse-saved_values rule_number raw raw' before values h k
      (scalars, (e_on_match_next, (e_m_community_exact_match, (e_s_community_none, _)))) =
    let (e_action, (e_description, (e_call, (e_on_match_goto, more_1)))) = scalars in
    let (e_m_as_path, (e_m_community_list, (e_m_ip_prefix_list, (e_m_ipv6_prefix_list, more_2)))) =
      more_1 in
    let (e_m_protocol, (e_m_metric, (e_m_local_preference, (e_m_tag, more_3)))) = more_2 in
    let (e_s_metric, (e_s_local_preference, (e_s_as_path_prepend, (e_s_as_path_exclude, more_4)))) =
      more_3 in
    let (e_s_community_add, (e_s_community_replace, (e_s_community_delete, (e_s_origin, more_5)))) =
      more_4 in
    let (e_s_tag, (e_s_weight, _)) = more_5 in
    λ i. record {
      action = shown-edited _ _ _ (values.action) (ap (λ f. f.action) h) e_action i;
      description =
          shown-edited _ _ _ (values.description) (ap (λ f. f.description) h) e_description i;
      call = shown-edited _ _ _ (values.call) (ap (λ f. f.call) h) e_call i;
      on_match_goto =
          shown-edited _ _ _ (values.on_match_goto) (ap (λ f. f.on_match_goto) h) e_on_match_goto i;
      on_match_next =
          toggled-eq-new _ _ _ (values.on_match_next) (ap (λ f. f.on_match_next) h) e_on_match_next
            i;
      match = record {
        as_path =
            shown-edited _ _ _ (values.match.as_path) (ap (λ f. f.match.as_path) h) e_m_as_path i;
        community_list =
            shown-edited _ _ _ (values.match.community_list) (ap (λ f. f.match.community_list) h)
              e_m_community_list i;
        community_exact_match =
            toggled-eq-new _ _ _ (values.match.community_exact_match)
              (ap (λ f. f.match.community_exact_match) h) e_m_community_exact_match i;
        ip_prefix_list =
            shown-edited _ _ _ (values.match.ip_prefix_list) (ap (λ f. f.match.ip_prefix_list) h)
              e_m_ip_prefix_list i;
        ipv6_prefix_list =
            shown-edited _ _ _ (values.match.ipv6_prefix_list)
              (ap (λ f. f.match.ipv6_prefix_list) h) e_m_ipv6_prefix_list i;
        protocol =
            shown-edited _ _ _ (values.match.protocol) (ap (λ f. f.match.protocol) h) e_m_protocol
              i;
        metric = shown-edited _ _ _ (values.match.metric) (ap (λ f. f.match.metric) h) e_m_metric i;
        local_preference =
            shown-edited _ _ _ (values.match.local_preference)
              (ap (λ f. f.match.local_preference) h) e_m_local_preference i;
        tag = shown-edited _ _ _ (values.match.tag) (ap (λ f. f.match.tag) h) e_m_tag i;
      };
      set = record {
        metric = shown-edited _ _ _ (values.set.metric) (ap (λ f. f.set.metric) h) e_s_metric i;
        local_preference =
            shown-edited _ _ _ (values.set.local_preference) (ap (λ f. f.set.local_preference) h)
              e_s_local_preference i;
        as_path_prepend =
            shown-edited _ _ _ (values.set.as_path_prepend) (ap (λ f. f.set.as_path_prepend) h)
              e_s_as_path_prepend i;
        as_path_exclude =
            shown-edited _ _ _ (values.set.as_path_exclude) (ap (λ f. f.set.as_path_exclude) h)
              e_s_as_path_exclude i;
        community_add =
            read-edited first_text _ _ _ (values.set.community_add) (inr refl) refl
              (ap (λ f. f.set.community_add) h) e_s_community_add i;
        community_replace =
            read-edited first_text _ _ _ (values.set.community_replace) (inr refl) refl
              (ap (λ f. f.set.community_replace) h) e_s_community_replace i;
        community_none =
            toggled-eq-new _ _ _ (values.set.community_none) (ap (λ f. f.set.community_none) h)
              e_s_community_none i;
        community_delete =
            shown-edited _ _ _ (values.set.community_delete) (ap (λ f. f.set.community_delete) h)
              e_s_community_delete i;
        origin = shown-edited _ _ _ (values.set.origin) (ap (λ f. f.set.origin) h) e_s_origin i;
        tag = shown-edited _ _ _ (values.set.tag) (ap (λ f. f.set.tag) h) e_s_tag i;
        weight = shown-edited _ _ _ (values.set.weight) (ap (λ f. f.set.weight) h) e_s_weight i;
      };
    }

pub blank_form :
    (rule_number : String)
    → blank_route_map_rule_form_values
      ≡ route_map_rule_to_form_values (parse_route_map_rule rule_number undefined)
unfolding parse_route_map_rule parse_route_map_match parse_route_map_set
    route_map_rule_to_form_values match_to_form_values set_to_form_values first_text child as_string
    as_string_array is_flag_present
blank_form rule_number = refl

abbrev pub form : (rule_number : String) → Form RouteMapRule RouteMapRuleFormValues
form rule_number = record {
  parse = λ raw. parse_route_map_rule rule_number raw;
  to_values = route_map_rule_to_form_values;
  blank = blank_route_map_rule_form_values;
  scalar_fields = scalar_fields;
  flag_fields = flag_fields;
  saved = saved_values;
  IsAccepted = λ values. Unit {0};
  is_separate = refl;
  blank-parse = blank_form rule_number;
  saved-parse = parse-saved_values rule_number;
}

-- The form is the generic diff over its node.
route_map_rule_form_to_ops-diff :
    (map_name rule_number : String) (before : Option RouteMapRule) (values : RouteMapRuleFormValues)
    → route_map_rule_form_to_ops map_name rule_number before values
      ≡ diff_to_ops
          (route_map_rule_path map_name rule_number [])
          scalar_fields
          flag_fields
          (opened_values (form rule_number) before)
          values
unfolding route_map_rule_form_to_ops diff_to_ops route_map_rule_before route_map_path
    route_map_rule_path
route_map_rule_form_to_ops-diff map_name rule_number none values = refl
route_map_rule_form_to_ops-diff map_name rule_number (some before) values = refl

-- `set community add` and `replace`, where VyOS holds several values, among the other fields.
abbrev pub first_fields : List (ScalarField RouteMapRuleFormValues)
first_fields = take 16 scalar_fields

abbrev pub community_fields : List (ScalarField RouteMapRuleFormValues)
community_fields = take 2 (drop 16 scalar_fields)

abbrev pub last_fields : List (ScalarField RouteMapRuleFormValues)
last_fields = drop 18 scalar_fields

-- After its commands have run, the rule parsed from the route map shows the flags that were chosen
-- and, in each text field, the text that was typed, trimmed where it was edited. The form was opened
-- on the rule that was there, or on none, the communities to add and to replace by were left as they
-- were, and each other field's node holds one value.
pub route_map_rule_form_to_ops-round_trip :
    (r : Router) (s : r.State) (map_name rule_number : String) (before : Option RouteMapRule)
    (values : RouteMapRuleFormValues)
    → IsOpened
        (form rule_number)
        (get_path (r.tree s) (route_map_rule_path map_name rule_number []))
        before
    → IsUnedited (opened_values (form rule_number) before) values community_fields
    → All
        (λ p. r.single_valued (route_map_rule_path map_name rule_number [] ++ p) ≡ true)
        (paths (first_fields ++ last_fields) flag_fields)
    → route_map_rule_to_form_values (
        parse_route_map_rule rule_number (
          get_path
            (r.tree (run_all r s (route_map_rule_form_to_ops map_name rule_number before values)))
            (route_map_rule_path map_name rule_number [])))
      ≡ saved_values (opened_values (form rule_number) before) values
route_map_rule_form_to_ops-round_trip r s map_name rule_number before values opened unedited
      single =
    let base = route_map_rule_path map_name rule_number [] in
    let old_values = opened_values (form rule_number) before in
    let fields = first_fields ++ last_fields in
    let ops = diff_to_ops base fields flag_fields old_values values in
    let raw = get_path (r.tree s) base in
    let left_alone = λ (p : List String) (h : apart_all p (paths fields flag_fields) ≡ true).
      diff_to_ops-untouched r base fields flag_fields s old_values values p h in
    subst
      (λ ops.
        route_map_rule_to_form_values
          (parse_route_map_rule rule_number (get_path (r.tree (run_all r s ops)) base))
        ≡ saved_values old_values values)
      (sym (
        route_map_rule_form_to_ops-diff map_name rule_number before values
        ∙ diff_to_ops-unedited old_values values base first_fields community_fields last_fields
            flag_fields unedited))
      (parse-saved_values rule_number raw (get_path (r.tree (run_all r s ops)) base) old_values
        values (opened_values-parse (form rule_number) raw before opened) tt
        (Saved-unedited old_values values raw (get_path (r.tree (run_all r s ops)) base)
          first_fields community_fields last_fields flag_fields unedited
          (
            left_alone ("set" ∷ "community" ∷ "add" ∷ []) refl,
            (left_alone ("set" ∷ "community" ∷ "replace" ∷ []) refl, tt),
          )
          (diff_to_ops-Saved r base fields flag_fields s old_values values refl single)))
