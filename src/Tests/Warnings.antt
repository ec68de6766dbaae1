-- ===== src/Tests/Warnings.antt =====
-- Configuration warnings at concrete rules.
use vyos_client.Base.{String, Option, none, some, [], ◌∷◌, ◌++◌, ◌≡◌, refl, ◌==◌, if◌then◌else◌}
use vyos_client.Json.{Value, null, arr, obj, empty_obj, empty_arr, item, field, str}
use vyos_client.Warnings.{ConfigWarningRule, evaluate_config_warning_rules}
use vyos_client.Warnings.Isolation.{evaluate_config_warning_rules-isolated}

abbrev named : ConfigWarningRule
named = record { id = "w-{name}"; query = "names"; message = "{name}"; description = none }

abbrev broken : ConfigWarningRule
broken = record { id = "broken"; query = "]["; message = "{name}"; description = none }

-- A library that knows one query, and throws on any other.
abbrev answers : Value → String → Option Value
answers facts query =
    if query == "names"
    then some (arr (item (obj (field "name" (str "WAN") empty_obj)) empty_arr))
    else none

warns :
    evaluate_config_warning_rules answers null (broken ∷ named ∷ [])
    ≡ record { id = "w-WAN"; message = "WAN" } ∷ []
unfolding evaluate_config_warning_rules
warns = refl

evaluate_config_warning_rules-isolated_example :
    evaluate_config_warning_rules answers null (named ∷ broken ∷ named ∷ [])
    ≡ evaluate_config_warning_rules answers null (named ∷ [])
      ++ evaluate_config_warning_rules answers null (named ∷ [])
evaluate_config_warning_rules-isolated_example =
    evaluate_config_warning_rules-isolated answers null (named ∷ []) broken (named ∷ []) tt
