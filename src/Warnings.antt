-- ===== src/Warnings.antt =====
-- lib/configWarningRules.ts: the rules of the banner of configuration warnings. The JMESPath library's
-- `search` is an argument: it gives a value, or `none` where it throws. The rules themselves are the
-- data of configWarningRules.json and are an argument, too; `console.error` is left out.
pub mod Placeholders
pub mod Isolation
use Prim.Native.Char.{Char, code}
use Prim.Native.String.{[], ◌∷◌, ◌++◌}
use vyos_client.Base.{
  ℕ, zero, suc, String, Bool, true, false, not, ◌&&◌, ◌||◌, Option, none, some, List, map, flat_map,
  leb, eqb, ◌==◌, if◌then◌else◌, ◌≡◌, refl,
}
use vyos_client.Base.Number.{to_number, show}
use vyos_client.Json.{
  Value, undefined, null, boolean, number, str, obj, arr, Items, empty_arr, item, child, to_text,
  field, empty_obj,
}

pub record ConfigWarningRule : Type 0 where
  pub id : String
  pub query : String
  pub message : String
  pub description : Option String

pub record ConfigWarning : Type 0 where
  pub id : String
  pub message : String

abbrev count : Items → ℕ
count empty_arr = 0
count (item v rest) = suc (count rest)

abbrev nth_item : Items → ℕ → Value
nth_item empty_arr n = undefined
nth_item (item v rest) zero = v
nth_item (item v rest) (suc n) = nth_item rest n

-- An array as an object: its length and its indices.
abbrev array_member : Items → String → Value
array_member items key =
    if key == "length" then number (show (count items)) else elim (to_number key) [
      | none ↦ undefined
      | some n ↦ if show n == key then nth_item items n else undefined
    ]

-- `context[key]`, where the context is the match if that is an object, and `{}` otherwise.
unfoldable pub context_member : Value → String → Value
unfolding to_number show child
context_member (obj fields) key = child (obj fields) key
context_member (arr items) key = array_member items key
context_member _ key = undefined

-- `value === undefined || value === null ? placeholder : String(value)`
abbrev pub replacement : String → Value → String
replacement key undefined = "{" ++ (key ++ "}")
replacement key null = "{" ++ (key ++ "}")
replacement key v = to_text v

-- `\w`
abbrev pub is_word : ℕ → Bool
is_word c =
    (leb b'a' c && leb c b'z')
    || (leb b'A' c && leb c b'Z')
    || (leb b'0' c && leb c b'9')
    || eqb c b'_'

-- `template.replace(/\{(\w+)\}/g, …)`, from left to right: `some key` holds what was read since the
-- last `{`, as long as it can still be a placeholder.
unfoldable pub replace_from : (String → Value) → Option String → String → String
unfolding to_text
replace_from context none [] = ""
replace_from context (some key) [] = "{" ++ key
replace_from context none (c ∷ s) =
    let plain = replace_from context none s in
    let opened = replace_from context (some "") s in if eqb (code c) b'{' then opened else c ∷ plain
replace_from context (some key) (c ∷ s) =
    let plain = replace_from context none s in
    let opened = replace_from context (some "") s in
    let longer = replace_from context (some (key ++ (c ∷ []))) s in
    if is_word (code c)
    then longer
    else if eqb (code c) b'}' && not (key == "")
    then replacement key (context key) ++ plain
    else if eqb (code c) b'{'
    then "{" ++ (key ++ opened)
    else "{" ++ (key ++ (c ∷ plain))

unfoldable pub interpolate : String → (String → Value) → String
unfolding replace_from
interpolate template context = replace_from context none template

module _ (search : Value → String → Option Value) where
  abbrev warning_for : ConfigWarningRule → Value → ConfigWarning
  warning_for rule v = record {
    id = interpolate rule.id (context_member v);
    message = interpolate rule.message (context_member v);
  }

  abbrev warnings_for : ConfigWarningRule → Items → List ConfigWarning
  warnings_for rule empty_arr = List.[]
  warnings_for rule (item v rest) = List.◌∷◌ (warning_for rule v) (warnings_for rule rest)

  -- One round of the loop over the rules.
  abbrev pub rule_warnings : ConfigWarningRule → Option Value → List ConfigWarning
  rule_warnings rule (some (arr items)) = warnings_for rule items
  rule_warnings rule _ = List.[]

  unfoldable pub evaluate_config_warning_rules : Value → List ConfigWarningRule → List ConfigWarning
  unfolding interpolate context_member
  evaluate_config_warning_rules facts rules =
      flat_map (λ rule. rule_warnings rule (search facts rule.query)) rules

interpolates :
    interpolate "{name}: {nope} {a b} {" (context_member (obj (field "name" (str "WAN") empty_obj)))
    ≡ "WAN: {nope} {a b} {"
unfolding interpolate context_member
interpolates = refl
