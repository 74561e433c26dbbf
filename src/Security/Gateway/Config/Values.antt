-- ===== src/Security/Gateway/Config/Values.antt =====
-- The tests that the validation of a gateway configuration makes on the values of a document.
use agent_factor.Base.{String, Bool, true, false}
use agent_factor.Base.{Option, none, some, List}
use agent_factor.Base.{◌==◌, contains, string_eq, if◌then◌else◌, leb, all, str_length}
use agent_factor.Base.{Result, ok, err, guard, map_result}
use agent_factor.Base.{and_then as ◌>>=◌, then_do as ◌>>◌}
use agent_factor.Json.{Json, null, boolean, number, str, array, object, nil, Fields, get_field_or}
use agent_factor.Json.{fields_list}
use agent_factor.Json.{as_str?, as_list?, as_dict?}
use agent_factor.Security.Model.{Effect, record_only, remind, block}

abbrev pub effect_name : Effect → String
effect_name record_only = "record"
effect_name remind = "remind"
effect_name block = "block"

abbrev pub invalid : {A : Type 0} → Result A
invalid = err "gateway_config_invalid" 503

abbrev pub require : Bool → Result (Unit {0})
require test = guard test "gateway_config_invalid" 503

unfoldable pub effect_of_name : String → Option Effect
unfolding string_eq
effect_of_name s =
    if s == "record"
    then some record_only
    else if s == "remind"
    then some remind
    else if s == "block"
    then some block
    else none

-- `value in EFFECTS`: the test of a list or a dict raises `TypeError`, since it has no hash.
unfoldable pub effect_of : Json → Result Effect
unfolding effect_of_name
effect_of (str s) = elim (effect_of_name s) [ none ↦ invalid | some e ↦ ok e ]
effect_of (array js) = err "TypeError" 500
effect_of (object fs) = err "TypeError" 500
effect_of _ = invalid

-- `str(value)`; of a list or a dict the first character, which no identifier has.
unfoldable pub id_text : Json → String
id_text null = "None"
id_text (boolean true) = "True"
id_text (boolean false) = "False"
id_text (number n) = n
id_text (str s) = s
id_text (array js) = "["
id_text (object fs) = "{"

-- `not set(value) - allowed`
unfoldable pub only_keys : List String → Fields → Bool
unfolding string_eq all
only_keys allowed fs = all (λ (k, _). contains allowed k) (fields_list fs)

unfoldable pub dict_of : Json → Result Fields
dict_of j = elim (as_dict? j) [ none ↦ invalid | some fs ↦ ok fs ]

unfoldable pub list_of : Json → Result (List Json)
list_of j = elim (as_list? j) [ none ↦ invalid | some js ↦ ok js ]

unfoldable pub str_of : Json → Result String
str_of j = elim (as_str? j) [ none ↦ invalid | some s ↦ ok s ]

unfoldable pub short_str_of : Json → Result String
short_str_of j = do s ← str_of j; require (leb (str_length s) 2048); ok s

-- `rule.get(key, [])`, a list of texts of 2048 characters at most
unfoldable pub string_items : String → Fields → Result (List String)
unfolding map_result
string_items key fs = do
  items ← list_of (get_field_or key (array nil) fs)
  map_result short_str_of items
