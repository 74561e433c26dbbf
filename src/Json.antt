-- ===== src/Json.antt =====
-- Values of `json.loads`, and the questions that the code asks of a `dict`, a `list` and a `str`.
use agent_factor.Base.{String, Bool, Option, none, some, List, [], ◌∷◌}
use agent_factor.Base.{◌==◌, string_eq, if◌then◌else◌}

-- A number is kept as the text that `str` gives for it: no code that is modelled computes with one.
mutual
  pub data Json : Type 0 where
    null : Json
    boolean : Bool → Json
    number : String → Json
    str : String → Json
    array : Items → Json
    object : Fields → Json

  pub data Items : Type 0 where
    nil : Items
    cons : Json → Items → Items

  pub data Fields : Type 0 where
    end : Fields
    field : String → Json → Fields → Fields

abbrev pub items_list : Items → List Json
items_list nil = []
items_list (cons j js) = j ∷ items_list js

abbrev pub fields_list : Fields → List (String × Json)
fields_list end = []
fields_list (field k v fs) = (k, v) ∷ fields_list fs

abbrev pub from_items : List Json → Items
from_items [] = nil
from_items (j ∷ js) = cons j (from_items js)

abbrev pub from_fields : List (String × Json) → Fields
from_fields [] = end
from_fields ((k, v) ∷ fs) = field k v (from_fields fs)

abbrev pub strings : List String → Json
strings ss = array (texts ss)
  where
    texts : List String → Items
    texts [] = nil
    texts (s ∷ rest) = cons (str s) (texts rest)

-- `None` or a text
abbrev pub optional_str : Option String → Json
optional_str none = null
optional_str (some s) = str s

-- `d.get(key)` of a dict
unfoldable pub get_field : String → Fields → Option Json
unfolding string_eq
get_field k end = none
get_field k (field j v fs) = if j == k then some v else get_field k fs

abbrev pub get_field_or : String → Json → Fields → Json
get_field_or k d fs = elim (get_field k fs) [ none ↦ d | some v ↦ v ]

-- `value if isinstance(value, …)`
abbrev pub as_str? : Json → Option String
as_str? (str s) = some s
as_str? _ = none

abbrev pub as_list? : Json → Option (List Json)
as_list? (array js) = some (items_list js)
as_list? _ = none

abbrev pub as_dict? : Json → Option Fields
as_dict? (object fs) = some fs
as_dict? _ = none
