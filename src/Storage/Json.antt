-- ===== src/Storage/Json.antt =====
-- The JSON values of an audit line, as `json.loads` gives them back.
use local_content_processor.Prelude.Integers.{ℤ, pos, negsuc}
use local_content_processor.Prelude.{
  ℕ, String, Bool, List, [], ◌∷◌, Option, none, some, str_eq, if◌then◌else◌,
}

mutual
  pub data Json : Type 0 where
    null : Json
    bool : Bool → Json
    num : ℕ → Json
    -- below zero by one more
    negative : ℕ → Json
    -- a float with three decimals, in thousandths
    thousandths : ℕ → Json
    str : String → Json
    arr : Items → Json
    obj : Members → Json

  pub data Items : Type 0 where
    nil : Items
    cons : Json → Items → Items

  pub data Members : Type 0 where
    end : Members
    member : String → Json → Members → Members

-- A dictionary that a line or its `extra` field holds, with its keys in the order of insertion.
abbrev pub Obj : Type 0
Obj = List (String × Json)

abbrev pub members : Obj → Members
members [] = end
members ((k, v) ∷ rest) = member k v (members rest)

-- An integer as a value.
abbrev pub int : ℤ → Json
int (pos n) = num n
int (negsuc n) = negative n

-- `d.get(k)` of a dictionary inside a value.
abbrev pub get_member : String → Members → Option Json
get_member k end = none
get_member k (member j v rest) = if str_eq j k then some v else get_member k rest

abbrev pub items : List String → Items
items [] = nil
items (s ∷ rest) = cons (str s) (items rest)

-- `value if value else None` of an optional text.
abbrev pub opt_str : Option String → Json
opt_str none = null
opt_str (some s) = str s
