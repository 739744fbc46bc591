-- ===== src/Common/Value.antt =====
-- Go's `interface{}` as the program fills it, and the SDK's `limacharlie.Dict`, which is a named
-- `map[string]interface{}`: a type assertion tells the two apart, so each has its constructor.
use lc_extension.Base.{String, Bool, List, Option, none, some, ◌==◌, if◌then◌else◌}

mutual
  pub data Value : Type 0 where
    nil : Value
    bool : Bool → Value
    -- a number by its decimal text
    number : String → Value
    text : String → Value
    -- []string
    texts : List String → Value
    -- []interface{}
    list : Values → Value
    -- []limacharlie.Dict, its elements with `dict`
    dicts : Values → Value
    -- map[string]interface{}
    object : Fields → Value
    -- limacharlie.Dict
    dict : Fields → Value

  pub data Values : Type 0 where
    empty : Values
    item : Value → Values → Values

  -- The entries of a map.
  pub data Fields : Type 0 where
    end : Fields
    field : String → Value → Fields → Fields

-- A `limacharlie.Dict`: the nil map, or a map.
abbrev pub Dict : Type 0
Dict = Option Fields

-- `limacharlie.Dict{}`
abbrev pub empty_dict : Dict
empty_dict = some end

-- `m[k]`, and the zero value for a missing key
unfoldable pub get : String → Fields → Value
get k end = nil
get k (field j v fs) = if j == k then v else get k fs

-- The same of a `Dict`: reading the nil map gives the zero value.
unfoldable pub get_dict : String → Dict → Value
unfolding get
get_dict k none = nil
get_dict k (some fs) = get k fs
