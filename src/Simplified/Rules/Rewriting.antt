-- ===== src/Simplified/Rules/Rewriting.antt =====
-- addSuppression of simplified/dr.go: the suppression that is written into the reports of a rule.
use lc_extension.Base.{String, ◌==◌, Bool, false, [], ◌∷◌, Option, none, some, if◌then◌else◌}
use lc_extension.Common.Value.{
  Value, Values, Fields, Dict, nil, bool, number, text, texts, list, object, dict, empty, item, end,
  field, get,
}

-- `m[k] = v`
unfoldable pub put : String → Value → Fields → Fields
put k v end = field k v end
put k v (field j w fs) = if j == k then field k v fs else field j w (put k v fs)

-- What addSuppression does to a rule: it returns nil, it returns the rule with what it wrote into
-- it, or a type assertion panics.
pub data Rewritten : Type 0 where
  not_rewritten : Rewritten
  rewritten : Fields → Rewritten
  panicking : Rewritten

abbrev pub suppression : String → String → Value
suppression name suppression_time = dict (
    field "max_count" (number "1") (
      field "period" (text suppression_time)
        (field "is_global" (bool false) (field "keys" (texts (name ∷ [])) end))))

-- `r["action"] != "report"`, and `r["name"].(string)`
abbrev pub is_report : Value → Bool
is_report (text t) = t == "report"
is_report _ = false

abbrev pub asserted_text : Value → Option String
asserted_text (text t) = some t
asserted_text _ = none

-- One action of the response; `none` is a panic.
unfoldable pub suppress_report : String → Fields → Option String → Option Value
suppress_report suppression_time fs none = none
suppress_report suppression_time fs (some name) =
    some (object (put "suppression" (suppression name suppression_time) fs))

unfoldable pub suppress_one : String → Value → Option Value
unfolding suppress_report
suppress_one suppression_time (object fs) =
    if is_report (get "action" fs)
    then suppress_report suppression_time fs (asserted_text (get "name" fs))
    else some (object fs)
suppress_one suppression_time v = some v

unfoldable pub both : Option Value → Option Values → Option Values
both (some v) (some vs) = some (item v vs)
both _ _ = none

unfoldable pub suppress_all : String → Values → Option Values
unfolding both
suppress_all suppression_time empty = some empty
suppress_all suppression_time (item v vs) =
    both (suppress_one suppression_time v) (suppress_all suppression_time vs)

unfoldable pub with_respond : Fields → Option Values → Rewritten
with_respond fs none = panicking
with_respond fs (some vs) = rewritten (put "respond" (list vs) fs)

-- addSuppression, by what stands under "respond"
unfoldable pub suppress_in : String → Fields → Value → Rewritten
unfolding with_respond
suppress_in suppression_time fs nil = not_rewritten
suppress_in suppression_time fs (list empty) = not_rewritten
suppress_in suppression_time fs (list (item v vs)) =
    with_respond fs (suppress_all suppression_time (item v vs))
suppress_in suppression_time fs _ = panicking

unfoldable pub add_suppression : Dict → String → Rewritten
unfolding suppress_in get
add_suppression none suppression_time = not_rewritten
add_suppression (some fs) suppression_time = suppress_in suppression_time fs (get "respond" fs)
