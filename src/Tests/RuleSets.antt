-- ===== src/Tests/RuleSets.antt =====
-- A rule extension with one wanted rule, over a Hive that has an old version of it, a rule that is
-- no longer wanted and a rule of somebody else.
use lc_extension.Base.{
  ℕ, String, ◌==◌, ◌≡◌, refl, ap, true, false, List, [], ◌∷◌, ◌++◌, none, some, contains,
  if◌then◌else◌,
}
use lc_extension.Base.GoMap.{GoMap, lookup}
use lc_extension.Base.Effect.{Result, ok, err}
use lc_extension.Common.Value.{
  Value, Fields, get, Values, list, object, item, empty, Dict, end, field, text,
}
use lc_extension.Common.Schema.{pos}
use lc_extension.Common.Messages.{EventMessage, empty_message}
use lc_extension.Core.Platform.{Wire, platform_over}
use lc_extension.Core.Extension.Exchange.{panicked}
use lc_extension.Core.Extension.Serve.{open_body, serve_http}
use lc_extension.Simplified.Rules.Described.{rule_extension}
use lc_extension.Tests.Services.{mac, has_mac, decompress, access}
use lc_extension.Core.Extension.{verify_origin, return_of}
use lc_extension.Simplified.Rules.{
  RuleInfo, RuleData, RuleConfig, HiveRecord, RecordId, Operation, set_record, del_record, Json,
  Target, merge_tags, are_equal, rule_to_set, consider, considered, joined, plan_sets, plan_dels,
  is_wanted, then_dels, plan_update,
}
use lc_extension.Simplified.Rules.Applied.{run}
use lc_extension.Simplified.Rules.Everywhere.{AfterUpdate, on_update-AsWanted}
use lc_extension.Simplified.Rules.Again.{plan_again}
use lc_extension.Simplified.Rules.Rewriting.{
  suppression, put, suppress_report, suppress_one, both, suppress_all, with_respond, suppress_in,
  add_suppression,
}
use lc_extension.Simplified.Rules.Reports.{RewritesAll, add_suppression_lem}
use lc_extension.Simplified.Rules.TagSets.{tags_of, removals-plan_dels}
use lc_extension.Simplified.Rules.Update.{
  RuleService, target, before, listed, gather, executed, on_update, shim_suppression_time,
  validate_config,
}
use lc_extension.Simplified.Rules.Events.{removals, gather_removals}
use lc_extension.Simplified.Rules.Suppression.{validate_config-shim}
use lc_extension.Simplified.Rules.Panics.{serve_http-unsubscribe_panics}

-- The text of a dictionary is that of its entry "v".
abbrev value_text : Value → String
value_text (text v) = v
value_text _ = "?"

abbrev text_v : Dict → String
text_v none = "null"
text_v (some end) = "{}"
text_v (some (field k v fs)) = value_text v

abbrev versioned : String → Dict
versioned v = some (field "v" (text v) end)

-- What is read back has the entry "v" only.
abbrev read_back : Dict → Dict
read_back none = none
read_back (some end) = some end
read_back (some (field k v fs)) = versioned (value_text v)

abbrev json : Json
json = record {
  read_back = read_back;
  marshal = λ d. ok (text_v d);
  import_from_struct = λ d. ok d;
}

read_back-text_v : (d : Dict) → text_v (read_back d) ≡ text_v d
read_back-text_v none = refl
read_back-text_v (some end) = refl
read_back-text_v (some (field k v fs)) = refl

abbrev scans : GoMap RuleInfo
scans = ("scan", record { tags = "soc" ∷ []; payload = versioned "2" }) ∷ []

abbrev stored : GoMap HiveRecord
stored =
    ("scan", record { payload = versioned "1"; enabled = true; tags = "ext:dr" ∷ [] })
    ∷ ("old", record { payload = versioned "1"; enabled = true; tags = "ext:dr" ∷ [] })
    ∷ ("other", record { payload = versioned "1"; enabled = true; tags = [] })
    ∷ []

abbrev configured : Result RuleConfig
configured = ok (record { disable_by_default = false; global_suppression_time = "1h" })

abbrev service : RuleService
service = record {
  World = ℕ;
  Org = String;
  get_oid = λ o. o;
  json = json;
  rule_config = λ d. configured;
  rule_update_request = λ d. ok (object end);
  parse_duration = λ t. if t == "1h" then ok (pos 3600000000000) else err "no duration";
  atoi = λ t. none;
  get_rules = λ w. (ok (("general", scans) ∷ []), w);
  list_records = λ o hive w. (ok stored, w);
  list_tags = λ o hive w. (ok (tags_of stored), w);
  add_record = λ o id r w. (ok tt, w);
  remove_record = λ o id w. (ok tt, w);
  execute = λ o ops w. (ok ("" ∷ "RATE_LIMITED" ∷ []), w);
  event_handlers = [];
}

abbrev goal : Target json
goal = record {
  tag = "ext:dr";
  oid = "org-1";
  hive_name = "dr-general";
  disable_by_default = false;
  suppression_time = "";
}

abbrev id : String → RecordId
id name = record { hive = "dr-general"; partition = "org-1"; name = name }

abbrev planned : List Operation
planned =
    set_record (id "scan")
      (record { payload = versioned "2"; enabled = true; tags = "ext:dr" ∷ "soc" ∷ [] })
    ∷ del_record (id "old")
    ∷ []

plan-planned : plan_update json goal scans stored ≡ some planned
unfolding plan_update then_dels plan_sets considered joined consider rule_to_set are_equal plan_dels
    is_wanted lookup merge_tags
plan-planned = refl

abbrev updates : RuleConfig
updates = record { disable_by_default = false; global_suppression_time = "" }

-- The wanted rules of one namespace, with a rule for a second one, whose Hive has the same records
abbrev everywhere : RuleData
everywhere = ("general", scans) ∷ ("managed", []) ∷ []

abbrev quiet_everywhere : RuleService
quiet_everywhere = record service {
  rule_config = λ d. ok updates;
  get_rules = λ w. (ok everywhere, w);
}

abbrev managed_id : String → RecordId
managed_id name = record { hive = "dr-managed"; partition = "org-1"; name = name }

abbrev planned_everywhere : List Operation
planned_everywhere =
    planned ++ (del_record (managed_id "scan") ∷ del_record (managed_id "old") ∷ [])

gather-everywhere :
    gather quiet_everywhere "dr" "org-1" updates everywhere 0 ≡ (some planned_everywhere, 0)
unfolding gather listed before plan_update then_dels plan_sets considered joined consider
    rule_to_set are_equal plan_dels is_wanted lookup merge_tags shim_suppression_time
gather-everywhere = refl

on_update-AsWanted_example :
    (on_update quiet_everywhere "dr" "org-1" none 0
      ≡ return_of
          (executed quiet_everywhere "dr" (quiet_everywhere.execute "org-1" planned_everywhere 0)))
    × AfterUpdate quiet_everywhere "dr" "org-1" updates
        (λ hive. stored)
        (λ hive w. refl)
        "general"
        "old"
        (lookup "general" everywhere)
        planned_everywhere
unfolding lookup
on_update-AsWanted_example =
    on_update-AsWanted quiet_everywhere "dr" "org-1" updates (λ hive. stored) (λ hive w. refl) none
      "general" "old" ((refl, tt), (tt, tt)) (tt, tt) ((refl, (refl, tt)), ((refl, tt), (tt, tt)))
      refl refl gather-everywhere

plan_again_example :
    ((payload : Dict) × (r : HiveRecord) × (rule_to_set json "" (versioned "2") ≡ some payload)
      × (lookup "scan" (run json goal planned stored) ≡ some r)
      × (json.marshal r.payload ≡ json.marshal payload))
    × (plan_update json goal scans (run json goal planned stored) ≡ some [])
unfolding lookup
plan_again_example =
    plan_again json goal (λ d. (text_v d, refl)) (λ d. ap ok (read_back-text_v d)) scans stored
      planned "scan" (tt, tt) ((refl, (refl, tt)), ((refl, tt), (tt, tt))) plan-planned refl

abbrev report_rule : String → Fields
report_rule period = field "detect" (text "x") (
    field "respond"
      (list (
        item
          (object (
            field "action" (text "report") (
              field "name" (text "found") (
                if period == ""
                then end
                else field "suppression" (suppression "found" period) end))))
          empty))
      end)

add_suppression_lem_example :
    (vs ws : Values) × (get "respond" (report_rule "") ≡ list vs)
    × (get "respond" (report_rule "1h") ≡ list ws)
    × RewritesAll "1h" vs ws
    × ((k : String) → ("respond" == k) ≡ false → get k (report_rule "1h") ≡ get k (report_rule ""))
unfolding add_suppression suppress_in with_respond suppress_all both suppress_one suppress_report
    put get
add_suppression_lem_example = add_suppression_lem (report_rule "") (report_rule "1h") "1h" refl

removals-plan_dels_example :
    removals service "dr" "org-1" "dr-general" (tags_of stored)
    ≡ plan_dels json
        (target service "dr" "org-1"
          (record { disable_by_default = false; global_suppression_time = "" })
          "general")
        []
        stored
removals-plan_dels_example =
    removals-plan_dels service "dr" "org-1"
      (record { disable_by_default = false; global_suppression_time = "" }) "general" stored

validate_config-shim_example : shim_suppression_time service "dr" "1h" ≡ "1h"
unfolding validate_config
validate_config-shim_example =
    validate_config-shim service "dr" none
      (record { disable_by_default = false; global_suppression_time = "1h" }) refl refl

abbrev leaving : EventMessage
leaving = record { org = access; event_name = "unsubscribe"; payload = none; config = none }

abbrev wire : Wire
wire = record {
  hmac_hex = mac;
  gunzip = decompress;
  unmarshal_message = λ body. ok (record (empty_message 20221218 "key") { event = some leaving });
  encode = λ r. ok "{}";
}

serve_http-unsubscribe_panics_example :
    serve_http
      (platform_over ℕ String (λ oad w. (ok oad.oid, w)) wire)
      (rule_extension service "dr" "secret" "")
      (record { signature = mac "secret" "leave"; content_encoding = ""; body = ok "leave" })
      (record { world = 7; reports = []; written = [] })
    ≡ panicked (record { world = 7; reports = []; written = [] })
unfolding open_body verify_origin gather_removals contains
serve_http-unsubscribe_panics_example =
    serve_http-unsubscribe_panics service "dr" wire (λ oad w. (ok oad.oid, w)) "secret" ""
      (record { signature = mac "secret" "leave"; content_encoding = ""; body = ok "leave" })
      (record { world = 7; reports = []; written = [] }) leaving {content = "leave"}
      {errors = "" ∷ "RATE_LIMITED" ∷ []} (has_mac "secret" "leave") refl refl refl refl refl refl
      refl refl refl refl refl
