-- ===== src/Tests/Commands.antt =====
-- A command line extension with one tool, whose secret stands in the command.
use mathlib.Core.Path.{subst}
use lc_extension.Base.{
  ℕ, ◌+◌, String, ◌≡◌, refl, sym, ◌⊎◌, false, List, [], ◌∷◌, ◌++◌, Option, none, some, arith, All,
  length, ◌<◌, ◌==◌, inl, inr, Bool-cases, if◌then◌else◌, eq_iff,
}
use lc_extension.Base.GoMap.{GoMap}
use lc_extension.Base.Effect.{Result, ok}
use lc_extension.Common.Value.{Dict, end, field, text, get}
use lc_extension.Common.Messages.{Response}
use lc_extension.Core.Mask.{occurs}
use lc_extension.Simplified.Commands.{
  CliRunRequest, CliHandler, Instance, plain_error, request_value, hook, do_run, byte_length,
}
use lc_extension.Simplified.Commands.Ran.{Refuses, RanWithin, do_run-bounded}
use lc_extension.Simplified.Commands.Anonymous.{hook-hides}
use lc_extension.Simplified.Commands.Output.{
  Decoding, no_output, parse_dicts, from_dicts, try_parsing_output, try_parsing_output_lem,
}
use lc_extension.Tests.Clients.{senders}

abbrev listing : CliRunRequest
listing = record {
  command_line = "";
  command_tokens = "ls" ∷ "--key=hunter2" ∷ [];
  credentials = "hunter2";
  tool = "";
}

abbrev split : String → Result (List String)
split line = ok (line ∷ [])

abbrev secret : String → String
secret oid = oid

-- The tool's world counts its runs.
abbrev tool : CliHandler senders
tool tokens credentials s =
    ((no_output, some (plain_error "boom")), record s { world = s.world + 100 })

abbrev tools : GoMap (CliHandler senders)
tools = ("cli", tool) ∷ []

abbrev idle : Instance senders
idle = record { clients = record { world = 0; wh_clients = [] }; stops = [] }

abbrev ran : Response × Instance senders
ran = do_run senders split tools "cli" secret "org-1" listing "me" "inv" idle

do_run-bounded_example :
    (ran.1.stops ≡ [] ++ (ran.0.error ∷ []))
    × (Refuses senders split tools "cli" secret "org-1" listing "me" "inv" idle.clients
          (ran.0, ran.1.clients)
        ⊎ RanWithin senders split tools "cli" secret "org-1" listing "me" "inv" idle.clients
            (ran.0, ran.1.clients))
do_run-bounded_example =
    do_run-bounded senders split tools "cli" secret "org-1" listing "me" "inv" idle

hook-hides_example :
    (logged : CliRunRequest) × (get "request" (hook listing "me" "inv" no_output none)
      ≡ request_value logged)
    × (logged.tool ≡ "")
    × (length logged.command_tokens ≡ 2)
    × (logged.credentials ≡ "REDACTED")
    × (occurs "hunter2" logged.command_line ≡ false)
    × All (λ t. occurs "hunter2" t ≡ false) logged.command_tokens
hook-hides_example = hook-hides listing "me" "inv" no_output none refl

-- The reader is read to its end at once.
abbrev one : Dict
one = some (field "a" (text "1") end)

abbrev decode_two : String → Option (Dict × String)
decode_two left = if left == "AB" then some (one, "") else none

abbrev decoding : Decoding
decoding = record { decode_dict = decode_two; unmarshal_list = λ t. (false, []) }

rest_of : {A : Type 0} {p q : A × String} → some p ≡ some q → p.1 ≡ q.1
rest_of e = cc

none_found : {A : Type 0} {x : A} → none ≡ some x → ⊥
none_found p = cc

reads_on :
    (left rest : String) (d : Dict)
    → decode_two left ≡ some (d, rest)
    → byte_length rest < byte_length left
unfolding byte_length
reads_on left rest d found = elim (Bool-cases (left == "AB")) [
  | inl two ↦
      subst (λ r. byte_length r < byte_length left) (rest_of (rw two at found))
        (subst (λ l. byte_length "" < byte_length l) (sym ((eq_iff left "AB").0 two)) (omega arith))
  | inr other ↦ absurd (none_found (rw other at found))
]

try_parsing_output_lem_example :
    ((fuel : ℕ)
      → byte_length "AB" < fuel
      → try_parsing_output decoding "AB"
        ≡ from_dicts decoding "AB" (parse_dicts decoding fuel "AB"))
    × ((d : Dict)
        → decode_two "AB" ≡ some (d, "")
        → try_parsing_output decoding "AB" ≡ record no_output { output_dict = d })
try_parsing_output_lem_example = try_parsing_output_lem decoding "AB" reads_on refl
