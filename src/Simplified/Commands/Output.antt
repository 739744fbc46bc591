-- ===== src/Simplified/Commands/Output.antt =====
-- TryParsingOutput: what a tool prints, as dictionaries.
use lc_extension.Base.{
  ℕ, zero, suc, ◌<◌, String, ◌≡◌, refl, ap, ◌∙◌, Bool, true, false, List, [], ◌∷◌, Option, none,
  some, arith,
}
use lc_extension.Common.Value.{Dict}
use lc_extension.Common.Schema.{pos}
use lc_extension.Simplified.Commands.{CliReturnData, byte_length}

-- encoding/json: a new decoder over what is left of the output gives a dictionary and what it has
-- left for the next reader; and Unmarshal into a list gives whether it succeeded and the list
pub record Decoding : Type 0 where
  pub decode_dict : String → Option (Dict × String)
  pub unmarshal_list : String → Bool × List Dict

abbrev pub no_output : CliReturnData
no_output = record { status_code = pos 0; output_string = ""; output_dict = none; output_list = [] }

unfoldable pub next_dicts : Option (Dict × String) → (String → List Dict) → List Dict
next_dicts none more = []
next_dicts (some (d, rest)) more = d ∷ more rest

next_dicts-same :
    (o : Option (Dict × String)) (more others : String → List Dict)
    → ((d : Dict) (rest : String) → o ≡ some (d, rest) → more rest ≡ others rest)
    → next_dicts o more ≡ next_dicts o others
unfolding next_dicts
next_dicts-same none more others h = refl
next_dicts-same (some (d, rest)) more others h = ap (λ (ds : List Dict). d ∷ ds) (h d rest refl)

module _ (D : Decoding) where
  -- The loop; each round has a new decoder.
  unfoldable pub parse_dicts : ℕ → String → List Dict
  parse_dicts zero left = []
  parse_dicts (suc fuel) left = next_dicts (D.decode_dict left) (parse_dicts fuel)

  -- The list that Unmarshal filled counts even where it failed.
  unfoldable pub from_list : String → Bool × List Dict → CliReturnData
  from_list output (true, ds) = record no_output { output_list = ds }
  from_list output (false, []) = record no_output { output_string = output }
  from_list output (false, d ∷ ds) = record no_output { output_list = d ∷ ds }

  unfoldable pub from_dicts : String → List Dict → CliReturnData
  unfolding from_list
  from_dicts output [] = from_list output (D.unmarshal_list output)
  from_dicts output (d ∷ []) = record no_output { output_dict = d }
  from_dicts output (d ∷ d' ∷ ds) = record no_output { output_list = d ∷ d' ∷ ds }

  -- CLIExtension.TryParsingOutput; a round for each byte, and the last
  unfoldable pub try_parsing_output : String → CliReturnData
  unfolding from_dicts parse_dicts next_dicts
  try_parsing_output output = from_dicts output (parse_dicts (suc (byte_length output)) output)

  -- A decoder that gives a dictionary has read something.
  abbrev pub ReadsOn : Type 0
  ReadsOn =
      (left rest : String) (d : Dict)
      → D.decode_dict left ≡ some (d, rest)
      → byte_length rest < byte_length left

  parse_dicts-fuel :
      ReadsOn
      → (f g : ℕ) (left : String) → byte_length left < f
      → byte_length left < g
      → parse_dicts f left ≡ parse_dicts g left
  unfolding parse_dicts
  parse_dicts-fuel reads zero g left hf hg = absurd (omega arith)
  parse_dicts-fuel reads (suc f) zero left hf hg = absurd (omega arith)
  parse_dicts-fuel reads (suc f) (suc g) left hf hg =
      next_dicts-same (D.decode_dict left) (parse_dicts f) (parse_dicts g) (λ d rest found.
        let less : byte_length rest < byte_length left = reads left rest d found in
        parse_dicts-fuel reads f g rest (omega arith) (omega arith))

  parse_dicts-whole :
      (output : String) (d : Dict) (fuel : ℕ)
      → D.decode_dict output ≡ some (d, "")
      → D.decode_dict "" ≡ none
      → parse_dicts (suc (suc fuel)) output ≡ d ∷ []
  unfolding parse_dicts next_dicts
  parse_dicts-whole output d fuel whole ends = rw (whole, ends) refl

  -- The rounds of TryParsingOutput are enough: more rounds over the same output give the same
  -- dictionaries, if a decoder that gives a dictionary has read something. And where the first
  -- decoder reads the whole output into its buffer, only the dictionary at its front is returned,
  -- whatever stands behind it, if nothing can be decoded from an empty rest.
  pub try_parsing_output_lem :
      (output : String)
      → ReadsOn
      → D.decode_dict "" ≡ none
      → ((fuel : ℕ)
          → byte_length output < fuel
          → try_parsing_output output ≡ from_dicts output (parse_dicts fuel output))
        × ((d : Dict)
            → D.decode_dict output ≡ some (d, "")
            → try_parsing_output output ≡ record no_output { output_dict = d })
  unfolding try_parsing_output
  try_parsing_output_lem output reads ends = (
    λ fuel enough.
        ap (from_dicts output)
          (parse_dicts-fuel reads (suc (byte_length output)) fuel output (omega arith) enough),
    λ d whole. ap (from_dicts output) (
        parse_dicts-fuel reads (suc (byte_length output)) (suc (suc (byte_length output))) output
          (omega arith) (omega arith)
        ∙ parse_dicts-whole output d (byte_length output) whole ends),
  )
