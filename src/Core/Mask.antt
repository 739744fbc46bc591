-- ===== src/Core/Mask.antt =====
-- MaskSecrets and MaskSecretsInSlice of core/utils.go, with the strings.ReplaceAll that they call.
pub mod Hides
use Prim.Native.Char.{Char, code}
use Prim.Native.String.{[], ◌∷◌}
use lc_extension.Base.{
  ℕ, zero, suc, ◌-◌, String, ◌<>◌, Bool, true, false, ◌&&◌, ◌||◌, List, map, eqb, if◌then◌else◌,
}

-- The number of characters.
abbrev pub size : String → ℕ
size [] = 0
size (c ∷ t) = suc (size t)

-- Does the text begin with `old`?
abbrev pub is_prefix : String → String → Bool
is_prefix [] t = true
is_prefix (c ∷ old) [] = false
is_prefix (c ∷ old) (d ∷ t) = eqb (code c) (code d) && is_prefix old t

-- Does `old` stand anywhere in the text?
abbrev pub occurs : String → String → Bool
occurs old [] = is_prefix old []
occurs old (c ∷ t) = is_prefix old (c ∷ t) || occurs old t

-- strings.ReplaceAll for an `old` that is not empty: from left to right, past `skip` characters
-- that an occurrence has taken.
unfoldable pub replace_from : String → String → ℕ → String → String
replace_from old new skip [] = []
replace_from old new (suc skip) (c ∷ t) = replace_from old new skip t
replace_from old new zero (c ∷ t) =
    let hit = is_prefix old (c ∷ t) in
    let rest = replace_from old new (if hit then size old - 1 else 0) t in
    if hit then new <> rest else c ∷ rest

-- For an empty `old`: around every character.
unfoldable pub insert_around : String → String → String
insert_around new [] = new
insert_around new (c ∷ t) = new <> (c ∷ insert_around new t)

unfoldable pub replace_all : String → String → String → String
unfolding replace_from insert_around
replace_all text [] new = insert_around new text
replace_all text (c ∷ old) new = replace_from (c ∷ old) new 0 text

abbrev pub redacted : String
redacted = "**** REDACTED ***"

-- MaskSecrets
unfoldable pub mask_secrets : String → List String → String
unfolding replace_all
mask_secrets text List.[] = text
mask_secrets text (List.◌∷◌ secret secrets) =
    mask_secrets (replace_all text secret redacted) secrets

-- MaskSecretsInSlice
unfoldable pub mask_secrets_in_slice : List String → List String → List String
unfolding mask_secrets
mask_secrets_in_slice texts secrets = map (λ text. mask_secrets text secrets) texts
