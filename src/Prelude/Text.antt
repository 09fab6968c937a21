-- ===== src/Prelude/Text.antt =====
-- Go's strings.Index, strings.LastIndex and strings.Contains, for what lies behind a separator.
use Prim.Native.Char.{code}
use Prim.Native.String.{String}
use mathlib.Core.Bool.{Bool, true, false}
use mathlib.Core.Option.{Option, none, some}
use mc_kube.Prelude.{nat_eq, ◌==◌, if◌then◌else◌}

-- What follows the first text at the front of the second.
unfoldable pub behind_prefix : String → String → Option String
behind_prefix String.[] text = some text
behind_prefix (String.◌∷◌ c cs) String.[] = none
behind_prefix (String.◌∷◌ c cs) (String.◌∷◌ d ds) =
    let rest = behind_prefix cs ds in if code c == code d then rest else none

abbrev or_else : Option String → Option String → Option String
or_else none other = other
or_else (some text) other = some text

-- What follows the first occurrence.
unfoldable pub behind_first : String → String → Option String
unfolding behind_prefix
behind_first sep String.[] = behind_prefix sep ""
behind_first sep (String.◌∷◌ c cs) =
    or_else (behind_prefix sep (String.◌∷◌ c cs)) (behind_first sep cs)

-- What follows the last occurrence.
unfoldable pub behind_last : String → String → Option String
unfolding behind_prefix
behind_last sep String.[] = behind_prefix sep ""
behind_last sep (String.◌∷◌ c cs) =
    or_else (behind_last sep cs) (behind_prefix sep (String.◌∷◌ c cs))

abbrev is_found : Option String → Bool
is_found none = false
is_found (some text) = true

abbrev pub contains_text : String → String → Bool
contains_text text sep = is_found (behind_first sep text)
