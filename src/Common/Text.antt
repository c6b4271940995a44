-- ===== src/Common/Text.antt =====
-- The functions of `strings` and `fmt` that the program calls. A text is a list of characters;
-- letters change case as in ASCII, which is what the names that the program folds are written in.
mod Joining
mod Decimal
mod Paths
pub mod Splitting
pub use Joining.{HasNo, cut_first, cut_last, cut_join, cancel_join, cut_join_last, join_first}
use Prim.Native.Nat.{ℕ, ◌-◌}
use Prim.Native.Char.{Char, code}
use Prim.Native.String.{String, char_at}
use mathlib.Core.Bool.{Bool, true, false, ◌&&◌, ◌||◌}
use mathlib.Core.List.{List, [], ◌∷◌}
use mathlib.Core.Path.{◌≡◌, refl}
use meshsync.Common.Tests.{leb, nat_eq, ◌==◌, if◌then◌else◌}
unfoldable pub use Joining.{join, concat}
unfoldable pub use Decimal.{decimal, decimal_int}
unfoldable pub use Paths.{path_ext, trim_suffix, trim_space}
pub use Paths.{is_space, size, size-append, size-trim_suffix}

lower_char : Char → Char
lower_char c =
    if leb b'A' (code c) && leb (code c) b'Z'
    then char_at "abcdefghijklmnopqrstuvwxyz" (code c - b'A')
    else c

-- strings.ToLower
unfoldable pub to_lower : String → String
unfolding lower_char
to_lower String.[] = String.[]
to_lower (String.◌∷◌ c s) = String.◌∷◌ (lower_char c) (to_lower s)

-- strings.HasPrefix
unfoldable pub has_prefix : String → String → Bool
has_prefix s String.[] = true
has_prefix String.[] (String.◌∷◌ d t) = false
has_prefix (String.◌∷◌ c s) (String.◌∷◌ d t) = nat_eq (code c) (code d) && has_prefix s t

-- strings.HasSuffix
unfoldable pub has_suffix : String → String → Bool
has_suffix String.[] t = String.[] == t
has_suffix (String.◌∷◌ c s) t = String.◌∷◌ c s == t || has_suffix s t

-- strings.Contains
unfoldable pub contains_text : String → String → Bool
unfolding has_prefix
contains_text String.[] t = has_prefix String.[] t
contains_text (String.◌∷◌ c s) t = has_prefix (String.◌∷◌ c s) t || contains_text s t

put_first : Char → List String → List String
put_first c [] = String.◌∷◌ c String.[] ∷ []
put_first c (s ∷ ss) = String.◌∷◌ c s ∷ ss

-- strings.Split at a separator of one character.
unfoldable pub split : ℕ → String → List String
unfolding put_first
split sep String.[] = String.[] ∷ []
split sep (String.◌∷◌ c s) =
    let parts = split sep s in if nat_eq (code c) sep then String.[] ∷ parts else put_first c parts

split_runs : split b'.' "pods.v1." ≡ "pods" ∷ "v1" ∷ "" ∷ []
unfolding split
split_runs = refl

to_lower_runs : to_lower "Pod-A" ≡ "pod-a"
unfolding to_lower
to_lower_runs = refl

has_suffix_runs : has_suffix "branch" "ch" ≡ true
unfolding has_suffix
has_suffix_runs = refl

contains_text_runs : contains_text "a-none" "none" ≡ true
unfolding contains_text
contains_text_runs = refl
