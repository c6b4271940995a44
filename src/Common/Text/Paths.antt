-- ===== src/Common/Text/Paths.antt =====
-- The functions of `strings` and `path` that file names and flags go through. White space is that of
-- ASCII.
use Prim.Native.Nat.{ℕ, suc, ◌+◌, ◌≤◌}
use Prim.Native.Char.{Char, code}
use Prim.Native.String.{String, ◌++◌}
use mathlib.Core.Path.{◌≡◌, refl, ap}
use mathlib.Core.Logic.{inl, inr}
use mathlib.Core.Bool.{Bool, false, not, ◌&&◌, ◌||◌}
use native.Mathlib.Omega.{arith}
use text.Mathlib.TextEquality.{eq_iff}
use text.Mathlib.TextLemmas.{nil-append, cons-append}
use meshsync.Common.Tests.{leb, nat_eq, ◌==◌, if◌then◌else◌, Bool-cases}
unfoldable use meshsync.Common.Text.Joining.{}

abbrev pub size : String → ℕ
size String.[] = 0
size (String.◌∷◌ c s) = suc (size s)

has_char : ℕ → String → Bool
has_char n String.[] = false
has_char n (String.◌∷◌ c s) = nat_eq (code c) n || has_char n s

-- path.Ext: from the last dot of the part behind the last slash on.
unfoldable pub path_ext : String → String
unfolding has_char
path_ext String.[] = String.[]
path_ext (String.◌∷◌ c s) =
    let rest = path_ext s in
    if rest == ""
    then (if nat_eq (code c) b'.' && not (has_char b'/' s) then String.◌∷◌ c s else "")
    else rest

-- strings.TrimSuffix
unfoldable pub trim_suffix : String → String → String
trim_suffix String.[] t = String.[]
trim_suffix (String.◌∷◌ c s) t =
    let rest = trim_suffix s t in if String.◌∷◌ c s == t then String.[] else String.◌∷◌ c rest

abbrev pub is_space : ℕ → Bool
is_space n = nat_eq n 32 || (leb 9 n && leb n 13)

-- The cases of strings.TrimSpace for the left end, and for both.
unfoldable pub trim_left : String → String
trim_left String.[] = String.[]
trim_left (String.◌∷◌ c s) =
    let rest = trim_left s in if is_space (code c) then rest else String.◌∷◌ c s

unfoldable pub drop_if_blank : Char → String → String
drop_if_blank c String.[] = if is_space (code c) then String.[] else String.◌∷◌ c String.[]
drop_if_blank c (String.◌∷◌ d s) = String.◌∷◌ c (String.◌∷◌ d s)

unfoldable pub trim_right : String → String
unfolding drop_if_blank
trim_right String.[] = String.[]
trim_right (String.◌∷◌ c s) = drop_if_blank c (trim_right s)

unfoldable pub trim_space : String → String
unfolding trim_left trim_right
trim_space s = trim_right (trim_left s)

path_ext_runs : path_ext "out.d/snap.shot.yml" ≡ ".yml"
unfolding path_ext has_char
path_ext_runs = refl

path_ext_slash : path_ext "out.d/snap" ≡ ""
unfolding path_ext has_char
path_ext_slash = refl

trim_suffix_runs : trim_suffix "snap.yml" ".yml" ≡ "snap"
unfolding trim_suffix
trim_suffix_runs = refl

trim_space_runs : trim_space " a b\t " ≡ "a b"
unfolding trim_space trim_left trim_right drop_if_blank
trim_space_runs = refl

pub size-append : (s t : String) → size (s ++ t) ≡ size s + size t
size-append String.[] t = rw nil-append (omega arith)
size-append (String.◌∷◌ c s) t = rw cons-append (omega (arith, size-append s t))

pub size-trim_suffix : (s t : String) → size s ≤ size (trim_suffix s t) + size t
unfolding trim_suffix
size-trim_suffix String.[] t = omega arith
size-trim_suffix (String.◌∷◌ c s) t = elim (Bool-cases (String.◌∷◌ c s == t)) [
  | inl same ↦ rw same (omega (arith, ap size ((eq_iff (String.◌∷◌ c s) t).0 same)))
  | inr other ↦ rw other (omega (arith, size-trim_suffix s t))
]
