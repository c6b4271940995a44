-- ===== src/Common/Text/Splitting.antt =====
-- A list of texts put together with a separator of one character and read back.
use Prim.Native.Nat.{ℕ}
use Prim.Native.Char.{Char, code}
use Prim.Native.String.{String, ◌++◌}
use mathlib.Core.Path.{◌≡◌, refl, ap, ◌∙◌}
use mathlib.Core.Bool.{true, false}
use mathlib.Core.List.{List, [], ◌∷◌}
use native.Mathlib.Omega.{arith}
use text.Mathlib.TextLemmas.{nil-append, cons-append}
use meshsync.Common.Tests.{nat_eq}
use meshsync.Common.Lists.{All}
use meshsync.Common.Text.{split, put_first}
use meshsync.Common.Text.Joining.{HasNo, join}
use meshsync.Common.Text.Paths.{is_space, trim_left, trim_right, drop_if_blank, trim_space}

-- No white space occurs.
abbrev pub HasNoSpace : String → Type 0
HasNoSpace String.[] = Unit {0}
HasNoSpace (String.◌∷◌ c s) = (is_space (code c) ≡ false) × HasNoSpace s

same : (n : ℕ) → nat_eq n n ≡ true
same n = ground arith

split-last : (n : ℕ) (s : String) → HasNo n s → split n s ≡ s ∷ []
unfolding split put_first
split-last n String.[] h = refl
split-last n (String.◌∷◌ c s) h = rw h.0 (ap (put_first c) (split-last n s h.1))

split-first :
    (c : Char) (s rest : String)
    → HasNo (code c) s
    → split (code c) (s ++ (String.◌∷◌ c String.[] ++ rest)) ≡ s ∷ split (code c) rest
unfolding split put_first
split-first c String.[] rest h = simp (nil-append, cons-append) (rw (same (code c)) refl)
split-first c (String.◌∷◌ d s) rest h =
    let shorter = split-first c s rest h.1 in
    simp (nil-append, cons-append)
      (rw h.0 (ap (put_first d) (simp (nil-append, cons-append) at shorter)))

-- What was joined with a character that occurs in none of the texts is split again.
pub split-join :
    (c : Char) (s : String) (ss : List String)
    → All (HasNo (code c)) (s ∷ ss)
    → split (code c) (join (String.◌∷◌ c String.[]) (s ∷ ss)) ≡ s ∷ ss
unfolding join
split-join c s [] h = split-last (code c) s h.0
split-join c s (t ∷ ss) h =
    split-first c s (join (String.◌∷◌ c String.[]) (t ∷ ss)) h.0
    ∙ ap (λ r. s ∷ r) (split-join c t ss h.1)

HasNoSpace-append : (s t : String) → HasNoSpace s → HasNoSpace t → HasNoSpace (s ++ t)
HasNoSpace-append String.[] t h k = simp nil-append k
HasNoSpace-append (String.◌∷◌ c s) t h k = simp cons-append (h.0, HasNoSpace-append s t h.1 k)

HasNoSpace-join :
    (sep s : String) (ss : List String)
    → HasNoSpace sep
    → All HasNoSpace (s ∷ ss)
    → HasNoSpace (join sep (s ∷ ss))
unfolding join
HasNoSpace-join sep s [] k h = h.0
HasNoSpace-join sep s (t ∷ ss) k h =
    HasNoSpace-append s _ h.0 (HasNoSpace-append sep _ k (HasNoSpace-join sep t ss k h.1))

trim_left-id : (s : String) → HasNoSpace s → trim_left s ≡ s
unfolding trim_left
trim_left-id String.[] h = refl
trim_left-id (String.◌∷◌ c s) h = rw h.0 refl

drop_if_blank-id :
    (c : Char) (s : String) → is_space (code c) ≡ false → drop_if_blank c s ≡ String.◌∷◌ c s
unfolding drop_if_blank
drop_if_blank-id c String.[] h = rw h refl
drop_if_blank-id c (String.◌∷◌ d s) h = refl

trim_right-id : (s : String) → HasNoSpace s → trim_right s ≡ s
unfolding trim_right
trim_right-id String.[] h = refl
trim_right-id (String.◌∷◌ c s) h =
    ap (drop_if_blank c) (trim_right-id s h.1) ∙ drop_if_blank-id c s h.0

trim_space-id : (s : String) → HasNoSpace s → trim_space s ≡ s
unfolding trim_space
trim_space-id s h = ap trim_right (trim_left-id s h) ∙ trim_right-id s h

-- A trim leaves what was joined from texts without white space as it is.
pub trim_space-join :
    (c : Char) (s : String) (ss : List String)
    → is_space (code c) ≡ false
    → All HasNoSpace (s ∷ ss)
    → trim_space (join (String.◌∷◌ c String.[]) (s ∷ ss)) ≡ join (String.◌∷◌ c String.[]) (s ∷ ss)
trim_space-join c s ss k j =
    trim_space-id _ (HasNoSpace-join (String.◌∷◌ c String.[]) s ss (k, tt) j)
