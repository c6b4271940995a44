-- ===== src/Common/Text/Joining.antt =====
-- Texts put together, and what can be read back from them.
use Prim.Native.Nat.{ℕ}
use Prim.Native.Char.{Char, code}
use Prim.Native.String.{String, ◌++◌}
use mathlib.Core.Path.{◌≡◌, refl, ap, sym, subst, ◌∙◌}
use mathlib.Core.List.{List, [], ◌∷◌}
use mathlib.Core.Bool.{false}
use native.Mathlib.Omega.{arith}
use text.Mathlib.TextEquality.{Char-path}
use text.Mathlib.TextLemmas.{nil-append, cons-append, append_cancel_left, append_assoc}
use meshsync.Common.Tests.{nat_eq}

-- The formats "%s%s…" of fmt.Sprintf.
unfoldable pub concat : List String → String
concat [] = ""
concat (s ∷ ss) = s ++ concat ss

-- The formats "%s.%s…", with the separator given.
unfoldable pub join : String → List String → String
join sep [] = ""
join sep (s ∷ []) = s
join sep (s ∷ t ∷ ss) = s ++ (sep ++ join sep (t ∷ ss))

-- The character `n` does not occur.
abbrev pub HasNo : ℕ → String → Type 0
HasNo n String.[] = Unit {0}
HasNo n (String.◌∷◌ c s) = (nat_eq (code c) n ≡ false) × HasNo n s

abbrev tail : String → String
tail String.[] = String.[]
tail (String.◌∷◌ c s) = s

abbrev head_code : String → ℕ
head_code String.[] = 0
head_code (String.◌∷◌ c s) = code c

cons-inj :
    (c d : Char) (s t : String) → String.◌∷◌ c s ≡ String.◌∷◌ d t → (code c ≡ code d) × (s ≡ t)
cons-inj c d s t e = (ap head_code e, ap tail e)

not-no : (n m : ℕ) → m ≡ n → nat_eq m n ≡ false → ⊥
not-no n m e h = ground arith

-- Texts that begin alike.
both : (c d : Char) (s t : String) → code c ≡ code d → s ≡ t → String.◌∷◌ c s ≡ String.◌∷◌ d t
both c d s t e f = rw (Char-path c d e, f)

module _ (c : Char) where
  -- A text without `c` can be read back from in front of the first `c`.
  pub cut_first :
      (a b r s : String)
      → HasNo (code c) a
      → HasNo (code c) b
      → a ++ String.◌∷◌ c r ≡ b ++ String.◌∷◌ c s
      → (a ≡ b) × (r ≡ s)
  cut_first String.[] String.[] r s ha hb e = (refl, (cons-inj c c r s (simp nil-append at e)).1)
  cut_first String.[] (String.◌∷◌ d b) r s ha hb e = absurd (
      not-no (code c) (code d) (sym (cons-inj c d _ _ (simp (nil-append, cons-append) at e)).0)
        hb.0)
  cut_first (String.◌∷◌ d a) String.[] r s ha hb e =
      absurd
        (not-no (code c) (code d) (cons-inj d c _ _ (simp (nil-append, cons-append) at e)).0 ha.0)
  cut_first (String.◌∷◌ d a) (String.◌∷◌ f b) r s ha hb e =
      let (same, rest) = cons-inj d f _ _ (simp cons-append at e) in
      let (front, back) = cut_first a b r s ha.1 hb.1 rest in (both d f a b same front, back)

  -- A text that holds a `c` in its middle is not free of it.
  HasNo-middle : (a s : String) → HasNo (code c) (a ++ String.◌∷◌ c s) → ⊥
  HasNo-middle String.[] s h =
      not-no (code c) (code c) refl (subst (HasNo (code c)) (nil-append _) h).0
  HasNo-middle (String.◌∷◌ d a) s h =
      HasNo-middle a s (subst (HasNo (code c)) (cons-append d a _) h).1

  -- A text without `c` can be read back from behind the last `c`.
  pub cut_last :
      (a b r s : String)
      → HasNo (code c) r
      → HasNo (code c) s
      → a ++ String.◌∷◌ c r ≡ b ++ String.◌∷◌ c s
      → (a ≡ b) × (r ≡ s)
  cut_last String.[] String.[] r s hr hs e = (refl, (cons-inj c c r s (simp nil-append at e)).1)
  cut_last String.[] (String.◌∷◌ d b) r s hr hs e = absurd (
      HasNo-middle b s
        (subst (HasNo (code c)) (cons-inj c d _ _ (simp (nil-append, cons-append) at e)).1 hr))
  cut_last (String.◌∷◌ d a) String.[] r s hr hs e = absurd (
      HasNo-middle a r (
        subst (HasNo (code c)) (sym (cons-inj d c _ _ (simp (nil-append, cons-append) at e)).1) hs))
  cut_last (String.◌∷◌ d a) (String.◌∷◌ f b) r s hr hs e =
      let (same, rest) = cons-inj d f _ _ (simp cons-append at e) in
      let (front, back) = cut_last a b r s hr hs rest in (both d f a b same front, back)

abbrev dot : Char
dot = "."

join-cons :
    (a b : String) (ss : List String)
    → join "." (a ∷ b ∷ ss) ≡ a ++ String.◌∷◌ dot (join "." (b ∷ ss))
unfolding join
join-cons a b ss = simp (cons-append dot String.[] (join "." (b ∷ ss)), nil-append)

-- A part without a dot can be read back from in front of the others.
pub cut_join :
    (a b c d : String) (ss ts : List String)
    → HasNo b'.' a
    → HasNo b'.' b
    → join "." (a ∷ c ∷ ss) ≡ join "." (b ∷ d ∷ ts)
    → (a ≡ b) × (join "." (c ∷ ss) ≡ join "." (d ∷ ts))
cut_join a b c d ss ts ha hb e =
    cut_first dot a b _ _ ha hb (sym (join-cons a c ss) ∙ (e ∙ join-cons b d ts))

-- So can what stands behind a part that is known.
pub cancel_join :
    (a c d : String) (ss ts : List String)
    → join "." (a ∷ c ∷ ss) ≡ join "." (a ∷ d ∷ ts)
    → join "." (c ∷ ss) ≡ join "." (d ∷ ts)
cancel_join a c d ss ts e =
    (cons-inj dot dot _ _
      (append_cancel_left a _ _ (sym (join-cons a c ss) ∙ (e ∙ join-cons a d ts)))).1

-- The last part, if it has no dot, can be read back from behind the others.
pub cut_join_last :
    (a b c d : String)
    → HasNo b'.' b
    → HasNo b'.' d
    → join "." (a ∷ b ∷ []) ≡ join "." (c ∷ d ∷ [])
    → (a ≡ c) × (b ≡ d)
unfolding join
cut_join_last a b c d hb hd e =
    cut_last dot a c b d hb hd (sym (join-cons a b []) ∙ (e ∙ join-cons c d []))

-- The first two of three parts can be joined first.
pub join_first :
    (a b c : String) → join "." (a ∷ b ∷ c ∷ []) ≡ join "." (join "." (a ∷ b ∷ []) ∷ c ∷ [])
unfolding join
join_first a b c =
    ap (λ s. a ++ s) (sym (append_assoc "." b ("." ++ c)))
    ∙ sym (append_assoc a ("." ++ b) ("." ++ c))
