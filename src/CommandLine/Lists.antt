-- ===== src/CommandLine/Lists.antt =====
-- What the flags of main.go select.
use meshsync.Common.{
  String, ◌≡◌, ap, ◌∙◌, refl, List, [], ◌∷◌, All, ◌==◌, ◌≢◌, contains, if◌then◌else◌, eq_false,
}
use meshsync.Common.Text.{HasNo, join, split}
use meshsync.Common.Text.Splitting.{HasNoSpace, split-join, trim_space-join}
use meshsync.Config.Filtration
use meshsync.Config.Filtration.{new_output_namespace_set, contains-new_output_namespace_set}
use Prim.Native.Char.{Char}
use Prim.Native.String.{char_at}
use meshsync.Startup.Options.{Options, set_options}
use meshsync.CommandLine.{Flags, list_of, parse_flags, setters}

abbrev comma : Char
comma = char_at "," 0

list_of-join :
    (s : String) (ss : List String)
    → All (HasNo b',') (s ∷ ss)
    → All HasNoSpace (s ∷ ss)
    → join "," (s ∷ ss) ≢ ""
    → list_of (join "," (s ∷ ss)) ≡ s ∷ ss
unfolding list_of
list_of-join s ss commas spaces nonempty =
    let trimmed = trim_space-join comma s ss refl spaces in
    ap (λ t. if t == "" then [] else split b',' t) trimmed
    ∙ rw (eq_false _ "" nonempty) (split-join comma s ss commas)

module _ {H C : Type 0} (version provider : String) (defaults : Options H C) where
  -- If the flag of the namespaces is a list of names without commas and white space, and not
  -- empty, joined with commas, the namespaces that are published are exactly those of the list.
  pub namespaces_flag_selects :
      (f : Flags) (s : String) (ss : List String) (v : String)
      → All (HasNo b',') (s ∷ ss)
      → All HasNoSpace (s ∷ ss)
      → join "," (s ∷ ss) ≢ ""
      → f.output_namespaces ≡ join "," (s ∷ ss)
      → let options = set_options (setters version provider (parse_flags f)) defaults in
        Filtration.contains (new_output_namespace_set options.only_k8s_namespaces) v
        ≡ contains (s ∷ ss) v
  unfolding set_options setters parse_flags
  namespaces_flag_selects f s ss v commas spaces nonempty given =
      ap (λ names. Filtration.contains (new_output_namespace_set names) v)
        (ap list_of given ∙ list_of-join s ss commas spaces nonempty)
      ∙ contains-new_output_namespace_set (s ∷ ss) v
