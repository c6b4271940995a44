-- ===== src/Config/Filtration.antt =====
-- The output filtration of internal/config/types.go, and pluralize of internal/config/pluralise.go.
-- A set is a map to bool, and a missing key reads as false.
use meshsync.Common.{
  String, ◌≡◌, refl, Bool, true, false, ◌||◌, List, [], ◌∷◌, Option, none, some, arith, any, ◌==◌,
  if◌then◌else◌,
}
use meshsync.Common.Dict.{Dict, lookup, insert, lookup-nil, lookup-insert}
use meshsync.Common.Text.{to_lower, has_suffix, concat}

abbrev or_false : Option Bool → Bool
or_false none = false
or_false (some b) = b

-- `Contains` of both sets.
unfoldable pub contains : Dict Bool → String → Bool
contains s value = or_false (lookup s value)

add_all : Dict Bool → List String → Dict Bool
add_all set [] = set
add_all set (namespace ∷ namespaces) = add_all (insert set namespace true) namespaces

unfoldable pub new_output_namespace_set : List String → Dict Bool
unfolding add_all
new_output_namespace_set = add_all []

unfoldable pub pluralize : String → String
pluralize word =
    let lower = to_lower word in
    if has_suffix lower "s"
      || has_suffix lower "x"
      || has_suffix lower "z"
      || has_suffix lower "ch"
      || has_suffix lower "sh"
    then concat (word ∷ "es" ∷ [])
    else concat (word ∷ "s" ∷ [])

add_both : Dict Bool → List String → Dict Bool
add_both set [] = set
add_both set (resource ∷ resources) =
    let lower = to_lower resource in
    add_both (insert (insert set lower true) (pluralize lower) true) resources

unfoldable pub new_output_resource_set : List String → Dict Bool
unfolding add_both
new_output_resource_set = add_both []

pub record OutputFiltrationContainer : Type 0 where
  pub namespace_set : Dict Bool
  pub resource_set : Dict Bool

contains-insert :
    (s : Dict Bool) (k v : String) → contains (insert s k true) v ≡ (k == v || contains s v)
unfolding contains
contains-insert s k v = ground (arith, lookup-insert s k v true)

contains-nil : (v : String) → contains [] v ≡ false
unfolding contains
contains-nil v = ground (arith, lookup-nil {V = Bool} v)

contains-add_all :
    (s : Dict Bool) (namespaces : List String) (v : String)
    → contains (add_all s namespaces) v ≡ (any (λ n. n == v) namespaces || contains s v)
unfolding add_all
contains-add_all s [] v = refl
contains-add_all s (n ∷ ns) v =
    ground (arith, contains-add_all (insert s n true) ns v, contains-insert s n v)

-- The namespace set holds exactly the namespaces that it was made from.
pub contains-new_output_namespace_set :
    (namespaces : List String) (v : String)
    → contains (new_output_namespace_set namespaces) v ≡ any (λ n. n == v) namespaces
unfolding new_output_namespace_set
contains-new_output_namespace_set namespaces v =
    ground (arith, contains-add_all [] namespaces v, contains-nil v)

-- A resource is named by its lower case form, or by that form's plural.
abbrev pub names_resource : String → String → Bool
names_resource v resource = to_lower resource == v || pluralize (to_lower resource) == v

contains-add_both :
    (s : Dict Bool) (resources : List String) (v : String)
    → contains (add_both s resources) v ≡ (any (names_resource v) resources || contains s v)
unfolding add_both
contains-add_both s [] v = refl
contains-add_both s (r ∷ rs) v = ground (
  arith,
  contains-add_both (insert (insert s (to_lower r) true) (pluralize (to_lower r)) true) rs v,
  contains-insert (insert s (to_lower r) true) (pluralize (to_lower r)) v,
  contains-insert s (to_lower r) v,
)

-- The resource set holds a name exactly if it is the lower case form of one of the resources, or
-- the plural of that form.
pub contains-new_output_resource_set :
    (resources : List String) (v : String)
    → contains (new_output_resource_set resources) v ≡ any (names_resource v) resources
unfolding new_output_resource_set
contains-new_output_resource_set resources v =
    ground (arith, contains-add_both [] resources v, contains-nil v)
