-- ===== src/ClusterId.antt =====
-- GetClusterID of pkg/utils/utils.go. `Client` is the address of a client: the map goes from
-- addresses to ids, a nil client is `none`, and one that it does not hold reads as nil. The API's
-- answer for a client, the UID of the namespace kube-system, is an argument of each call.
pub mod Caching
use meshsync.Common.{
  ℕ, String, Bool, true, false, Option, none, some, List, [], ◌∷◌, nat_eq, if◌then◌else◌,
}
use meshsync.Errors.{Error, Result, ok, err}

abbrev pub Client : Type 0
Client = Option ℕ

abbrev pub same : Client → Client → Bool
same none none = true
same (some m) (some n) = nat_eq m n
same a b = false

abbrev pub Cache : Type 0
Cache = List (Client × String)

unfoldable pub cached : Cache → Client → Option String
cached [] c = none
cached ((d, id) ∷ cache) c = if same d c then some id else cached cache c

-- The map after it and the id; and whether the API was asked.
unfoldable pub answer : Client → Result String → Cache → Bool × String × Cache
answer none api cache = (false, "", (none, "") ∷ cache)
answer (some n) (err e) cache = (true, "", cache)
answer (some n) (ok uid) cache = (true, uid, (some n, uid) ∷ cache)

unfoldable pub known_or_answer :
    Option String → Client → Result String → Cache → Bool × String × Cache
known_or_answer (some id) c api cache = (false, id, cache)
known_or_answer none c api cache = answer c api cache

unfoldable pub get_cluster_id : Client → Result String → Cache → Bool × String × Cache
unfolding known_or_answer
get_cluster_id c api cache = known_or_answer (cached cache c) c api cache
