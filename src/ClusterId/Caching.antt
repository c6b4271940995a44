-- ===== src/ClusterId/Caching.antt =====
-- What the cache of pkg/utils/utils.go promises.
use mathlib.Core.Path.{subst}
use meshsync.Common.{
  ℕ, String, ◌≡◌, refl, ap, ◌∙◌, sym, Bool, true, false, none, some, List, [], ◌∷◌, arith,
  Option-cases, Bool-cases, inl, inr, nat_eq,
}
use meshsync.Errors.{Result, ok, err}
use meshsync.ClusterId.{Client, same, Cache, cached, answer, known_or_answer, get_cluster_id}

same_refl : (c : Client) → same c c ≡ true
same_refl none = refl
same_refl (some n) = ground arith

same-eq : (c d : Client) → same c d ≡ true → c ≡ d
same-eq none none h = refl
same-eq none (some n) h = cc
same-eq (some m) none h = cc
same-eq (some m) (some n) h = ap some (equal m n h)
  where
    equal : (a b : ℕ) → nat_eq a b ≡ true → a ≡ b
    equal a b e = ground arith

-- Calls for any clients, one after another, each with what the API would answer: the map that they
-- leave.
abbrev pub calls : List (Client × Result String) → Cache → Cache
calls [] cache = cache
calls ((d, api) ∷ rest) cache = calls rest (get_cluster_id d api cache).2

cached-first :
    (c d : Client) (uid id : String) (cache : Cache)
    → cached cache d ≡ some id
    → cached cache c ≡ none
    → cached ((c, uid) ∷ cache) d ≡ some id
unfolding cached
cached-first c d uid id cache known free = elim (Bool-cases (same c d)) [
  | inl equal ↦ absurd (none≢some (sym free ∙ (ap (cached cache) (same-eq c d equal) ∙ known)))
  | inr other ↦ rw other known
]
  where
    none≢some : none ≡ some id → ⊥
    none≢some e = cc

answer-keeps :
    (c d : Client) (api : Result String) (cache : Cache) (id : String)
    → cached cache d ≡ some id
    → cached cache c ≡ none
    → cached (answer c api cache).2 d ≡ some id
unfolding answer
answer-keeps none d api cache id known free = cached-first none d "" id cache known free
answer-keeps (some m) d (ok uid) cache id known free =
    cached-first (some m) d uid id cache known free
answer-keeps (some m) d (err e) cache id known free = known

get-known :
    (c : Client) (api : Result String) (cache : Cache) (id : String)
    → cached cache c ≡ some id
    → get_cluster_id c api cache ≡ (false, id, cache)
unfolding get_cluster_id known_or_answer
get-known c api cache id known = ap (λ o. known_or_answer o c api cache) known

get-new :
    (c : Client) (api : Result String) (cache : Cache)
    → cached cache c ≡ none
    → get_cluster_id c api cache ≡ answer c api cache
unfolding get_cluster_id known_or_answer
get-new c api cache free = ap (λ o. known_or_answer o c api cache) free

get-keeps :
    (c d : Client) (api : Result String) (cache : Cache) (id : String)
    → cached cache d ≡ some id
    → cached (get_cluster_id c api cache).2 d ≡ some id
get-keeps c d api cache id known = elim (Option-cases (cached cache c)) [
  | inl free ↦
      ap (λ r. cached r.2 d) (get-new c api cache free) ∙ answer-keeps c d api cache id known free
  | inr (other, there) ↦ ap (λ r. cached r.2 d) (get-known c api cache other there) ∙ known
]

calls-keep :
    (later : List (Client × Result String)) (d : Client) (cache : Cache) (id : String)
    → cached cache d ≡ some id
    → cached (calls later cache) d ≡ some id
calls-keep [] d cache id known = known
calls-keep ((c, api) ∷ rest) d cache id known =
    calls-keep rest d (get_cluster_id c api cache).2 id (get-keeps c d api cache id known)

answer-cached :
    (c : Client) (uid : String) (cache : Cache)
    → cached (answer c (ok uid) cache).2 c ≡ some (answer c (ok uid) cache).1
unfolding answer cached
answer-cached none uid cache = refl
answer-cached (some n) uid cache = rw (same_refl (some n)) refl

get-cached :
    (c : Client) (uid : String) (cache : Cache)
    → cached (get_cluster_id c (ok uid) cache).2 c ≡ some (get_cluster_id c (ok uid) cache).1
get-cached c uid cache =
    let Right = λ (r : Bool × String × Cache). cached r.2 c ≡ some r.1 in
    elim (Option-cases (cached cache c)) [
      | inl free ↦ subst Right (sym (get-new c (ok uid) cache free)) (answer-cached c uid cache)
      | inr (id, there) ↦ subst Right (sym (get-known c (ok uid) cache id there)) there
    ]

-- Once a call for a client could ask the API, every later call for this client gives the same id
-- and does not ask the API again, whatever calls for this and other clients come in between and
-- whatever the API would answer them.
pub cluster_id_stable :
    (c : Client) (uid : String) (cache : Cache) (later : List (Client × Result String))
    (api : Result String)
    → let (asked, id, after) = get_cluster_id c (ok uid) cache in
      get_cluster_id c api (calls later after) ≡ (false, id, calls later after)
cluster_id_stable c uid cache later api =
    let (asked, id, after) = get_cluster_id c (ok uid) cache in
    get-known c api (calls later after) id (calls-keep later c after id (get-cached c uid cache))
