-- ===== src/Handler/Factories/Released.antt =====
-- Which informer factories of the handler (meshsync/handlers.go) are shut down, and how often.
use meshsync.Common.{
  ℕ, suc, ◌+◌, ◌≡◌, refl, ap, sym, ◌∙◌, true, false, Bool, Option, none, some, List, [], ◌∷◌, arith,
  nat_eq, ltb, if◌then◌else◌,
}
use mathlib.Core.Path.{subst}
use meshsync.Errors.{Error, ok}
use meshsync.Handler.Factories.{
  Factories, get_list_options_func, get_dynamic_informer, set_informer, shutdown_informer, new,
  update_informer,
}

abbrev pub times : ℕ → List ℕ → ℕ
times k [] = 0
times k (i ∷ is) = let rest = times k is in if nat_eq k i then suc rest else rest

abbrev pub once_if : Bool → ℕ
once_if true = 1
once_if false = 0

-- The last factory that was made is the handler's, and each older one was shut down once.
pub record OnlyCurrentRuns (f : Factories) : Type 0 where
  pub current : ℕ
  pub held : f.informer ≡ some current
  pub last : f.made ≡ current + 1
  pub released : (k : ℕ) → times k f.shut ≡ once_if (ltb k current)

-- No factory yet.
abbrev pub nothing_made : Factories
nothing_made = record { informer = none; made = 0; shut = [] }

abbrev pub successes : List (Option Error) → ℕ
successes [] = 0
successes (none ∷ es) = suc (successes es)
successes (some e ∷ es) = successes es

shut_current :
    (f : Factories) (current : ℕ)
    → f.informer ≡ some current
    → shutdown_informer f ≡ record f { shut = current ∷ f.shut }
unfolding shutdown_informer
shut_current f current held = rw held refl

times-shut :
    (k current : ℕ) (shut : List ℕ)
    → times k shut ≡ once_if (ltb k current)
    → times k (current ∷ shut) ≡ once_if (ltb k (current + 1))
times-shut k current shut h = ground (arith, h)

module _ {C : Type 0} (L : Type 0) (config : C) where
  first_held :
      (f : Factories)
      → new L config nothing_made ≡ ok f
      → f ≡ record { informer = some 0; made = 1; shut = [] }
  unfolding new get_list_options_func get_dynamic_informer set_informer
  first_held f e = cc e

  updated :
      (f : Factories) (current : ℕ)
      → f.informer ≡ some current
      → (update_informer L config none f).1
        ≡ record { informer = some f.made; made = f.made + 1; shut = current ∷ f.shut }
  unfolding update_informer get_list_options_func get_dynamic_informer set_informer
  updated f current held = rw (shut_current f current held) refl

  refused : (e : Error) (f : Factories) → (update_informer L config (some e) f).1 ≡ f
  unfolding update_informer
  refused e f = refl

  -- Calls of UpdateInformer, each with the error of its new client, if any.
  abbrev pub updates : List (Option Error) → Factories → Factories
  updates [] f = f
  updates (e ∷ es) f = updates es (update_informer L config e f).1

  replaced :
      (f : Factories) (h : OnlyCurrentRuns f)
      → OnlyCurrentRuns
          (record { informer = some f.made; made = f.made + 1; shut = h.current ∷ f.shut })
  replaced f h = record {
    current = f.made;
    held = refl;
    last = refl;
    released = λ k. rw h.last (times-shut k h.current f.shut (h.released k));
  }

  update-OnlyCurrentRuns :
      (e : Option Error) (f : Factories)
      → OnlyCurrentRuns f
      → OnlyCurrentRuns (update_informer L config e f).1
  update-OnlyCurrentRuns none f h =
      subst OnlyCurrentRuns (sym (updated f h.current h.held)) (replaced f h)
  update-OnlyCurrentRuns (some e) f h = subst OnlyCurrentRuns (sym (refused e f)) h

  updates-OnlyCurrentRuns :
      (es : List (Option Error)) (f : Factories)
      → OnlyCurrentRuns f
      → OnlyCurrentRuns (updates es f)
  updates-OnlyCurrentRuns [] f h = h
  updates-OnlyCurrentRuns (e ∷ es) f h = updates-OnlyCurrentRuns es _ (update-OnlyCurrentRuns e f h)

  updates-made :
      (es : List (Option Error)) (f : Factories)
      → OnlyCurrentRuns f
      → (updates es f).made ≡ f.made + successes es
  updates-made [] f h = omega arith
  updates-made (none ∷ es) f h =
      updates-made es _ (update-OnlyCurrentRuns none f h)
      ∙ (ap (λ (g : Factories). g.made + successes es) (updated f h.current h.held) ∙ omega arith)
  updates-made (some e ∷ es) f h =
      updates-made es _ (update-OnlyCurrentRuns (some e) f h)
      ∙ ap (λ (g : Factories). g.made + successes es) (refused e f)

  started : (f : Factories) → new L config nothing_made ≡ ok f → OnlyCurrentRuns f
  started f e =
      subst OnlyCurrentRuns (sym (first_held f e))
        (record { current = 0; held = refl; last = refl; released = λ k. ground arith })

  shut_last :
      (f : Factories) (h : OnlyCurrentRuns f) (k : ℕ)
      → times k (shutdown_informer f).shut ≡ once_if (ltb k f.made)
  shut_last f h k =
      ap (λ (g : Factories). times k g.shut) (shut_current f h.current h.held)
      ∙ (times-shut k h.current f.shut (h.released k) ∙ ap (λ n. once_if (ltb k n)) (sym h.last))

  -- From New on, whichever calls of UpdateInformer find no client: one factory is made at the start
  -- and one by each call that finds a client, the handler holds the last of them, each older one
  -- was shut down once and the held one not yet, and ShutdownInformer then leaves each of them
  -- shut down once.
  pub factories_released :
      (es : List (Option Error)) (f : Factories)
      → new L config nothing_made ≡ ok f
      → let g = updates es f in
        (g.made ≡ 1 + successes es)
        × (g.informer ≡ some (successes es))
        × ((k : ℕ) → times k g.shut ≡ once_if (ltb k (successes es)))
        × ((k : ℕ) → times k (shutdown_informer g).shut ≡ once_if (ltb k (1 + successes es)))
  factories_released es f e =
      let h = updates-OnlyCurrentRuns es f (started f e) in
      let made =
        updates-made es f (started f e)
        ∙ ap (λ (g : Factories). g.made + successes es) (first_held f e) in
      let current : h.current ≡ successes es = omega (arith, made, h.last) in
      (
        made,
        h.held ∙ ap some current,
        λ k. rw (sym current) (h.released k),
        λ k. rw (sym made) (shut_last (updates es f) h k),
      )
