-- ===== src/Output/Streaming/Once.antt =====
-- What reaches the writer behind the streaming deduplicator.
use meshsync.Common.{
  ℕ, ◌+◌, String, ◌≡◌, refl, ap, ◌∙◌, ◌≢◌, Bool, true, false, ◌||◌, List, [], ◌∷◌, arith, ◌==◌,
  eq_iff, if◌then◌else◌, any, Bool-cases, inl, inr,
}
use mathlib.Core.Path.{fun_ext}
use meshsync.Common.Dict.{lookup, insert, has, lookup-insert, lookup-nil}
use meshsync.Output.{Write, Call, call, uid_of}
use meshsync.Output.Streaming.{State, write, new}

-- The calls that are the first of their UID, and those without a UID, in order: `seen` says which
-- UIDs came before.
abbrev pub firsts : (String → Bool) → List Call → List Call
firsts seen [] = []
firsts seen (c ∷ cs) =
    if uid_of c.obj == ""
    then c ∷ firsts seen cs
    else if seen (uid_of c.obj)
    then firsts seen cs
    else c ∷ firsts (λ u. uid_of c.obj == u || seen u) cs

-- Calls one after another, errors passed over.
abbrev pub run : {S : Type 0} → Write S → List Call → S → S
run writer [] s = s
run writer (c ∷ cs) s = run writer cs (call writer c s).1

module _ {S : Type 0} (real_write : Write S) where
  abbrev pub seen_by : State S → String → Bool
  seen_by w u = has (lookup w.seen_uids u)

  pub seen_after :
      (w : State S) (s : S) (uid : String)
      → (λ u. uid == u || seen_by w u)
        ≡ seen_by (record { real = s; seen_uids = insert w.seen_uids uid tt })
  seen_after w s uid = fun_ext λ u. ground (arith, lookup-insert w.seen_uids uid u tt)

  pub write_without_uid :
      (c : Call) (w : State S)
      → (uid_of c.obj == "") ≡ true
      → (call (write real_write) c w).1
        ≡ record { real = (call real_write c w.real).1; seen_uids = w.seen_uids }
  unfolding write
  write_without_uid c w h = ground (arith, h)

  pub write_seen :
      (c : Call) (w : State S)
      → (uid_of c.obj == "") ≡ false
      → seen_by w (uid_of c.obj) ≡ true
      → (call (write real_write) c w).1 ≡ w
  unfolding write
  write_seen c w h k = ground (arith, h, k)

  pub write_fresh :
      (c : Call) (w : State S)
      → (uid_of c.obj == "") ≡ false
      → seen_by w (uid_of c.obj) ≡ false
      → (call (write real_write) c w).1 ≡ record {
        real = (call real_write c w.real).1;
        seen_uids = insert w.seen_uids (uid_of c.obj) tt;
      }
  unfolding write
  write_fresh c w h k = ground (arith, h, k)

  run-firsts :
      (cs : List Call) (w : State S)
      → (run (write real_write) cs w).real ≡ run real_write (firsts (seen_by w) cs) w.real
  run-firsts [] w = refl
  run-firsts (c ∷ cs) w =
      let s' = (call real_write c w.real).1 in
      elim (Bool-cases (uid_of c.obj == "")) [
        | inl empty ↦
            let w' : State S = record { real = s'; seen_uids = w.seen_uids } in
            ap (λ v. (run (write real_write) cs v).real) (write_without_uid c w empty)
            ∙ rw empty (run-firsts cs w')
        | inr nonempty ↦ elim (Bool-cases (seen_by w (uid_of c.obj))) [
          | inl old ↦
              ap (λ v. (run (write real_write) cs v).real) (write_seen c w nonempty old)
              ∙ rw (nonempty, old) (run-firsts cs w)
          | inr fresh ↦
              let w' : State S = record {
                real = s';
                seen_uids = insert w.seen_uids (uid_of c.obj) tt;
              } in
              ap (λ v. (run (write real_write) cs v).real) (write_fresh c w nonempty fresh)
              ∙ rw (nonempty, fresh, seen_after w s' (uid_of c.obj)) (run-firsts cs w')
        ]
      ]

  pub nothing_seen : (s : S) → seen_by (new s) ≡ (λ u. false)
  unfolding new
  nothing_seen s = fun_ext λ u. ground (arith, lookup-nil {V = Unit {0}} u)

  -- From the start, the wrapped writer gets exactly the first call of each UID, and every call
  -- without a UID, in order, whether or not it fails.
  pub streaming_writes_firsts :
      (cs : List Call) (s : S)
      → (run (write real_write) cs (new s)).real ≡ run real_write (firsts (λ u. false) cs) s
  streaming_writes_firsts cs s =
      run-firsts cs (new s)
      ∙ (ap (λ seen. run real_write (firsts seen cs) (new s).real) (nothing_seen s)
          ∙ unfold new in refl)

-- How often a UID is among the calls.
abbrev pub count_uid : String → List Call → ℕ
count_uid uid [] = 0
count_uid uid (c ∷ cs) = if uid_of c.obj == uid then count_uid uid cs + 1 else count_uid uid cs

-- Of each UID there is at most one call among the first ones, and none if it was seen before; it
-- is there if it is new and among the calls at all.
pub count_uid-firsts :
    (seen : String → Bool) (uid : String) (cs : List Call)
    → uid ≢ ""
    → count_uid uid (firsts seen cs)
      ≡ (if seen uid then 0 else if any (λ c. uid_of c.obj == uid) cs then 1 else 0)
count_uid-firsts seen uid [] h = ground arith
count_uid-firsts seen uid (c ∷ cs) h = ground (
  arith,
  count_uid-firsts seen uid cs h,
  count_uid-firsts (λ u. uid_of c.obj == u || seen u) uid cs h,
  eq_iff (uid_of c.obj) "",
  eq_iff (uid_of c.obj) uid,
  eq_iff uid "",
)
