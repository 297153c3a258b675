-- ===== src/Processor/Lifecycle/Lookup.antt =====
-- src/processor/lifecycle.rs: the run that `verify` records is the run that `lookup` finds.
use mathlib.Core.Option.{some-injective}
use swarm_device_access.Base.{
  ℕ, zero, suc, ◌≡◌, refl, sym, ◌∙◌, ap, subst, Bool, true, false, not, List, [], ◌∷◌, ◌++◌, length,
  All, ltb, if◌then◌else◌, Text, text_eq, text_eq_self, text_equality, Option, none, some,
  Bool-cases, inl, inr, text_before, find-insert_self,
}
use swarm_device_access.Processor.Records.{
  LifecycleRecord, is_provisional, has_identity, RunCgroup, History, or_none, records, set_records,
  change_first, drop_unnamed,
}
use swarm_device_access.Processor.Lifecycle.{
  trim, append, or_append, verified_record, upgrade, or_else_first, verify, first_with, lookup,
}

-- A record of this run, in this cgroup.
abbrev pub IsRun : Text → RunCgroup → LifecycleRecord → Type 0
IsRun started cgroup r = (r.started_at ≡ started) × (r.cgroup ≡ some cgroup)

abbrev pub IsFound : Text → RunCgroup → Option LifecycleRecord → Type 0
IsFound started cgroup o = (r : LifecycleRecord) × (o ≡ some r) × IsRun started cgroup r

abbrev is_run : Text → LifecycleRecord → Bool
is_run started r = text_eq r.started_at started

-- What a search finds once the records have changed.
abbrev FindsBy : Text → RunCgroup → Option (List LifecycleRecord) → Type 0
FindsBy started cgroup none = Unit
FindsBy started cgroup (some rs) = IsFound started cgroup (first_with (is_run started) rs)

IsFound-here :
    (started : Text) (cgroup : RunCgroup) (r : LifecycleRecord) (rs : List LifecycleRecord)
    → IsRun started cgroup r
    → IsFound started cgroup (first_with (is_run started) (r ∷ rs))
IsFound-here started cgroup r rs (e, c) = (r, rw (e, text_eq_self started) refl, (e, c))

found_later :
    (started : Text) (cgroup : RunCgroup) (r : LifecycleRecord) (o : Option (List LifecycleRecord))
    → is_run started r ≡ false
    → FindsBy started cgroup o
    → FindsBy started cgroup (elim o [ none ↦ none | some rs ↦ some (r ∷ rs) ])
found_later started cgroup r none n k = tt
found_later started cgroup r (some rs) n k = rw n k

module _ (started : Text) (cgroup : RunCgroup) where
  same_run-FindsBy :
      (rs : List LifecycleRecord)
      → FindsBy started cgroup (change_first (is_run started) (upgrade started cgroup) rs)
  unfolding change_first
  same_run-FindsBy [] = tt
  same_run-FindsBy (r ∷ rs) = elim (Bool-cases (is_run started r)) [
    | inl t ↦ rw t (IsFound-here started cgroup (upgrade started cgroup r) rs (refl, refl))
    | inr t ↦ rw t (
        found_later started cgroup r (change_first (is_run started) (upgrade started cgroup) rs) t
          (same_run-FindsBy rs))
  ]

  provisional-FindsBy :
      (rs : List LifecycleRecord)
      → All (λ r. is_run started r ≡ false) rs
      → FindsBy started cgroup
          (change_first (λ r. is_provisional r.state) (upgrade started cgroup) rs)
  unfolding change_first
  provisional-FindsBy [] a = tt
  provisional-FindsBy (r ∷ rs) (n, a) = elim (Bool-cases (is_provisional r.state)) [
    | inl t ↦ rw t (IsFound-here started cgroup (upgrade started cgroup r) rs (refl, refl))
    | inr t ↦ rw t (
        found_later started cgroup r
          (change_first (λ s. is_provisional s.state) (upgrade started cgroup) rs) n
          (provisional-FindsBy rs a))
  ]

-- No record passes the test when none was changed.
unchanged :
    (test : LifecycleRecord → Bool) (change : LifecycleRecord → LifecycleRecord)
    (rs : List LifecycleRecord)
    → change_first test change rs ≡ none
    → All (λ r. test r ≡ false) rs
unfolding change_first
unchanged test change [] e = tt
unchanged test change (r ∷ rs) e = elim (Bool-cases (test r)) [
  | inl t ↦
      let f : some (change r ∷ rs) ≡ none =
        subst
          (λ b.
            (if b
              then some (change r ∷ rs)
              else elim (change_first test change rs) [ none ↦ none | some rs' ↦ some (r ∷ rs') ])
            ≡ none)
          t e in
      cc
  | inr t ↦ (
    t,
    unchanged test change rs (
        rest (change_first test change rs) (
          subst
            (λ b.
              (if b
                then some (change r ∷ rs)
                else elim (change_first test change rs) [ none ↦ none | some rs' ↦ some (r ∷ rs') ])
              ≡ none)
            t e)),
  )
]
  where
    rest :
        (o : Option (List LifecycleRecord))
        → (elim o [ none ↦ none | some rs' ↦ some (r ∷ rs') ]) ≡ none
        → o ≡ none
    rest none h = refl
    rest (some rs') h = cc

first_with-append :
    (test : LifecycleRecord → Bool) (rs : List LifecycleRecord) (v : LifecycleRecord)
    → All (λ r. test r ≡ false) rs
    → test v ≡ true
    → first_with test (rs ++ v ∷ []) ≡ some v
first_with-append test [] v a t = rw t refl
first_with-append test (r ∷ rs) v (n, a) t = rw (n, first_with-append test rs v a t) refl

abbrev FirstBy : (LifecycleRecord → Bool) → LifecycleRecord → Option (List LifecycleRecord) → Type 0
FirstBy test v none = Unit
FirstBy test v (some rs) = first_with test rs ≡ some v

module _ (test : LifecycleRecord → Bool) (v : LifecycleRecord) (n : has_identity v ≡ true) where
  dropped-FirstBy :
      (r : LifecycleRecord) (rs : List LifecycleRecord) (b t : Bool)
      (o : Option (List LifecycleRecord))
      → has_identity r ≡ b
      → test r ≡ t
      → (if t then some r else first_with test rs) ≡ some v
      → (first_with test rs ≡ some v → FirstBy test v o)
      → FirstBy test v
          (if not b then some rs else elim o [ none ↦ none | some rs' ↦ some (r ∷ rs') ])
  dropped-FirstBy r rs true t none eb et h k = tt
  dropped-FirstBy r rs true true (some rs') eb et h k = rw et h
  dropped-FirstBy r rs true false (some rs') eb et h k = rw et (k h)
  dropped-FirstBy r rs false true o eb et h k =
      let same : has_identity r ≡ has_identity v = ap has_identity (some-injective _ _ h) in cc
  dropped-FirstBy r rs false false o eb et h k = h

  drop_unnamed-FirstBy :
      (rs : List LifecycleRecord) → first_with test rs ≡ some v → FirstBy test v (drop_unnamed rs)
  unfolding drop_unnamed
  drop_unnamed-FirstBy [] h = tt
  drop_unnamed-FirstBy (r ∷ rs) h =
      dropped-FirstBy r rs (has_identity r) (test r) (drop_unnamed rs) refl refl h
        (drop_unnamed-FirstBy rs)

  trimmed-first_with :
      (f : ℕ) (rs : List LifecycleRecord) (o : Option (List LifecycleRecord))
      → first_with test rs ≡ some v
      → FirstBy test v o
      → ((rs' : List LifecycleRecord)
          → first_with test rs' ≡ some v
          → first_with test (trim f rs') ≡ some v)
      → first_with test (elim o [ none ↦ rs | some rs' ↦ trim f rs' ]) ≡ some v
  trimmed-first_with f rs none h k next = h
  trimmed-first_with f rs (some rs') h k next = next rs' k

  trim-first_with :
      (f : ℕ) (rs : List LifecycleRecord)
      → first_with test rs ≡ some v
      → first_with test (trim f rs) ≡ some v
  unfolding trim
  trim-first_with zero rs h = h
  trim-first_with (suc f) rs h = elim (Bool-cases (ltb 8 (length rs))) [
    | inl b ↦ rw b (
        trimmed-first_with f rs (drop_unnamed rs) h (drop_unnamed-FirstBy rs h) (trim-first_with f))
    | inr b ↦ rw b h
  ]

lookup-set_records :
    (id started : Text) (rs : List LifecycleRecord) (history : History)
    → lookup id started (set_records id rs history) ≡ first_with (is_run started) rs
unfolding lookup set_records records
lookup-set_records id started rs history =
    ap (λ o. first_with (is_run started) (or_none o)) (find-insert_self text_before id rs history)

module _ (id started : Text) (cgroup : RunCgroup) (now : ℕ) (history : History) where
  appended-IsFound :
      All (λ r. is_run started r ≡ false) (records id history)
      → IsFound started cgroup
          (lookup id started (append (verified_record id started cgroup now) history))
  unfolding append
  appended-IsFound a =
      let v : LifecycleRecord = verified_record id started cgroup now in
      let rs : List LifecycleRecord = records id history ++ v ∷ [] in
      (
        v,
        lookup-set_records id started (trim (length rs) rs) history
            ∙ trim-first_with (is_run started) v refl (length rs) rs (
                first_with-append (is_run started) (records id history) v a (text_eq_self started)),
        (refl, refl),
      )

  or_append-IsFound :
      (o : Option (List LifecycleRecord))
      → FindsBy started cgroup o
      → (o ≡ none → All (λ r. is_run started r ≡ false) (records id history))
      → IsFound started cgroup
          (lookup id started (or_append id (verified_record id started cgroup now) history o))
  or_append-IsFound none k a = appended-IsFound (a refl)
  or_append-IsFound (some rs) k a =
      subst (IsFound started cgroup) (sym (lookup-set_records id started rs history)) k

  chosen-IsFound :
      (o p : Option (List LifecycleRecord))
      → FindsBy started cgroup o
      → (o ≡ none → All (λ r. is_run started r ≡ false) (records id history))
      → (All (λ r. is_run started r ≡ false) (records id history) → FindsBy started cgroup p)
      → IsFound started cgroup (
          lookup id started
            (or_append id (verified_record id started cgroup now) history (or_else_first o p)))
  chosen-IsFound none p k a q = or_append-IsFound p (q (a refl)) (λ e. a refl)
  chosen-IsFound (some rs) p k a q = or_append-IsFound (some rs) k (λ e. cc)

  -- After `verify` records a run in a cgroup, `lookup` finds that run there, also when the bound on
  -- the records made the history forget others.
  pub lookup-verify :
      IsFound started cgroup (lookup id started (verify id started cgroup now history))
  unfolding verify
  lookup-verify =
      chosen-IsFound (change_first (is_run started) (upgrade started cgroup) (records id history))
        (change_first (λ r. is_provisional r.state) (upgrade started cgroup) (records id history))
        (same_run-FindsBy started cgroup (records id history))
        (unchanged (is_run started) (upgrade started cgroup) (records id history))
        (provisional-FindsBy started cgroup (records id history))
