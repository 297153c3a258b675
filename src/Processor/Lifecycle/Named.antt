-- ===== src/Processor/Lifecycle/Named.antt =====
-- src/processor/lifecycle.rs: the records that name a cgroup stay.
use swarm_device_access.Base.{
  ℕ, zero, suc, ◌≡◌, refl, sym, subst, Bool, true, false, ◌||◌, ◌⊎◌, List, [], ◌∷◌, ◌++◌, length,
  ltb, Text, text_eq, text_eq→eq, text_equality, Option, none, some, Bool-cases, inl, inr,
  text_before, find-insert_self, find-insert_ne,
}
use swarm_device_access.Processor.Records.{
  LifecycleRecord, is_provisional, is_named, has_identity, RunCgroup, History, or_none, records,
  set_records, change_first, drop_unnamed,
}
use swarm_device_access.Processor.Lifecycle.{
  trim, append, or_append, upgrade, or_else_first, change_where,
}

-- A record that still is of the same run, in the same cgroup.
pub record IsKept (r r' : LifecycleRecord) : Type 0 where
  pub same_container : r'.container_id ≡ r.container_id
  pub same_start : r'.started_at ≡ r.started_at
  pub same_first_seen : r'.first_seen ≡ r.first_seen
  pub same_cgroup : r'.cgroup ≡ r.cgroup

-- What becomes of a record: it is kept, or it is one of the run that was verified in a cgroup, if
-- there is one, and names that cgroup.
abbrev pub Keeps : Option (Text × RunCgroup) → LifecycleRecord → LifecycleRecord → Type 0
Keeps none r r' = IsKept r r'
Keeps (some (started, cgroup)) r r' =
    IsKept r r'
    ⊎ ((r' ≡ upgrade started cgroup r)
        × ((text_eq r.started_at started || is_provisional r.state) ≡ true))

-- Records that stand in other records in the same order, each as this says, but for some that name
-- no cgroup.
pub data Embeds (moved : Option (Text × RunCgroup))
    : List LifecycleRecord → List LifecycleRecord → Type 0 where
  nothing_left : {rs' : List LifecycleRecord} → Embeds moved [] rs'
  kept :
      {r r' : LifecycleRecord} {rs rs' : List LifecycleRecord}
      → Keeps moved r r'
      → Embeds moved rs rs'
      → Embeds moved (r ∷ rs) (r' ∷ rs')
  forgotten :
      {r : LifecycleRecord} {rs rs' : List LifecycleRecord}
      → has_identity r ≡ false
      → Embeds moved rs rs'
      → Embeds moved (r ∷ rs) rs'

-- The records of every container that name a cgroup stay; `moved` is the run of a container that was
-- verified, and its cgroup.
abbrev pub Remembers : (Text → Option (Text × RunCgroup)) → History → History → Type 0
Remembers moved history history' =
    (id : Text) → Embeds (moved id) (records id history) (records id history')

pub IsKept-self : (r : LifecycleRecord) → IsKept r r
IsKept-self r = record {
  same_container = refl;
  same_start = refl;
  same_first_seen = refl;
  same_cgroup = refl;
}

pub IsKept-Keeps :
    (moved : Option (Text × RunCgroup)) (r r' : LifecycleRecord) → IsKept r r' → Keeps moved r r'
IsKept-Keeps none r r' k = k
IsKept-Keeps (some (started, cgroup)) r r' k = inl k

Keeps-named :
    (moved : Option (Text × RunCgroup)) (r r' : LifecycleRecord)
    → Keeps moved r r'
    → has_identity r' ≡ false
    → has_identity r ≡ false
Keeps-named none r r' k n = subst (λ c. is_named c ≡ false) k.same_cgroup n
Keeps-named (some (started, cgroup)) r r' (inl k) n =
    subst (λ c. is_named c ≡ false) k.same_cgroup n
Keeps-named (some (started, cgroup)) r r' (inr (e, t)) n =
    let named : true ≡ false = subst (λ x. has_identity x ≡ false) e n in cc

module _ (moved : Option (Text × RunCgroup)) where
  abbrev pub EmbedsBy : List LifecycleRecord → Option (List LifecycleRecord) → Type 0
  EmbedsBy rs none = Unit
  EmbedsBy rs (some rs') = Embeds moved rs rs'

  append-Embeds : (rs rs' : List LifecycleRecord) → Embeds moved rs (rs ++ rs')
  append-Embeds [] rs' = nothing_left
  append-Embeds (r ∷ rs) rs' = kept (IsKept-Keeps moved r r (IsKept-self r)) (append-Embeds rs rs')

  pub Embeds-self : (rs : List LifecycleRecord) → Embeds moved rs rs
  Embeds-self [] = nothing_left
  Embeds-self (r ∷ rs) = kept (IsKept-Keeps moved r r (IsKept-self r)) (Embeds-self rs)

  cons-EmbedsBy :
      (r r' : LifecycleRecord) (rs : List LifecycleRecord) (o : Option (List LifecycleRecord))
      → Keeps moved r r'
      → EmbedsBy rs o
      → EmbedsBy (r ∷ rs) (elim o [ none ↦ none | some rs' ↦ some (r' ∷ rs') ])
  cons-EmbedsBy r r' rs none k e = tt
  cons-EmbedsBy r r' rs (some rs') k e = kept k e

  module _ (test : LifecycleRecord → Bool) (change : LifecycleRecord → LifecycleRecord)
      (k : (r : LifecycleRecord) → test r ≡ true → Keeps moved r (change r)) where
    pub change_first-EmbedsBy :
        (rs : List LifecycleRecord) → EmbedsBy rs (change_first test change rs)
    unfolding change_first
    change_first-EmbedsBy [] = tt
    change_first-EmbedsBy (r ∷ rs) = elim (Bool-cases (test r)) [
      | inl t ↦ rw t (kept (k r t) (Embeds-self rs))
      | inr t ↦ rw t (
          cons-EmbedsBy r r rs (change_first test change rs)
            (IsKept-Keeps moved r r (IsKept-self r)) (change_first-EmbedsBy rs))
    ]

    pub change_where-Embeds :
        (rs : List LifecycleRecord) → Embeds moved rs (change_where test change rs)
    change_where-Embeds [] = nothing_left
    change_where-Embeds (r ∷ rs) = elim (Bool-cases (test r)) [
      | inl t ↦ rw t (kept (k r t) (change_where-Embeds rs))
      | inr t ↦ rw t (kept (IsKept-Keeps moved r r (IsKept-self r)) (change_where-Embeds rs))
    ]

  nothing-EmbedsBy : (o : Option (List LifecycleRecord)) → EmbedsBy [] o
  nothing-EmbedsBy none = tt
  nothing-EmbedsBy (some rs) = nothing_left

  forgotten-EmbedsBy :
      (r : LifecycleRecord) (rs : List LifecycleRecord) (o : Option (List LifecycleRecord))
      → has_identity r ≡ false
      → EmbedsBy rs o
      → EmbedsBy (r ∷ rs) o
  forgotten-EmbedsBy r rs none n e = tt
  forgotten-EmbedsBy r rs (some rs') n e = forgotten n e

  drop_unnamed-EmbedsBy :
      {rs rs' : List LifecycleRecord} → Embeds moved rs rs' → EmbedsBy rs (drop_unnamed rs')
  unfolding drop_unnamed
  drop_unnamed-EmbedsBy (nothing_left {rs'}) = nothing-EmbedsBy (drop_unnamed rs')
  drop_unnamed-EmbedsBy (forgotten {r} {rs} {rs'} n e) =
      forgotten-EmbedsBy r rs (drop_unnamed rs') n (drop_unnamed-EmbedsBy e)
  drop_unnamed-EmbedsBy (kept {r} {r'} {rs} {rs'} k e) =
      let rest : EmbedsBy rs (drop_unnamed rs') = drop_unnamed-EmbedsBy e in
      elim (Bool-cases (has_identity r')) [
        | inl n ↦ rw n (cons-EmbedsBy r r' rs (drop_unnamed rs') k rest)
        | inr n ↦ rw n (forgotten (Keeps-named moved r r' k n) e)
      ]

  trimmed-Embeds :
      (f : ℕ) (rs rs' : List LifecycleRecord) (o : Option (List LifecycleRecord))
      → Embeds moved rs rs'
      → EmbedsBy rs o
      → ((next : List LifecycleRecord) → Embeds moved rs next → Embeds moved rs (trim f next))
      → Embeds moved rs (elim o [ none ↦ rs' | some next ↦ trim f next ])
  trimmed-Embeds f rs rs' none e k h = e
  trimmed-Embeds f rs rs' (some next) e k h = h next k

  trim-Embeds :
      (f : ℕ) (rs rs' : List LifecycleRecord) → Embeds moved rs rs' → Embeds moved rs (trim f rs')
  unfolding trim
  trim-Embeds zero rs rs' e = e
  trim-Embeds (suc f) rs rs' e = elim (Bool-cases (ltb 8 (length rs'))) [
    | inl b ↦
        rw b (
          trimmed-Embeds f rs rs' (drop_unnamed rs') e (drop_unnamed-EmbedsBy e) (trim-Embeds f rs))
    | inr b ↦ rw b e
  ]

  pub or_else_first-EmbedsBy :
      (rs : List LifecycleRecord) (o p : Option (List LifecycleRecord))
      → EmbedsBy rs o
      → EmbedsBy rs p
      → EmbedsBy rs (or_else_first o p)
  or_else_first-EmbedsBy rs none p h k = k
  or_else_first-EmbedsBy rs (some rs') p h k = h

module _ (moved : Text → Option (Text × RunCgroup)) where
  pub Remembers-self : (history : History) → Remembers moved history history
  Remembers-self history id = Embeds-self (moved id) (records id history)

  pub set_records-Remembers :
      (id : Text) (rs : List LifecycleRecord) (history : History)
      → Embeds (moved id) (records id history) rs
      → Remembers moved history (set_records id rs history)
  unfolding records set_records
  set_records-Remembers id rs history e j = elim (Bool-cases (text_eq j id)) [
    | inl same ↦
        subst (λ k. Embeds (moved k) (records k history) (records k (set_records id rs history)))
          (sym (text_eq→eq j id same))
          (subst (λ o. Embeds (moved id) (records id history) (or_none o))
            (sym (find-insert_self text_before id rs history)) e)
    | inr other ↦
        subst (λ o. Embeds (moved j) (records j history) (or_none o))
          (sym (find-insert_ne text_before j id rs history other))
          (Embeds-self (moved j) (records j history))
  ]

  pub or_append-Remembers :
      (id : Text) (r : LifecycleRecord) (history : History) (o : Option (List LifecycleRecord))
      → r.container_id ≡ id
      → EmbedsBy (moved id) (records id history) o
      → Remembers moved history (or_append id r history o)
  unfolding append
  or_append-Remembers id r history (some rs) c k = set_records-Remembers id rs history k
  or_append-Remembers id r history none c k =
      let rs : List LifecycleRecord = records r.container_id history in
      set_records-Remembers r.container_id (trim (length (rs ++ r ∷ [])) (rs ++ r ∷ [])) history (
        trim-Embeds (moved r.container_id) (length (rs ++ r ∷ [])) rs (rs ++ r ∷ [])
          (append-Embeds (moved r.container_id) rs (r ∷ [])))
