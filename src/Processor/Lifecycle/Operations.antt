-- ===== src/Processor/Lifecycle/Operations.antt =====
-- src/processor/lifecycle.rs: every operation keeps what holds of the history.
use swarm_device_access.Base.{
  ℕ, ◌≤◌, ◌≡◌, refl, sym, subst, Bool, true, false, List, [], ◌∷◌, ◌++◌, length, keep, all, All,
  All-append, if◌then◌else◌, arith, Text, text_eq, text_equality, Option, none, some, Bool-cases,
  inl, inr, and-cases, find,
}
use swarm_device_access.Processor.Records.{
  LifecycleRecord, LifecycleState, provisional_state, verified_state, terminal_state,
  is_provisional, is_terminal, has_identity, RunCgroup, History, or_none, records,
}
use swarm_device_access.Processor.Lifecycle.{
  append, or_append, provisional_record, provisional, verified_record, upgrade, or_else_first,
  verify, update_found, update, end_record, revoke_record, mark_terminal, mark_revoked, is_other,
  set_or_erase, release_found, release,
}
use swarm_device_access.Processor.Lifecycle.Invariant.{
  IsSound, IsBounded, IsFine, IsValid, set_records-IsValid, erase-IsValid, IsKeeping, KeptBy,
  change_first-KeptBy, change_where-Kept, Kept-IsFine, trim-IsFine,
}

append-IsValid :
    (r : LifecycleRecord) (history : History)
    → IsSound r.container_id r
    → IsValid history
    → IsValid (append r history)
unfolding append
append-IsValid r history s v =
    let rs : List LifecycleRecord = records r.container_id history ++ r ∷ [] in
    set_records-IsValid r.container_id _ history
      (trim-IsFine r.container_id (length rs) rs (omega arith) (
        All-append (IsSound r.container_id) (records r.container_id history) (r ∷ [])
          (v r.container_id).0 (s, tt)))
      v

or_append-IsValid :
    (id : Text) (r : LifecycleRecord) (history : History) (o : Option (List LifecycleRecord))
    → r.container_id ≡ id
    → IsSound id r
    → KeptBy id (records id history) o
    → IsValid history
    → IsValid (or_append id r history o)
or_append-IsValid id r history none e s k v =
    append-IsValid r history (subst (λ i. IsSound i r) (sym e) s) v
or_append-IsValid id r history (some rs) e s k v =
    set_records-IsValid id rs history (Kept-IsFine id (records id history) rs (v id).1 k) v

observe-IsKeeping :
    (id : Text) (now : ℕ)
    → IsKeeping id (λ r. is_provisional r.state) (λ r. record r { observed = now })
observe-IsKeeping id now = record {
  sound = λ r t s. record {
    owner = s.owner;
    provisional_unnamed = s.provisional_unnamed;
    verified_named = s.verified_named;
    revoked_ended = s.revoked_ended;
  };
  named = λ r n. n;
}

provisional_record-IsSound : (id : Text) (now : ℕ) → IsSound id (provisional_record id now)
provisional_record-IsSound id now = record {
  owner = refl;
  provisional_unnamed = λ h. refl;
  verified_named = λ h. cc;
  revoked_ended = λ h. cc;
}

-- Recording that an inspect failed keeps the history valid.
pub provisional-IsValid :
    (id : Text) (now : ℕ) (history : History)
    → IsValid history
    → IsValid (provisional id now history)
unfolding provisional
provisional-IsValid id now history v =
    or_append-IsValid id (provisional_record id now) history _ refl
      (provisional_record-IsSound id now)
      (change_first-KeptBy id _ _ (observe-IsKeeping id now) (records id history) (v id).0) v

upgrade-IsSound :
    (id started : Text) (cgroup : RunCgroup) (r : LifecycleRecord)
    → IsSound id r
    → IsSound id (upgrade started cgroup r)
upgrade-IsSound id started cgroup r s = record {
  owner = s.owner;
  provisional_unnamed = λ h. unprovisional r.state h;
  verified_named = λ h. refl;
  revoked_ended = λ h. cc;
}
  where
    unprovisional :
        {A : Type 0} (state : LifecycleState)
        → is_provisional (if is_terminal state then state else verified_state) ≡ true
        → A
    unprovisional provisional_state h = cc
    unprovisional verified_state h = cc
    unprovisional terminal_state h = cc

upgrade-IsKeeping :
    (id started : Text) (cgroup : RunCgroup) (test : LifecycleRecord → Bool)
    → IsKeeping id test (upgrade started cgroup)
upgrade-IsKeeping id started cgroup test = record {
  sound = λ r t s. upgrade-IsSound id started cgroup r s;
  named = λ r n. refl;
}

or_else_first-KeptBy :
    (id : Text) (rs : List LifecycleRecord) (o p : Option (List LifecycleRecord))
    → KeptBy id rs o
    → KeptBy id rs p
    → KeptBy id rs (or_else_first o p)
or_else_first-KeptBy id rs none p h k = k
or_else_first-KeptBy id rs (some rs') p h k = h

verified_record-IsSound :
    (id started : Text) (cgroup : RunCgroup) (now : ℕ)
    → IsSound id (verified_record id started cgroup now)
verified_record-IsSound id started cgroup now = record {
  owner = refl;
  provisional_unnamed = λ h. cc;
  verified_named = λ h. refl;
  revoked_ended = λ h. cc;
}

-- Recording the cgroup of a run keeps the history valid.
pub verify-IsValid :
    (id started : Text) (cgroup : RunCgroup) (now : ℕ) (history : History)
    → IsValid history
    → IsValid (verify id started cgroup now history)
unfolding verify
verify-IsValid id started cgroup now history v =
    let rs : List LifecycleRecord = records id history in
    or_append-IsValid id (verified_record id started cgroup now) history _ refl
      (verified_record-IsSound id started cgroup now)
      (or_else_first-KeptBy id rs _ _
        (change_first-KeptBy id _ _ (upgrade-IsKeeping id started cgroup _) rs (v id).0)
        (change_first-KeptBy id _ _ (upgrade-IsKeeping id started cgroup _) rs (v id).0))
      v

-- What an operation finds in a valid history is fine.
pub found-IsFine :
    (id : Text) (history : History) (rs : List LifecycleRecord)
    → IsValid history
    → find id history ≡ some rs
    → IsFine id rs
unfolding records
found-IsFine id history rs v e = subst (λ o. IsFine id (or_none o)) e (v id)

update_found-IsValid :
    (id started : Text) (change : LifecycleRecord → LifecycleRecord) (history : History)
    (o : Option (List LifecycleRecord))
    → IsKeeping id (λ r. text_eq r.started_at started) change
    → IsValid history
    → find id history ≡ o
    → IsValid (update_found id started change history o)
update_found-IsValid id started change history none k v e = v
update_found-IsValid id started change history (some rs) k v e =
    let f : IsFine id rs = found-IsFine id history rs v e in
    set_records-IsValid id _ history
      (Kept-IsFine id rs _ f.1 (change_where-Kept id _ change k rs f.0)) v

update-IsValid :
    (id started : Text) (change : LifecycleRecord → LifecycleRecord) (history : History)
    → IsKeeping id (λ r. text_eq r.started_at started) change
    → IsValid history
    → IsValid (update id started change history)
unfolding update
update-IsValid id started change history k v =
    update_found-IsValid id started change history (find id history) k v refl

pub end_record-IsSound :
    (id : Text) (r : LifecycleRecord) → IsSound id r → IsSound id (end_record r)
end_record-IsSound id r s = record {
  owner = s.owner;
  provisional_unnamed = λ h. cc;
  verified_named = λ h. cc;
  revoked_ended = λ h. refl;
}

pub end_record-IsKeeping :
    (id : Text) (test : LifecycleRecord → Bool) → IsKeeping id test end_record
end_record-IsKeeping id test = record {
  sound = λ r t s. end_record-IsSound id r s;
  named = λ r n. n;
}

-- Marking a run ended keeps the history valid.
pub mark_terminal-IsValid :
    (id started : Text) (history : History)
    → IsValid history
    → IsValid (mark_terminal id started history)
unfolding mark_terminal
mark_terminal-IsValid id started history v =
    update-IsValid id started end_record history (end_record-IsKeeping id _) v

ended_or : (a b : Bool) → (b ≡ true → a ≡ true) → (if a then true else b) ≡ true → a ≡ true
ended_or true b k h = refl
ended_or false b k h = k h

revoke_record-IsKeeping :
    (id : Text) (test : LifecycleRecord → Bool) → IsKeeping id test revoke_record
revoke_record-IsKeeping id test = record {
  sound = λ r t s. record {
    owner = s.owner;
    provisional_unnamed = s.provisional_unnamed;
    verified_named = s.verified_named;
    revoked_ended = λ h. ended_or (is_terminal r.state) r.revoked s.revoked_ended h;
  };
  named = λ r n. n;
}

-- Marking a run revoked keeps the history valid.
pub mark_revoked-IsValid :
    (id started : Text) (history : History)
    → IsValid history
    → IsValid (mark_revoked id started history)
unfolding mark_revoked
mark_revoked-IsValid id started history v =
    update-IsValid id started revoke_record history (revoke_record-IsKeeping id _) v

-- Records of a list that are still sound, and no more of them, with names if all had them.
keep-Fine :
    (id : Text) (test : LifecycleRecord → Bool) (rs : List LifecycleRecord)
    → All (IsSound id) rs
    → All (IsSound id) (keep test rs)
      × (length (keep test rs) ≤ length rs)
      × (all has_identity rs ≡ true → all has_identity (keep test rs) ≡ true)
keep-Fine id test [] a = (tt, omega arith, λ h. h)
keep-Fine id test (r ∷ rs) (s, ss) =
    let (a, l, h) : All (IsSound id) (keep test rs)
        × (length (keep test rs) ≤ length rs)
        × (all has_identity rs ≡ true → all has_identity (keep test rs) ≡ true) =
      keep-Fine id test rs ss in
    elim (Bool-cases (test r)) [
      | inl t ↦ rw t ((s, a), omega (arith, l), λ m. ground (arith, m, h))
      | inr t ↦
          rw t (a, omega (arith, l), λ m. h (and-cases (has_identity r) (all has_identity rs) m).1)
    ]

keep-IsFine :
    (id : Text) (test : LifecycleRecord → Bool) (rs : List LifecycleRecord)
    → IsFine id rs
    → IsFine id (keep test rs)
keep-IsFine id test rs (a, b) = kept b (keep-Fine id test rs a)
  where
    kept :
        IsBounded rs
        → (All (IsSound id) (keep test rs)
            × (length (keep test rs) ≤ length rs)
            × (all has_identity rs ≡ true → all has_identity (keep test rs) ≡ true))
        → IsFine id (keep test rs)
    kept (inl l) (a', l', h) = (a', inl (omega (arith, l, l')))
    kept (inr m) (a', l', h) = (a', inr (h m))

set_or_erase-IsValid :
    (id : Text) (rs : List LifecycleRecord) (history : History)
    → IsFine id rs
    → IsValid history
    → IsValid (set_or_erase id rs history)
set_or_erase-IsValid id [] history f v = erase-IsValid id history v
set_or_erase-IsValid id (r ∷ rs) history f v = set_records-IsValid id (r ∷ rs) history f v

release_found-IsValid :
    (released : LifecycleRecord) (history : History) (o : Option (List LifecycleRecord))
    → IsValid history
    → find released.container_id history ≡ o
    → IsValid (release_found released history o)
release_found-IsValid released history none v e = v
release_found-IsValid released history (some rs) v e =
    set_or_erase-IsValid released.container_id (keep (is_other released) rs) history
      (keep-IsFine released.container_id (is_other released) rs
        (found-IsFine released.container_id history rs v e))
      v

-- Releasing a record keeps the history valid.
pub release-IsValid :
    (released : LifecycleRecord) (history : History)
    → IsValid history
    → IsValid (release released history)
unfolding release
release-IsValid released history v =
    release_found-IsValid released history (find released.container_id history) v refl
