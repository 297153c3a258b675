-- ===== src/Processor/Lifecycle/Remembered.antt =====
-- src/processor/lifecycle.rs: the operations forget no record that names a cgroup.
use swarm_device_access.Base.{
  ℕ, zero, suc, ◌≡◌, refl, sym, subst, Bool, true, false, ◌||◌, List, [], ◌∷◌, if◌then◌else◌, Text,
  text_eq, text_eq_self, text_equality, Option, none, some, inr, find,
}
use swarm_device_access.Processor.Records.{
  LifecycleRecord, is_provisional, RunCgroup, History, or_none, records, change_first,
}
use swarm_device_access.Processor.Lifecycle.{
  provisional, upgrade, or_else_first, verify, update_found, update, end_record, revoke_record,
  mark_terminal, mark_revoked, latest, end_at, terminate_records, terminate_found, terminate,
}
use swarm_device_access.Processor.Lifecycle.{provisional_record, verified_record}
use swarm_device_access.Processor.Lifecycle.Named.{
  IsKept, Embeds, kept, Remembers, IsKept-self, EmbedsBy, change_first-EmbedsBy,
  change_where-Embeds, or_else_first-EmbedsBy, Remembers-self, Embeds-self, set_records-Remembers,
  or_append-Remembers,
}

-- No run was verified.
abbrev pub unmoved : Text → Option (Text × RunCgroup)
unmoved id = none

-- The run of one container was verified.
abbrev pub moved_at : Text → Text → RunCgroup → Text → Option (Text × RunCgroup)
moved_at id started cgroup other = if text_eq other id then some (started, cgroup) else none

pub provisional-Remembers :
    (id : Text) (now : ℕ) (history : History)
    → Remembers unmoved history (provisional id now history)
unfolding provisional
provisional-Remembers id now history =
    or_append-Remembers unmoved id (provisional_record id now) history _ refl (
      change_first-EmbedsBy none (λ r. is_provisional r.state) (λ r. record r { observed = now })
        (λ r t. record {
          same_container = refl;
          same_start = refl;
          same_first_seen = refl;
          same_cgroup = refl;
        })
        (records id history))

or-left : (a b : Bool) → a ≡ true → (a || b) ≡ true
or-left true b h = refl
or-left false b h = cc

or-right : (a b : Bool) → b ≡ true → (a || b) ≡ true
or-right true b h = refl
or-right false b h = h

pub verify-Remembers :
    (id started : Text) (cgroup : RunCgroup) (now : ℕ) (history : History)
    → Remembers (moved_at id started cgroup) history (verify id started cgroup now history)
unfolding verify
verify-Remembers id started cgroup now history =
    let moved : Option (Text × RunCgroup) = some (started, cgroup) in
    let rs : List LifecycleRecord = records id history in
    let this : moved_at id started cgroup id ≡ moved = rw (text_eq_self id) refl in
    or_append-Remembers (moved_at id started cgroup) id (verified_record id started cgroup now)
      history _ refl
      (subst
        (λ m. EmbedsBy m rs (
          or_else_first
            (change_first (λ r. text_eq r.started_at started) (upgrade started cgroup) rs)
            (change_first (λ r. is_provisional r.state) (upgrade started cgroup) rs)))
        (sym this)
        (or_else_first-EmbedsBy moved rs _ _
          (change_first-EmbedsBy moved (λ r. text_eq r.started_at started) (upgrade started cgroup)
            (λ r t. inr (refl, or-left (text_eq r.started_at started) (is_provisional r.state) t))
            rs)
          (change_first-EmbedsBy moved (λ r. is_provisional r.state) (upgrade started cgroup)
            (λ r t. inr (refl, or-right (text_eq r.started_at started) (is_provisional r.state) t))
            rs)))

found-Embeds :
    (id : Text) (history : History) (rs rs' : List LifecycleRecord)
    → find id history ≡ some rs
    → Embeds none rs rs'
    → Embeds none (records id history) rs'
unfolding records
found-Embeds id history rs rs' f e = subst (λ o. Embeds none (or_none o) rs') (sym f) e

update_found-Remembers :
    (id started : Text) (change : LifecycleRecord → LifecycleRecord) (history : History)
    (o : Option (List LifecycleRecord))
    → ((r : LifecycleRecord) → IsKept r (change r))
    → find id history ≡ o
    → Remembers unmoved history (update_found id started change history o)
update_found-Remembers id started change history none k f = Remembers-self unmoved history
update_found-Remembers id started change history (some rs) k f =
    set_records-Remembers unmoved id _ history (
      found-Embeds id history rs _ f
        (change_where-Embeds none (λ r. text_eq r.started_at started) change (λ r t. k r) rs))

end_record-IsKept : (r : LifecycleRecord) → IsKept r (end_record r)
end_record-IsKept r = record {
  same_container = refl;
  same_start = refl;
  same_first_seen = refl;
  same_cgroup = refl;
}

pub mark_terminal-Remembers :
    (id started : Text) (history : History)
    → Remembers unmoved history (mark_terminal id started history)
unfolding mark_terminal update
mark_terminal-Remembers id started history =
    update_found-Remembers id started end_record history (find id history) end_record-IsKept refl

pub mark_revoked-Remembers :
    (id started : Text) (history : History)
    → Remembers unmoved history (mark_revoked id started history)
unfolding mark_revoked update
mark_revoked-Remembers id started history =
    update_found-Remembers id started revoke_record history (find id history)
      (λ r. record {
        same_container = refl;
        same_start = refl;
        same_first_seen = refl;
        same_cgroup = refl;
      })
      refl

module _ (parse_time : Text → Option ℕ) where
  end_at-Embeds :
      (index : ℕ) (rs : List LifecycleRecord) → Embeds none rs (end_at parse_time index rs)
  end_at-Embeds zero [] = Embeds-self none []
  end_at-Embeds (suc index) [] = Embeds-self none []
  end_at-Embeds zero (r ∷ rs) = kept (end_record-IsKept r) (Embeds-self none rs)
  end_at-Embeds (suc index) (r ∷ rs) = kept (IsKept-self r) (end_at-Embeds index rs)

  terminate_records-Embeds :
      (rs : List LifecycleRecord) (matched : Option (ℕ × ℕ))
      → Embeds none rs (terminate_records parse_time rs matched).1
  terminate_records-Embeds rs none =
      change_where-Embeds none (λ r. is_provisional r.state) end_record (λ r t. end_record-IsKept r)
        rs
  terminate_records-Embeds rs (some (index, start)) = end_at-Embeds index rs

  terminate_found-Remembers :
      (id : Text) (event : ℕ) (history : History) (o : Option (List LifecycleRecord))
      → find id history ≡ o
      → Remembers unmoved history (terminate_found parse_time id event history o).1
  terminate_found-Remembers id event history none f = Remembers-self unmoved history
  terminate_found-Remembers id event history (some rs) f =
      set_records-Remembers unmoved id _ history (
        found-Embeds id history rs _ f
          (terminate_records-Embeds rs (latest parse_time event 0 none rs)))

  pub terminate-Remembers :
      (id : Text) (event : ℕ) (history : History)
      → Remembers unmoved history (terminate parse_time id event history).1
  unfolding terminate
  terminate-Remembers id event history =
      terminate_found-Remembers id event history (find id history) refl
