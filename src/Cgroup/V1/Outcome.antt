-- ===== src/Cgroup/V1/Outcome.antt =====
-- src/cgroup/v1set.rs: what `set_device_rules` writes, and what holds when it has no error.
use swarm_device_access.Base.{
  ◌≡◌, refl, sym, ◌∙◌, ap, subst, true, not, ◌&&◌, List, [], ◌++◌, none, Result, ok, err,
  ok-injective, ap₂,
}
use swarm_device_access.Cgroup.Rule.{DeviceRule}
use swarm_device_access.Cgroup.Identity.{Identity}
use swarm_device_access.Cgroup.Bits.{DevBit}
use swarm_device_access.Cgroup.V1.{ListEntry, ListError, covered}
use swarm_device_access.Cgroup.V1.Ledger.{contains, owned}
use swarm_device_access.Cgroup.V1.Set.{
  SetError, V1State, V1Files, without_owned, expand_rules, read_list, revoke_all, after_read,
  after_expand, set_device_rules,
}
use swarm_device_access.Cgroup.V1.Runs.{has}
use swarm_device_access.Cgroup.V1.Revoke.{revoke_all-Runs, revoke_all-Revokes}
use swarm_device_access.Cgroup.V1.Checked.{contains-keep, own_bits}
use swarm_device_access.Cgroup.V1.Applied.{
  wanted, Writes, Achieves, read_list-state, after_revoke-Writes, after_revoke-Achieves,
}

module _ {W FileError : Type 0} (files : V1Files W FileError) (id : Identity) where
  set_from_read :
      (desired : List DevBit) (s : V1State W)
      (out : Result (ListError FileError) (List ListEntry) × V1State W) (entries : List ListEntry)
      → out.0 ≡ ok entries
      → out.1.written ≡ s.written
      → out.1.ledger ≡ s.ledger
      → Writes files id entries
          (owned id s.ledger)
          (wanted files id entries (owned id s.ledger) desired)
          s
          (after_read files id desired out)
        × Achieves files id entries
            (owned id s.ledger)
            (wanted files id entries (owned id s.ledger) desired)
            s
            (after_read files id desired out)
  set_from_read desired s (err e, t) entries r w l = cc
  set_from_read desired s (ok found, t) entries r w l =
      let same : found ≡ entries = ok-injective r in
      let old : owned id t.ledger ≡ owned id s.ledger = ap (owned id) l in
      let outcome = after_read files id desired (ok found, t) in
      let new = wanted files id found (owned id t.ledger) desired in
      let base = without_owned found (owned id t.ledger) in
      let (a, b, x, y, z, f, o) =
        after_revoke-Writes files id found (owned id t.ledger) new t
          (revoke_all files id base new [] (owned id t.ledger) t)
          (revoke_all-Runs files id base (owned id t.ledger) new [] (owned id t.ledger) t
            (own_bits (owned id t.ledger))) in
      let writes : Writes files id found (owned id t.ledger) new s outcome =
        (a, b, x ∙ ap (λ v. v ++ (a ++ b)) w, y, z, f, λ j n. o j n ∙ ap (owned j) l) in
      let achieves : Achieves files id found (owned id t.ledger) new s outcome =
        after_revoke-Achieves files id found (owned id t.ledger) new t
          (revoke_all files id base new [] (owned id t.ledger) t) refl
          (revoke_all-Revokes files id base (owned id t.ledger) new [] (owned id t.ledger) t) in
      subst
        (λ (p : List ListEntry × List DevBit).
          Writes files id p.0 p.1 (wanted files id p.0 p.1 desired) s outcome
          × Achieves files id p.0 p.1 (wanted files id p.0 p.1 desired) s outcome)
        (ap₂ (λ u v. (u, v)) same old) (writes, achieves)

  -- When the rules are acceptable and the list is read, the writes of a call are first revocations,
  -- each of a bit that the daemon owned, that is not to stay owned and that the baseline does not
  -- cover, then grants, each of a bit that is to be owned and is not effective. When a revocation
  -- fails, nothing is granted. No other cgroup's bits change.
  pub set_device_rules-Writes :
      (rules : List DeviceRule) (s : V1State W) (desired : List DevBit) (entries : List ListEntry)
      → ◌≡◌ {A = Result (SetError FileError) (List DevBit)} (expand_rules rules) (ok desired)
      → (read_list files id s).0 ≡ ok entries
      → Writes files id entries
          (owned id s.ledger)
          (wanted files id entries (owned id s.ledger) desired)
          s
          (set_device_rules files id rules s)
  unfolding set_device_rules
  set_device_rules-Writes rules s desired entries e r =
      let (w, l) = read_list-state files id s in
      rw e (set_from_read desired s (read_list files id s) entries r w l).0

  -- What a call that has no error has done.
  abbrev pub IsDone : List DeviceRule → V1State W → V1State W → Type 0
  IsDone rules s s' =
      (desired : List DevBit) × (entries after : List ListEntry) × (t : V1State W) × ◌≡◌
        {A = Result (SetError FileError) (List DevBit)} (expand_rules rules) (ok desired)
      × ((read_list files id s).0 ≡ ok entries)
      × (read_list files id t ≡ (ok after, s'))
      × ((b : DevBit)
          → has files id s' b
            ≡ (contains b desired && not (covered (without_owned entries (owned id s.ledger)) b)))
      × ((b : DevBit) → has files id s' b ≡ true → covered after b ≡ true)

  set_from_expand :
      (rules : List DeviceRule) (s : V1State W) (x : Result (SetError FileError) (List DevBit))
      → expand_rules rules ≡ x
      → (after_expand files id x s).0 ≡ none
      → IsDone rules s (after_expand files id x s).1
  set_from_expand rules s (err e) x h = cc
  set_from_expand rules s (ok desired) x h = from_list (read_list files id s).0 refl
    where
      from_list :
          (r : Result (ListError FileError) (List ListEntry))
          → (read_list files id s).0 ≡ r
          → IsDone rules s (after_read files id desired (read_list files id s)).1
      from_list (err e) r =
          let e' : (after_read files id desired (err e, (read_list files id s).1)).0 ≡ none =
            subst (λ q. (after_read files id desired (q, (read_list files id s).1)).0 ≡ none) r h in
          cc
      from_list (ok entries) r =
          let (w, l) = read_list-state files id s in
          let (owns, (after, t, last, works)) =
            (set_from_read desired s (read_list files id s) entries r w l).1 h in
          let owns' : (b : DevBit)
              → has files id (after_read files id desired (read_list files id s)).1 b ≡ (
                  contains b desired
                  && not (covered (without_owned entries (owned id s.ledger)) b)) =
            λ b.
              owns b
              ∙ contains-keep (λ bit. not (covered (without_owned entries (owned id s.ledger)) bit))
                  b desired in
          (desired, entries, after, t, x, r, last, owns', λ b o. works b (sym (owns b) ∙ o))

  -- When a call has no error, the ledger records for the cgroup exactly the bits of the rules that
  -- the baseline does not cover, the baseline being the list that was read less the bits that were
  -- owned; and in the list that was read last every one of them is effective.
  pub set_device_rules-IsDone :
      (rules : List DeviceRule) (s s' : V1State W)
      → set_device_rules files id rules s ≡ (none, s')
      → IsDone rules s s'
  unfolding set_device_rules
  set_device_rules-IsDone rules s s' e =
      subst (IsDone rules s) (ap (λ p. p.1) e)
        (set_from_expand rules s (expand_rules rules) refl (ap (λ p. p.0) e))
