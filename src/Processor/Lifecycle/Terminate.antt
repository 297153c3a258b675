-- ===== src/Processor/Lifecycle/Terminate.antt =====
-- src/processor/lifecycle.rs: the run an event ends.
use swarm_device_access.Base.{
  ℕ, zero, suc, ◌≤◌, ◌≡◌, refl, ap, subst, Bool, true, false, not, ◌||◌, List, [], ◌∷◌, ◌++◌, All,
  map, ltb, if◌then◌else◌, arith, Text, text_equality, text_eq, text_before, find-insert_self,
  find-insert_ne, ◌∙◌, Option, none, some, get_elem?, find,
}
use mathlib.Core.Option.{some-injective}
use swarm_device_access.Processor.Records.{
  LifecycleRecord, is_provisional, has_identity, History, or_none, records, set_records,
}
use swarm_device_access.Processor.Lifecycle.{
  end_record, latest, end_at, record_at, started, ended_run, terminate_records, terminate_found,
  terminate,
}
use swarm_device_access.Processor.Lifecycle.Invariant.{
  IsSound, IsFine, IsValid, set_records-IsValid, Kept, cons-Kept, change_where-Kept, Kept-IsFine,
}
use swarm_device_access.Processor.Lifecycle.Operations.{
  found-IsFine, end_record-IsSound, end_record-IsKeeping,
}
use swarm_device_access.Processor.Lifecycle.Latest.{AtMost, IsLatest, latest-IsLatest}

module _ (parse_time : Text → Option ℕ) where
  end_at-Kept :
      (id : Text) (index : ℕ) (rs : List LifecycleRecord)
      → All (IsSound id) rs
      → Kept id rs (end_at parse_time index rs)
  end_at-Kept id zero [] a = (tt, refl, λ h. h)
  end_at-Kept id (suc index) [] a = (tt, refl, λ h. h)
  end_at-Kept id zero (r ∷ rs) (s, ss) =
      cons-Kept id r (end_record r) rs rs (end_record-IsSound id r s) (λ h. h) (ss, refl, λ h. h)
  end_at-Kept id (suc index) (r ∷ rs) (s, ss) =
      cons-Kept id r r rs _ s (λ h. h) (end_at-Kept id index rs ss)

  terminate_records-IsFine :
      (id : Text) (rs : List LifecycleRecord) (matched : Option (ℕ × ℕ))
      → IsFine id rs
      → IsFine id (terminate_records parse_time rs matched).1
  terminate_records-IsFine id rs none (a, b) =
      Kept-IsFine id rs _ b (change_where-Kept id _ end_record (end_record-IsKeeping id _) rs a)
  terminate_records-IsFine id rs (some (index, start)) (a, b) =
      Kept-IsFine id rs _ b (end_at-Kept id index rs a)

  terminate_found-IsValid :
      (id : Text) (event : ℕ) (history : History) (o : Option (List LifecycleRecord))
      → IsValid history
      → find id history ≡ o
      → IsValid (terminate_found parse_time id event history o).1
  terminate_found-IsValid id event history none v e = v
  terminate_found-IsValid id event history (some rs) v e =
      set_records-IsValid id _ history
        (terminate_records-IsFine id rs (latest parse_time event 0 none rs)
          (found-IsFine id history rs v e))
        v

  -- Ending the run that an event ends keeps the history valid.
  pub terminate-IsValid :
      (id : Text) (event : ℕ) (history : History)
      → IsValid history
      → IsValid (terminate parse_time id event history).1
  unfolding terminate
  terminate-IsValid id event history v =
      terminate_found-IsValid id event history (find id history) v refl

  All-get_elem? :
      (P : LifecycleRecord → Type 0) (r : LifecycleRecord) (rs : List LifecycleRecord) (i : ℕ)
      → All P rs
      → get_elem? rs i ≡ some r
      → P r
  All-get_elem? P r [] i a e = cc
  All-get_elem? P r (x ∷ rs) zero (p, a) e = subst P (some-injective _ _ e) p
  All-get_elem? P r (x ∷ rs) (suc i) (p, a) e = All-get_elem? P r rs i a e

  -- The record at an index: those before it, and those after it.
  record_at-end_at :
      (index : ℕ) (rs : List LifecycleRecord) (r : LifecycleRecord)
      → record_at parse_time index rs ≡ r ∷ []
      → (before after : List LifecycleRecord) × (rs ≡ before ++ r ∷ after)
        × (end_at parse_time index rs ≡ before ++ end_record r ∷ after)
        × (record_at parse_time index (end_at parse_time index rs) ≡ end_record r ∷ [])
  record_at-end_at zero [] r e = cc
  record_at-end_at (suc index) [] r e = cc
  record_at-end_at zero (x ∷ rs) r e =
      let same : x ≡ r = cc in
      ([], rs, ap (λ y. y ∷ rs) same, ap (λ y. end_record y ∷ rs) same, ap (map end_record) e)
  record_at-end_at (suc index) (x ∷ rs) r e =
      let (before, after, p, q, at) = record_at-end_at index rs r e in
      (x ∷ before, after, ap (λ l. x ∷ l) p, ap (λ l. x ∷ l) q, at)

  ended_run-le :
      (event start : ℕ) (r : LifecycleRecord)
      → ended_run parse_time event r ≡ some start
      → (is_provisional r.state ≡ false) × (start ≤ event)
  ended_run-le event start r e = unguard (is_provisional r.state) (started parse_time r) e
    where
      unguard :
          (p : Bool) (o : Option ℕ)
          → (if p then none else elim o [
            | none ↦ none
            | some s ↦ (if not (has_identity r) || ltb event s then none else some s)
          ])
            ≡ some start
          → (p ≡ false) × (start ≤ event)
      unguard true o h = cc
      unguard false none h = cc
      unguard false (some s) h = (refl, ground arith)

  -- The records of a container change to these, and those of every other container stay.
  abbrev pub Rewrites : Text → List LifecycleRecord → History → History → Type 0
  Rewrites id rs history history' =
      (records id history' ≡ rs)
      × ((other : Text) → text_eq other id ≡ false → records other history' ≡ records other history)

  set_records-Rewrites :
      (id : Text) (rs : List LifecycleRecord) (history : History)
      → Rewrites id rs history (set_records id rs history)
  unfolding records set_records
  set_records-Rewrites id rs history = (
    ap or_none (find-insert_self text_before id rs history),
    λ other n. ap or_none (find-insert_ne text_before other id rs history n),
  )

  -- An event ends one record, which had not ended later than the event and started at `start` or
  -- later: it is returned ended, it is ended where it stands in the history, and nothing else is
  -- changed.
  pub record EndsLast (id : Text) (event start : ℕ) (history : History) : Type 0 where
    pub before : List LifecycleRecord
    pub last : LifecycleRecord
    pub after : List LifecycleRecord
    pub end : ℕ
    pub held : records id history ≡ before ++ last ∷ after
    pub returned : (terminate parse_time id event history).0 ≡ end_record last ∷ []
    pub rewritten :
        Rewrites id
          (before ++ end_record last ∷ after)
          history
          (terminate parse_time id event history).1
    pub ends : ended_run parse_time event last ≡ some end
    pub is_last : start ≤ end
    pub in_time : end ≤ event

  found-EndsLast :
      (id : Text) (event start : ℕ) (history : History) (rs : List LifecycleRecord)
      (r : LifecycleRecord) (i : ℕ) (m : Option (ℕ × ℕ))
      → find id history ≡ some rs
      → latest parse_time event 0 none rs ≡ m
      → get_elem? rs i ≡ some r
      → ended_run parse_time event r ≡ some start
      → IsLatest parse_time event rs rs m
      → EndsLast id event start history
  unfolding terminate records
  found-EndsLast id event start history rs r i none f g at e l =
      let n : ended_run parse_time event r ≡ none =
        All-get_elem? (λ x. ended_run parse_time event x ≡ none) r rs i l at in
      cc
  found-EndsLast id event start history rs r i (some (index, end)) f g at e
        ((last, here, ends), l) =
      let most : AtMost parse_time end (some start) =
        subst (AtMost parse_time end) e
          (All-get_elem? (λ x. AtMost parse_time end (ended_run parse_time event x)) r rs i l at) in
      let (before, after, split, ended, returned) = record_at-end_at index rs last here in
      record {
        before = before;
        last = last;
        after = after;
        end = end;
        held = ap or_none f ∙ split;
        returned = rw (f, g) returned;
        rewritten =
            rw (f, g)
              (subst
                (λ x. Rewrites id x history (set_records id (end_at parse_time index rs) history))
                ended (set_records-Rewrites id (end_at parse_time index rs) history));
        ends = ends;
        is_last = most;
        in_time = (ended_run-le event end last ends).1;
      }

  -- When an event that ended a run comes and the history holds a run that the event can have
  -- ended, it ends one run: one that started last of those, and no later than the event. That
  -- run's record is returned as ended, and is ended where it stands in the history; the other
  -- records of the container and those of every other container are unchanged.
  pub terminate-latest :
      (id : Text) (event start : ℕ) (history : History) (r : LifecycleRecord) (i : ℕ)
      → get_elem? (records id history) i ≡ some r
      → ended_run parse_time event r ≡ some start
      → EndsLast id event start history
  unfolding records
  terminate-latest id event start history r i at e = go (find id history) refl at
    where
      go :
          (o : Option (List LifecycleRecord))
          → find id history ≡ o
          → get_elem? (or_none o) i ≡ some r
          → EndsLast id event start history
      go none f h = cc
      go (some rs) f h =
          found-EndsLast id event start history rs r i (latest parse_time event 0 none rs) f refl h
            e (latest-IsLatest parse_time event [] rs none tt)
