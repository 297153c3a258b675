-- ===== src/Processor/Rules/Visits.antt =====
-- src/processor/rules.rs: what each visit of a walk does, and all of them.
use mathlib.Core.List.{append_assoc, append-nil}
use swarm_device_access.Base.{
  ℕ, suc, ◌+◌, ◌≤◌, ◌≡◌, refl, sym, ◌∙◌, ap, subst, Bool, true, false, List, [], ◌∷◌, ◌++◌, length,
  length-append, All, if◌then◌else◌, arith, ltb, Text, text_eq, Option, none, some, Bool-cases, inl,
  inr,
}
use swarm_device_access.Processor.Dev.{SysError, Visited, DevFs}
use swarm_device_access.Processor.Names.{
  Candidate, Crates, Judge, DeviceError, incomplete_walk, mount_too_large,
}
use swarm_device_access.Processor.Rules.{evaluate_candidate}
use swarm_device_access.Processor.Rules.Mount.{
  MountResult, MountWalkState, WalkControl, continue_walk, skip_all, push_error, without_prefix,
  add_name, see_child, count_entry, visit_entry, after_visit, visit_all,
}
use swarm_device_access.Processor.Rules.Judged.{IsJudged}
use swarm_device_access.Processor.Rules.Walked.{
  is_entry, entries_of, any_failed, accounted, Adds, add_name-AllJudged, add_name-Adds, device_of,
  devices_at, devices_in, add_name-candidates, see_child-result, IsWalk,
}

-- The candidates and the skipped names.
abbrev pub names_of : MountResult → ℕ
names_of result = length result.candidates + result.skipped

abbrev entry_count : Bool → ℕ
entry_count true = 1
entry_count false = 0

module _ {Pattern Node : Type 0} (crates : Crates Pattern) (dev : DevFs Node) (judge : Judge) where
  -- What a visit does: it drops no error, and when it adds none it counts its name and goes on.
  record IsVisit (is_name : Bool) (found : List Candidate) (o : Option SysError)
      (before after : MountWalkState) (control : WalkControl) : Type 0 where
    errors_kept : length before.result.errs ≤ length after.result.errs
    clean :
        length after.result.errs ≤ length before.result.errs
        → (names_of after.result ≡ names_of before.result + entry_count is_name)
          × (after.result.candidates ≡ before.result.candidates ++ found)
          × (o ≡ none)
          × (control ≡ continue_walk)
    walks : IsWalk crates dev judge before → IsWalk crates dev judge after

  error-IsVisit :
      (is_name : Bool) (found : List Candidate) (o : Option SysError) (e : DeviceError)
      (before after : MountWalkState) (control : WalkControl)
      → after.result ≡ push_error e before.result
      → before.entries ≤ after.entries
      → IsVisit is_name found o before after control
  error-IsVisit is_name found o e before after control r n =
      let candidates : after.result.candidates ≡ before.result.candidates =
        ap (λ x. x.candidates) r in
      let count : length after.result.candidates ≡ length before.result.candidates =
        ap length candidates in
      let skips : after.result.skipped ≡ before.result.skipped = ap (λ x. x.skipped) r in
      let more : length after.result.errs ≡ length before.result.errs + 1 =
        ap (λ x. length x.errs) r ∙ length-append before.result.errs (e ∷ []) in
      record {
        errors_kept = omega (arith, more);
        clean = λ h. absurd (omega (arith, more, h));
        walks = λ w. record {
          judged = subst (All (IsJudged crates dev judge)) (sym candidates) w.judged;
          bounded = let b = w.bounded in omega (arith, count, skips, b);
          counted = let b = w.counted in omega (arith, count, skips, b, n);
        };
      }

  -- A name that is no directory, within the bound.
  name-IsVisit :
      (alias walked : Text) (before : MountWalkState)
      → ltb 4096 (before.entries + 1) ≡ false
      → IsVisit true
          (device_of (evaluate_candidate crates dev judge alias))
          none
          before
          (add_name crates dev judge alias
            (see_child crates dev judge walked (count_entry crates dev judge before)))
          continue_walk
  name-IsVisit alias walked before l =
      let seen = see_child crates dev judge walked (count_entry crates dev judge before) in
      let (r, n) = see_child-result crates dev judge walked (count_entry crates dev judge before) in
      let after = add_name crates dev judge alias seen in
      let adds : Adds seen after = add_name-Adds crates dev judge alias seen in
      let same : accounted seen.result ≡ accounted before.result = ap accounted r in
      let errors : length seen.result.errs ≡ length before.result.errs =
        ap (λ x. length x.errs) r in
      let names : names_of seen.result ≡ names_of before.result = ap names_of r in
      let one = adds.one in
      let kept = adds.errors_kept in
      let entries = adds.entries_same in
      record {
        errors_kept = omega (arith, kept, errors);
        clean = λ h. (
          omega (arith, one, kept, errors, names, same, h),
          add_name-candidates crates dev judge alias seen
              ∙ ap (λ x. x.candidates ++ device_of (evaluate_candidate crates dev judge alias)) r,
          refl,
          refl,
        );
        walks = λ w.
            let counted = w.counted in
            let within : before.entries + 1 ≤ 4096 = ground arith in
            record {
              judged =
                  add_name-AllJudged crates dev judge alias seen
                    (subst (λ x. All (IsJudged crates dev judge) x.candidates) (sym r) w.judged);
              bounded = omega (arith, one, kept, errors, names, same, counted, within);
              counted = omega (arith, one, kept, errors, names, same, counted, entries, n);
            };
      }

  quiet-IsVisit :
      (before after : MountWalkState)
      → after.result ≡ before.result
      → before.entries ≤ after.entries
      → IsVisit false [] none before after continue_walk
  quiet-IsVisit before after r n =
      let names : names_of after.result ≡ names_of before.result = ap names_of r in
      let errors : length after.result.errs ≡ length before.result.errs =
        ap (λ x. length x.errs) r in
      record {
        errors_kept = omega (arith, errors);
        clean = λ h. (
          omega (arith, names),
          ap (λ x. x.candidates) r ∙ sym (append-nil before.result.candidates),
          refl,
          refl,
        );
        walks = λ w. record {
          judged = subst (λ x. All (IsJudged crates dev judge) x.candidates) (sym r) w.judged;
          bounded = let b = w.bounded in omega (arith, names, b);
          counted = let b = w.counted in omega (arith, names, b, n);
        };
      }

  visit_entry-IsVisit :
      (source root : Text) (visited : Visited) (o : Option SysError) (before : MountWalkState)
      → IsVisit
          (is_entry root visited o)
          (devices_at crates dev judge source root visited o)
          o
          before
          (visit_entry crates dev judge source root visited o before).0
          (visit_entry crates dev judge source root visited o before).1
  unfolding visit_entry
  visit_entry-IsVisit source root visited (some e) before =
      error-IsVisit false [] (some e)
        (incomplete_walk (source ++ without_prefix root visited.path) e) before _ continue_walk refl
        (omega arith)
  visit_entry-IsVisit source root visited none before =
      elim (Bool-cases (text_eq visited.path root)) [
        | inl r ↦ rw r (quiet-IsVisit before before refl (omega arith))
        | inr r ↦ elim (Bool-cases (ltb 4096 (before.entries + 1))) [
          | inl l ↦
              rw (r, l)
                (error-IsVisit _ _ none (mount_too_large source) before _ skip_all refl
                  (omega arith))
          | inr l ↦ elim (Bool-cases visited.is_dir) [
            | inl d ↦
                rw (r, l, d)
                  (quiet-IsVisit before (count_entry crates dev judge before) refl (omega arith))
            | inr d ↦
                rw (r, l, d)
                  (name-IsVisit (source ++ without_prefix root visited.path) visited.path before l)
          ]
        ]
      ]

  -- What a walk does, over all its visits.
  pub record IsWalked (source root : Text) (visits : List Visited) (before after : MountWalkState)
      : Type 0 where
    pub all_kept : length before.result.errs ≤ length after.result.errs
    pub complete :
        length after.result.errs ≤ length before.result.errs
        → (names_of after.result ≡ names_of before.result + entries_of root visits)
          × (after.result.candidates
              ≡ before.result.candidates ++ devices_in crates dev judge source root visits)
          × (any_failed visits ≡ false)
    pub all_walks : IsWalk crates dev judge before → IsWalk crates dev judge after

  visit-IsWalked :
      (source root : Text) (visited : Visited) (rest : List Visited) (o : Option SysError)
      (before state : MountWalkState) (control : WalkControl)
      (next : MountWalkState → MountWalkState)
      → visited.error ≡ o
      → IsVisit
          (is_entry root visited o)
          (devices_at crates dev judge source root visited o)
          o
          before
          state
          control
      → IsWalked source root rest state (next state)
      → IsWalked source root
          (visited ∷ rest)
          before
          (after_visit crates dev judge next (state, control))
  visit-IsWalked source root visited rest o before state skip_all next e v w =
      let kept = v.errors_kept in
      record {
        all_kept = kept;
        complete = λ h. let (a, d, b, c) = v.clean h in cc;
        all_walks = v.walks;
      }
  visit-IsWalked source root visited rest (some x) before state continue_walk next e v w =
      let kept = v.errors_kept in
      let more = w.all_kept in
      record {
        all_kept = omega (arith, kept, more);
        complete = λ h. let (a, d, b, c) = v.clean (omega (arith, kept, more, h)) in cc;
        all_walks = λ i. w.all_walks (v.walks i);
      }
  visit-IsWalked source root visited rest none before state continue_walk next e v w =
      let kept = v.errors_kept in
      let more = w.all_kept in
      record {
        all_kept = omega (arith, kept, more);
        complete = λ h.
            let (a, d, b, c) = v.clean (omega (arith, kept, more, h)) in
            let (x, z, y) = w.complete (omega (arith, kept, more, h)) in
            subst
              (λ p.
                (names_of (next state).result
                  ≡ names_of before.result
                    + (if is_entry root visited p
                        then suc (entries_of root rest)
                        else entries_of root rest))
                × ((next state).result.candidates
                    ≡ before.result.candidates
                      ++ (devices_at crates dev judge source root visited p
                          ++ devices_in crates dev judge source root rest))
                × ((elim p [ none ↦ any_failed rest | some f ↦ true ]) ≡ false))
              (sym e)
              (
                sum (is_entry root visited none) a x,
                z
                    ∙ ap (λ l. l ++ devices_in crates dev judge source root rest) d
                    ∙ append_assoc before.result.candidates
                        (devices_at crates dev judge source root visited none)
                        (devices_in crates dev judge source root rest),
                y,
              );
        all_walks = λ i. w.all_walks (v.walks i);
      }
    where
      sum :
          (b : Bool)
          → names_of state.result ≡ names_of before.result + entry_count b
          → names_of (next state).result ≡ names_of state.result + entries_of root rest
          → names_of (next state).result
            ≡ names_of before.result
              + (if b then suc (entries_of root rest) else entries_of root rest)
      sum true a x = omega (arith, a, x)
      sum false a x = omega (arith, a, x)

  pub visit_all-IsWalked :
      (source root : Text) (visits : List Visited) (before : MountWalkState)
      → IsWalked source root visits before (visit_all crates dev judge source root visits before)
  unfolding visit_all
  visit_all-IsWalked source root [] before = record {
    all_kept = omega arith;
    complete = λ h. (omega arith, sym (append-nil before.result.candidates), refl);
    all_walks = λ w. w;
  }
  visit_all-IsWalked source root (visited ∷ rest) before =
      let out = visit_entry crates dev judge source root visited visited.error before in
      visit-IsWalked source root visited rest visited.error before out.0 out.1
        (visit_all crates dev judge source root rest) refl
        (visit_entry-IsVisit source root visited visited.error before)
        (visit_all-IsWalked source root rest out.0)
