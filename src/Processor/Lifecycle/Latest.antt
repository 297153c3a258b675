-- ===== src/Processor/Lifecycle/Latest.antt =====
-- src/processor/lifecycle.rs: the run that an event can have ended and that started last.
use swarm_device_access.Base.{
  ℕ, suc, ◌≤◌, ◌≡◌, refl, sym, subst, List, [], ◌∷◌, ◌++◌, length, length-append, All, All-append,
  ltb, if◌then◌else◌, arith, Text, text_equality, Option, none, some, Bool-cases, inl, inr,
}
use mathlib.Core.List.{append_assoc, append-nil}
use swarm_device_access.Processor.Records.{LifecycleRecord}
use swarm_device_access.Processor.Lifecycle.{latest, record_at, ended_run, is_later, later}

module _ (parse_time : Text → Option ℕ) where
  -- A start that is at most this one.
  abbrev pub AtMost : ℕ → Option ℕ → Type 0
  AtMost start none = Unit
  AtMost start (some other) = other ≤ start

  -- Of the records seen, the match is one that the event can have ended and that started last.
  abbrev pub IsLatest : ℕ → List LifecycleRecord → List LifecycleRecord → Option (ℕ × ℕ) → Type 0
  IsLatest event rs seen none = All (λ r. ended_run parse_time event r ≡ none) seen
  IsLatest event rs seen (some (index, start)) =
      ((r : LifecycleRecord) × (record_at parse_time index rs ≡ r ∷ [])
        × (ended_run parse_time event r ≡ some start))
      × All (λ r. AtMost start (ended_run parse_time event r)) seen

  record_at-length :
      (seen : List LifecycleRecord) (r : LifecycleRecord) (rs : List LifecycleRecord)
      → record_at parse_time (length seen) (seen ++ r ∷ rs) ≡ r ∷ []
  record_at-length [] r rs = refl
  record_at-length (s ∷ seen) r rs = record_at-length seen r rs

  none-AtMost :
      (event start : ℕ) (rs : List LifecycleRecord)
      → All (λ r. ended_run parse_time event r ≡ none) rs
      → All (λ r. AtMost start (ended_run parse_time event r)) rs
  none-AtMost event start [] a = tt
  none-AtMost event start (r ∷ rs) (e, a) =
      (subst (AtMost start) (sym e) tt, none-AtMost event start rs a)

  AtMost-le : (s t : ℕ) (o : Option ℕ) → s ≤ t → AtMost s o → AtMost t o
  AtMost-le s t none h a = tt
  AtMost-le s t (some u) h a = omega (arith, h, a)

  All-AtMost-le :
      (event s t : ℕ) (rs : List LifecycleRecord)
      → s ≤ t
      → All (λ r. AtMost s (ended_run parse_time event r)) rs
      → All (λ r. AtMost t (ended_run parse_time event r)) rs
  All-AtMost-le event s t [] h a = tt
  All-AtMost-le event s t (r ∷ rs) h (x, a) =
      (AtMost-le s t (ended_run parse_time event r) h x, All-AtMost-le event s t rs h a)

  skipped-IsLatest :
      (event : ℕ) (rs seen : List LifecycleRecord) (r : LifecycleRecord) (m : Option (ℕ × ℕ))
      → IsLatest event rs seen m
      → ended_run parse_time event r ≡ none
      → IsLatest event rs (seen ++ r ∷ []) m
  skipped-IsLatest event rs seen r none l e =
      All-append (λ x. ended_run parse_time event x ≡ none) seen (r ∷ []) l (e, tt)
  skipped-IsLatest event rs seen r (some (index, start)) (x, l) e = (
    x,
    All-append (λ y. AtMost start (ended_run parse_time event y)) seen (r ∷ []) l
        (subst (AtMost start) (sym e) tt, tt),
  )

  matched-IsLatest :
      (event : ℕ) (rs seen : List LifecycleRecord) (r : LifecycleRecord) (m : Option (ℕ × ℕ))
      (start : ℕ)
      → IsLatest event rs seen m
      → record_at parse_time (length seen) rs ≡ r ∷ []
      → ended_run parse_time event r ≡ some start
      → IsLatest event rs
          (seen ++ r ∷ [])
          (if is_later parse_time m start then some (length seen, start) else m)
  matched-IsLatest event rs seen r none start l at e = (
    (r, at, e),
    All-append (λ y. AtMost start (ended_run parse_time event y)) seen (r ∷ [])
        (none-AtMost event start seen l) (subst (AtMost start) (sym e) (omega arith), tt),
  )
  matched-IsLatest event rs seen r (some (index, last)) start (x, l) at e =
      elim (Bool-cases (ltb last start)) [
        | inl b ↦ rw b (
          (r, at, e),
          All-append (λ y. AtMost start (ended_run parse_time event y)) seen (r ∷ [])
              (All-AtMost-le event last start seen (ground arith) l)
              (subst (AtMost start) (sym e) (omega arith), tt),
        )
        | inr b ↦ rw b (
          x,
          All-append (λ y. AtMost last (ended_run parse_time event y)) seen (r ∷ []) l
              (subst (AtMost last) (sym e) (ground arith), tt),
        )
      ]

  IsLatest-step :
      (event : ℕ) (rs seen : List LifecycleRecord) (r : LifecycleRecord) (m : Option (ℕ × ℕ))
      (o : Option ℕ)
      → ended_run parse_time event r ≡ o
      → IsLatest event rs seen m
      → record_at parse_time (length seen) rs ≡ r ∷ []
      → IsLatest event rs (seen ++ r ∷ []) (later parse_time (length seen) m o)
  IsLatest-step event rs seen r m none e l at = skipped-IsLatest event rs seen r m l e
  IsLatest-step event rs seen r m (some start) e l at =
      matched-IsLatest event rs seen r m start l at e

  -- The loop finds the last run that can have ended.
  pub latest-IsLatest :
      (event : ℕ) (seen rest : List LifecycleRecord) (m : Option (ℕ × ℕ))
      → IsLatest event (seen ++ rest) seen m
      → IsLatest event (seen ++ rest) (seen ++ rest) (latest parse_time event (length seen) m rest)
  unfolding latest
  latest-IsLatest event seen [] m l =
      subst (λ rs. IsLatest event rs rs m) (sym (append-nil seen))
        (subst (λ rs. IsLatest event rs seen m) (append-nil seen) l)
  latest-IsLatest event seen (r ∷ rest) m l =
      let shift : seen ++ r ∷ rest ≡ (seen ++ r ∷ []) ++ rest =
        sym (append_assoc seen (r ∷ []) rest) in
      let count : suc (length seen) ≡ length (seen ++ r ∷ []) =
        omega (arith, length-append seen (r ∷ [])) in
      let m' : Option (ℕ × ℕ) = later parse_time (length seen) m (ended_run parse_time event r) in
      let l' : IsLatest event (seen ++ r ∷ rest) (seen ++ r ∷ []) m' =
        IsLatest-step event (seen ++ r ∷ rest) seen r m (ended_run parse_time event r) refl l
          (record_at-length seen r rest) in
      let last : IsLatest event ((seen ++ r ∷ []) ++ rest) ((seen ++ r ∷ []) ++ rest)
          (latest parse_time event (length (seen ++ r ∷ [])) m' rest) =
        latest-IsLatest event (seen ++ r ∷ []) rest m'
          (subst (λ rs. IsLatest event rs (seen ++ r ∷ []) m') shift l') in
      rw (shift, count) last
