-- ===== src/Processor/Lifecycle/Invariant.antt =====
-- src/processor/lifecycle.rs: what holds of the history between two operations.

use swarm_device_access.Base.{
  ℕ, zero, suc, ◌+◌, ◌≤◌, ◌≡◌, refl, sym, subst, Bool, true, false, ◌&&◌, List, [], ◌∷◌, length,
  all, All, ltb, arith, Text, text_eq, text_eq→eq, text_equality, Option, none, some, Bool-cases,
  inl, inr, ◌⊎◌, and-cases, find, insert, erase, text_before, find-insert_self, find-insert_ne,
  find-erase_self, find-erase_ne,
}
use swarm_device_access.Processor.Records.{
  LifecycleRecord, verified_state, is_provisional, is_terminal, is_named, has_identity, History,
  or_none, records, set_records, change_first, drop_unnamed,
}
use swarm_device_access.Processor.Lifecycle.{trim, change_where}

-- A record stands under its container, a provisional one names no cgroup, a verified one names
-- one, and only an ended one counts as revoked.
pub record IsSound (id : Text) (r : LifecycleRecord) : Type 0 where
  pub owner : r.container_id ≡ id
  pub provisional_unnamed : is_provisional r.state ≡ true → is_named r.cgroup ≡ false
  pub verified_named : r.state ≡ verified_state → is_named r.cgroup ≡ true
  pub revoked_ended : r.revoked ≡ true → is_terminal r.state ≡ true

-- Over the bound, every record names a cgroup.
abbrev pub IsBounded : List LifecycleRecord → Type 0
IsBounded rs = (length rs ≤ 8) ⊎ (all has_identity rs ≡ true)

abbrev pub IsFine : Text → List LifecycleRecord → Type 0
IsFine id rs = All (IsSound id) rs × IsBounded rs

abbrev pub IsValid : History → Type 0
IsValid history = (id : Text) → IsFine id (records id history)

pub set_records-IsValid :
    (id : Text) (rs : List LifecycleRecord) (history : History)
    → IsFine id rs
    → IsValid history
    → IsValid (set_records id rs history)
unfolding records set_records
set_records-IsValid id rs history f v j = elim (Bool-cases (text_eq j id)) [
  | inl e ↦
      let same : j ≡ id = text_eq→eq j id e in
      subst (λ k. IsFine k (or_none (find k (insert text_before id rs history)))) (sym same)
        (subst (λ o. IsFine id (or_none o)) (sym (find-insert_self text_before id rs history)) f)
  | inr e ↦
      subst (λ o. IsFine j (or_none o)) (sym (find-insert_ne text_before j id rs history e)) (v j)
]

pub erase-IsValid : (id : Text) (history : History) → IsValid history → IsValid (erase id history)
unfolding records
erase-IsValid id history v j = elim (Bool-cases (text_eq j id)) [
  | inl e ↦
      subst (λ k. IsFine k (or_none (find k (erase id history)))) (sym (text_eq→eq j id e))
        (subst (λ o. IsFine id (or_none o)) (sym (find-erase_self id history))
          (tt, inl (omega arith)))
  | inr e ↦ subst (λ o. IsFine j (or_none o)) (sym (find-erase_ne j id history e)) (v j)
]

-- A change that keeps a record sound and named.
pub record IsKeeping (id : Text) (test : LifecycleRecord → Bool)
    (change : LifecycleRecord → LifecycleRecord) : Type 0 where
  pub sound : (r : LifecycleRecord) → test r ≡ true → IsSound id r → IsSound id (change r)
  pub named : (r : LifecycleRecord) → has_identity r ≡ true → has_identity (change r) ≡ true

-- What an operation that changes records, and drops none, keeps of them.
abbrev pub Kept : Text → List LifecycleRecord → List LifecycleRecord → Type 0
Kept id rs rs' =
    All (IsSound id) rs'
    × (length rs' ≡ length rs)
    × (all has_identity rs ≡ true → all has_identity rs' ≡ true)

abbrev pub KeptBy : Text → List LifecycleRecord → Option (List LifecycleRecord) → Type 0
KeptBy id rs none = Unit
KeptBy id rs (some rs') = Kept id rs rs'

and-true : (a b : Bool) → a ≡ true → b ≡ true → (a && b) ≡ true
and-true a b h k = rw (h, k) refl

pub cons-Kept :
    (id : Text) (r r' : LifecycleRecord) (rs rs' : List LifecycleRecord)
    → IsSound id r'
    → (has_identity r ≡ true → has_identity r' ≡ true)
    → Kept id rs rs'
    → Kept id (r ∷ rs) (r' ∷ rs')
cons-Kept id r r' rs rs' s n (a, l, h) = (
  (s, a),
  omega (arith, l),
  λ m.
      let (p, q) = and-cases (has_identity r) (all has_identity rs) m in
      and-true (has_identity r') (all has_identity rs') (n p) (h q),
)

cons-KeptBy :
    (id : Text) (r : LifecycleRecord) (rs : List LifecycleRecord)
    (o : Option (List LifecycleRecord))
    → IsSound id r
    → KeptBy id rs o
    → KeptBy id (r ∷ rs) (elim o [ none ↦ none | some rs' ↦ some (r ∷ rs') ])
cons-KeptBy id r rs none s k = tt
cons-KeptBy id r rs (some rs') s k = cons-Kept id r r rs rs' s (λ h. h) k

module _ (id : Text) (test : LifecycleRecord → Bool) (change : LifecycleRecord → LifecycleRecord)
    (k : IsKeeping id test change) where
  pub change_first-KeptBy :
      (rs : List LifecycleRecord) → All (IsSound id) rs → KeptBy id rs (change_first test change rs)
  unfolding change_first
  change_first-KeptBy [] a = tt
  change_first-KeptBy (r ∷ rs) (s, ss) = elim (Bool-cases (test r)) [
    | inl t ↦ rw t (cons-Kept id r (change r) rs rs (k.sound r t s) (k.named r) (ss, refl, λ h. h))
    | inr t ↦ rw t (cons-KeptBy id r rs (change_first test change rs) s (change_first-KeptBy rs ss))
  ]

  pub change_where-Kept :
      (rs : List LifecycleRecord) → All (IsSound id) rs → Kept id rs (change_where test change rs)
  change_where-Kept [] a = (tt, refl, λ h. h)
  change_where-Kept (r ∷ rs) (s, ss) = elim (Bool-cases (test r)) [
    | inl t ↦
        rw t (cons-Kept id r (change r) rs _ (k.sound r t s) (k.named r) (change_where-Kept rs ss))
    | inr t ↦ rw t (cons-Kept id r r rs _ s (λ h. h) (change_where-Kept rs ss))
  ]

pub Kept-IsFine :
    (id : Text) (rs rs' : List LifecycleRecord) → IsBounded rs → Kept id rs rs' → IsFine id rs'
Kept-IsFine id rs rs' (inl b) (a, l, h) = (a, inl (omega (arith, l)))
Kept-IsFine id rs rs' (inr b) (a, l, h) = (a, inr (h b))

-- What is left when a record that names no cgroup is dropped.
abbrev Dropped : Text → List LifecycleRecord → Option (List LifecycleRecord) → Type 0
Dropped id rs none = all has_identity rs ≡ true
Dropped id rs (some rs') = All (IsSound id) rs' × (length rs ≡ suc (length rs'))

cons-Dropped :
    (id : Text) (r : LifecycleRecord) (rs : List LifecycleRecord)
    (o : Option (List LifecycleRecord))
    → IsSound id r
    → has_identity r ≡ true
    → Dropped id rs o
    → Dropped id (r ∷ rs) (elim o [ none ↦ none | some rs' ↦ some (r ∷ rs') ])
cons-Dropped id r rs none s n d = and-true (has_identity r) (all has_identity rs) n d
cons-Dropped id r rs (some rs') s n (a, l) = ((s, a), omega (arith, l))

drop_unnamed-Dropped :
    (id : Text) (rs : List LifecycleRecord) → All (IsSound id) rs → Dropped id rs (drop_unnamed rs)
unfolding drop_unnamed
drop_unnamed-Dropped id [] a = refl
drop_unnamed-Dropped id (r ∷ rs) (s, ss) = elim (Bool-cases (has_identity r)) [
  | inl n ↦ rw n (cons-Dropped id r rs (drop_unnamed rs) s n (drop_unnamed-Dropped id rs ss))
  | inr n ↦ rw n (ss, refl)
]

trimmed-IsFine :
    (id : Text) (f : ℕ) (rs : List LifecycleRecord) (o : Option (List LifecycleRecord))
    → All (IsSound id) rs
    → Dropped id rs o
    → ((rs' : List LifecycleRecord)
        → All (IsSound id) rs'
        → length rs ≡ suc (length rs')
        → IsFine id (trim f rs'))
    → IsFine id (elim o [ none ↦ rs | some rs' ↦ trim f rs' ])
trimmed-IsFine id f rs none a d next = (a, inr d)
trimmed-IsFine id f rs (some rs') a (a', e) next = next rs' a' e

pub trim-IsFine :
    (id : Text) (f : ℕ) (rs : List LifecycleRecord)
    → length rs ≤ f + 8
    → All (IsSound id) rs
    → IsFine id (trim f rs)
unfolding trim
trim-IsFine id zero rs l a = (a, inl (omega arith))
trim-IsFine id (suc f) rs l a = elim (Bool-cases (ltb 8 (length rs))) [
  | inl b ↦ rw b (
      trimmed-IsFine id f rs (drop_unnamed rs) a (drop_unnamed-Dropped id rs a)
        (λ rs' a' e. trim-IsFine id f rs' (omega (arith, e)) a'))
  | inr b ↦ rw b (a, inl (ground arith))
]
