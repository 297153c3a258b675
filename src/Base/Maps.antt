-- ===== src/Base/Maps.antt =====
-- Maps as association lists. A hash map keeps the order of insertion, which nothing depends on; a
-- B-tree map keeps the order of its keys, so `insert` takes the test that puts a key before
-- another.
use mathlib.Core.Path.{◌≡◌, refl, subst}
use mathlib.Core.Logic.{inl, inr}
use mathlib.Core.Bool.{Bool, true, false}
use mathlib.Core.Option.{Option, none, some}
use mathlib.Core.List.{List, [], ◌∷◌}
use native.Mathlib.Omega.{arith}
use swarm_device_access.Base.Tests.{if◌then◌else◌, Bool-cases, ◌==◌, ltb}
use swarm_device_access.Base.Texts.{Text, text_eq, text_eq→eq, text_eq_self}

-- A Boolean equality.
pub record Eq (A : Type 0) : Type 0 where
  pub same : A → A → Bool
  pub same_self : (a : A) → same a a ≡ true
  pub same_sound : (a b : A) → same a b ≡ true → a ≡ b

instance abbrev pub text_equality : Eq Text
text_equality = record { same = text_eq; same_self = text_eq_self; same_sound = text_eq→eq }

-- The order of strings.
abbrev pub text_before : Text → Text → Bool
text_before [] [] = false
text_before [] (b ∷ t) = true
text_before (a ∷ s) [] = false
text_before (a ∷ s) (b ∷ t) = if a == b then text_before s t else ltb a b

abbrev pub Dict : Type 0 → Type 0 → Type 0
Dict K V = List (K × V)

module _ {K : Type 0} ⦃e : Eq K⦄ where
  moved_ne : (j k i : K) → e.same k i ≡ true → e.same j k ≡ false → e.same j i ≡ false
  moved_ne j k i h n = subst (λ x. e.same j x ≡ false) (e.same_sound k i h) n

module _ {K V : Type 0} ⦃e : Eq K⦄ where
  unfoldable pub find : K → Dict K V → Option V
  find k [] = none
  find k ((j, v) ∷ d) = if e.same k j then some v else find k d

  unfoldable pub insert : (K → K → Bool) → K → V → Dict K V → Dict K V
  insert before k v [] = (k, v) ∷ []
  insert before k v ((j, w) ∷ d) =
      let rest = insert before k v d in
      if e.same k j then (k, v) ∷ d else if before k j then (k, v) ∷ (j, w) ∷ d else (j, w) ∷ rest

  unfoldable pub erase : K → Dict K V → Dict K V
  erase k [] = []
  erase k ((j, v) ∷ d) = let rest = erase k d in if e.same k j then rest else (j, v) ∷ rest

  pub find-insert_self :
      (before : K → K → Bool) (k : K) (v : V) (d : Dict K V) → find k (insert before k v d) ≡ some v
  unfolding find insert
  find-insert_self before k v [] = rw (e.same_self k) refl
  find-insert_self before k v ((j, w) ∷ d) =
      ground (arith, find-insert_self before k v d, e.same_self k)

  pub find-insert_ne :
      (before : K → K → Bool) (j k : K) (v : V) (d : Dict K V)
      → e.same j k ≡ false
      → find j (insert before k v d) ≡ find j d
  unfolding find insert
  find-insert_ne before j k v [] n = rw n refl
  find-insert_ne before j k v ((i, w) ∷ d) n =
      let step : find j (insert before k v d) ≡ find j d = find-insert_ne before j k v d n in
      elim (Bool-cases (e.same k i)) [
        | inl h ↦ rw (h, n, moved_ne j k i h n) refl
        | inr h ↦ elim (Bool-cases (before k i)) [
          | inl b ↦ rw (h, b, n) refl
          | inr b ↦ rw (h, b, step) refl
        ]
      ]

  pub find-erase_self : (k : K) (d : Dict K V) → find k (erase k d) ≡ none
  unfolding find erase
  find-erase_self k [] = refl
  find-erase_self k ((j, w) ∷ d) = ground (arith, find-erase_self k d)

  pub find-erase_ne : (j k : K) (d : Dict K V) → e.same j k ≡ false → find j (erase k d) ≡ find j d
  unfolding find erase
  find-erase_ne j k [] n = refl
  find-erase_ne j k ((i, w) ∷ d) n =
      let step : find j (erase k d) ≡ find j d = find-erase_ne j k d n in
      elim (Bool-cases (e.same k i)) [
        | inl h ↦ rw (h, moved_ne j k i h n, step) refl
        | inr h ↦ rw (h, step) refl
      ]
