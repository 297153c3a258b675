-- ===== src/Policy/Narrow.antt =====
-- src/policy/mod.rs: deny wins, labels only narrow, and what is explicitly allowed is matched.
use swarm_device_access.Base.{
  ◌≡◌, refl, subst, Bool, true, false, not, ◌&&◌, ◌||◌, List, [], ◌∷◌, any, if◌then◌else◌, arith,
  Text, Option, none, inl, inr, and-cases, ◌⊎◌,
}
use mathlib.Core.Logic.Or
use mathlib.Core.List.{Mem, not-mem-nil, eq-or-mem_of_mem-cons}
use swarm_device_access.Policy.Glob.{MatchOptions, matches}
use swarm_device_access.Policy.Labels.{
  Global, Container, patterns_of, is_empty, match_any, denied, authorized, device_allowed,
  explicitly_allowed,
}

-- A container without policy labels.
abbrev pub no_labels : Container
no_labels = record { enable = none; device_allow = none; device_deny = none }

any-Mem :
    {A : Type 0} (test : A → Bool) (a : A) (items : List A)
    → Mem a items
    → test a ≡ true
    → any test items ≡ true
any-Mem test a [] m h = absurd (not-mem-nil m)
any-Mem test a (b ∷ items) m h =
    Or.elim (hlevel) (eq-or-mem_of_mem-cons m)
      (λ e. let t : test b ≡ true = subst (λ x. test x ≡ true) e h in rw t refl)
      (λ n. let t = any-Mem test a items n h in ground arith)

allow_matched :
    (global_empty global_match container_empty container_match : Bool)
    → (not global_empty || not container_empty) ≡ true
    → (if not global_empty && not global_match then false else container_empty || container_match)
      ≡ true
    → (global_match || container_match) ≡ true
allow_matched ge gm ce cm e h = ground arith

module _ {Pattern : Type 0} (new_pattern : Text → Option Pattern)
    (matches_with : Pattern → Text → MatchOptions → Bool) (global : Global) (container : Container)
    (path : Text) where
  -- A device that a deny glob of the daemon or of the container matches is not allowed, whatever
  -- the allow globs say.
  pub device_allowed-deny :
      (pattern : Text)
      → Mem pattern (patterns_of global.device_deny)
        ⊎ Mem pattern (patterns_of container.device_deny)
      → matches new_pattern matches_with pattern path ≡ true
      → device_allowed new_pattern matches_with global container path ≡ false
  unfolding device_allowed denied
  device_allowed-deny pattern m h =
      let test : Text → Bool = λ p. matches new_pattern matches_with p path in
      elim m [
        | inl g ↦ let d = any-Mem test pattern (patterns_of global.device_deny) g h in rw d refl
        | inr c ↦
            let d = any-Mem test pattern (patterns_of container.device_deny) c h in ground arith
      ]

  -- What a container may use it may use with no labels: labels only narrow.
  pub device_allowed-narrows :
      device_allowed new_pattern matches_with global container path ≡ true
      → device_allowed new_pattern matches_with global no_labels path ≡ true
  unfolding device_allowed denied authorized
  device_allowed-narrows h = ground arith

  -- A device that is explicitly allowed is allowed, and an allow glob of the daemon or of the
  -- container matches it.
  pub explicitly_allowed-matched :
      explicitly_allowed new_pattern matches_with global container path ≡ true
      → (device_allowed new_pattern matches_with global container path ≡ true)
        × ((match_any new_pattern matches_with global.device_allow path
              || match_any new_pattern matches_with container.device_allow path)
            ≡ true)
  unfolding explicitly_allowed device_allowed authorized
  explicitly_allowed-matched h =
      let (e, a) = and-cases _ (device_allowed new_pattern matches_with global container path) h in
      let (_, z) = and-cases (not (denied new_pattern matches_with global container path)) _ a in
      (a, allow_matched (is_empty global.device_allow) _ (is_empty container.device_allow) _ e z)
