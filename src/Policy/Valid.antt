-- ===== src/Policy/Valid.antt =====
-- src/policy/mod.rs: what the policy keeps of its settings and labels has been validated.
use swarm_device_access.Base.{
  ◌≡◌, refl, sym, ◌∙◌, ap, subst, Bool, true, false, List, [], ◌∷◌, All, if◌then◌else◌, Text, codes,
  text_eq, text_eq→eq, starts_with, Option, none, some, Result, ok, err, ◌>>=◌, >>=-inv, guard,
  guard-passed, map_err, map_err-eq-ok, ok-injective,
}
use swarm_device_access.Lexpath.{clean}
use swarm_device_access.Policy.Glob.{MatchOptions, compile}
use swarm_device_access.Policy.Labels.{
  dev_prefix, label_enable, label_device_allow, label_device_deny, Mode, PolicyError, not_a_boolean,
  opt_in, all_containers, bad_pattern, not_clean, outside_dev, Global, Container, patterns_of,
  is_false, enabled, enabled_in, parse_mode, parse_bool, parse_enable, Labels, get, validate_globs,
  device_allow_error, device_deny_error, label_glob, new_global, glob_list, parse_glob_list,
  parse_container, split_and_trim,
}

processed :
    (mode : Mode) (enable : Option Bool)
    → mode ≡ opt_in
    → (if is_false enable then false else enabled_in mode enable) ≡ true
    → enable ≡ some true
processed opt_in (some true) m h = refl
processed opt_in (some false) m h = cc
processed opt_in none m h = cc
processed all_containers enable m h = cc

first_branch :
    (t f : Bool) → (if t then some true else if f then some false else none) ≡ some true → t ≡ true
first_branch true f h = refl
first_branch false true h = cc
first_branch false false h = cc

parse_bool-true : (value : Text) → parse_bool value ≡ some true → value ≡ codes "true"
unfolding parse_bool
parse_bool-true value h =
    text_eq→eq value (codes "true") (first_branch (text_eq value (codes "true")) _ h)

boolean_read :
    (o : Option Bool) (value : Text)
    → ◌≡◌ {A = Result PolicyError (Option Bool)}
        (elim o [ none ↦ err (not_a_boolean label_enable value) | some b ↦ ok (some b) ])
        (ok (some true))
    → o ≡ some true
boolean_read none value h = cc
boolean_read (some b) value h = cc

enable_true : (o : Option Text) → parse_enable o ≡ ok (some true) → o ≡ some (codes "true")
enable_true none h = cc
enable_true (some value) h =
    ap some (parse_bool-true value (boolean_read (parse_bool value) value h))

module _ {Pattern : Type 0} (new_pattern : Text → Option Pattern)
    (matches_with : Pattern → Text → MatchOptions → Bool) where
  -- A glob that compiles, is clean and stands under /dev/.
  pub record IsValidGlob (pattern : Text) : Type 0 where
    pub compiled : Pattern
    pub compiles : compile new_pattern matches_with pattern ≡ ok compiled
    pub is_clean : clean pattern ≡ pattern
    pub under_dev : starts_with pattern dev_prefix ≡ true

  validate_globs-valid :
      (patterns : List Text)
      → validate_globs new_pattern matches_with patterns ≡ ok tt
      → All IsValidGlob patterns
  unfolding validate_globs
  validate_globs-valid [] h = tt
  validate_globs-valid (p ∷ ps) h₀ =
      >>=-inv (map_err (bad_pattern p) (compile new_pattern matches_with p >>= λ _. ok tt)) _ h₀
        λ _ c h₁. >>=-inv (guard (text_eq (clean p) p) (not_clean p)) _ h₁ λ _ l h₂.
          >>=-inv (guard (starts_with p dev_prefix) (outside_dev p)) _ h₂ λ _ d h₃.
            >>=-inv (compile new_pattern matches_with p) _ (map_err-eq-ok _ _ c) λ q e _. (
              record {
                compiled = q;
                compiles = e;
                is_clean = text_eq→eq (clean p) p (guard-passed _ _ l);
                under_dev = guard-passed _ _ d;
              },
              validate_globs-valid ps h₃,
            )

  -- Globs that were handed over are as they were, and valid.
  abbrev pub IsValidList : Option (List Text) → Type 0
  IsValidList patterns = All IsValidGlob (patterns_of patterns)

  -- A global policy that is made keeps the globs it was given, and each of them compiles, is clean
  -- and stands under /dev/.
  pub new_global-valid :
      (mode : Text) (allow deny : Option (List Text)) (global : Global)
      → new_global new_pattern matches_with mode allow deny ≡ ok global
      → (global.device_allow ≡ allow)
        × (global.device_deny ≡ deny)
        × IsValidList allow
        × IsValidList deny
  unfolding new_global
  new_global-valid mode allow deny global h₀ = >>=-inv (parse_mode mode) _ h₀ λ m _ h₁.
      >>=-inv
        (map_err device_allow_error (validate_globs new_pattern matches_with (patterns_of allow))) _
        h₁
        λ _ a h₂.
          >>=-inv
            (map_err device_deny_error (validate_globs new_pattern matches_with (patterns_of deny)))
            _ h₂
            λ _ d h₃.
              let same = ok-injective (sym h₃) in
              (
                ap (λ g. g.device_allow) same,
                ap (λ g. g.device_deny) same,
                validate_globs-valid (patterns_of allow) (map_err-eq-ok _ _ a),
                validate_globs-valid (patterns_of deny) (map_err-eq-ok _ _ d),
              )

  glob_list-valid :
      (label raw : Text) (patterns : Option (List Text))
      → glob_list new_pattern matches_with label raw ≡ ok patterns
      → IsValidList patterns
  glob_list-valid label [] patterns h = subst IsValidList (ok-injective h) tt
  glob_list-valid label (c ∷ raw) patterns h =
      >>=-inv
        (map_err (label_glob label)
          (validate_globs new_pattern matches_with (split_and_trim (c ∷ raw))))
        _ h
        λ _ v e.
          subst IsValidList (ok-injective e)
            (validate_globs-valid (split_and_trim (c ∷ raw)) (map_err-eq-ok _ _ v))

  -- The labels of a container that are accepted: every glob of both lists compiles, is clean and
  -- stands under /dev/.
  pub parse_container-valid :
      (labels : Labels) (container : Container)
      → parse_container new_pattern matches_with labels ≡ ok container
      → IsValidList container.device_allow × IsValidList container.device_deny
  unfolding parse_container parse_glob_list
  parse_container-valid labels container h₀ =
      >>=-inv (parse_enable (get labels label_enable)) _ h₀ λ _ _ h₁.
        >>=-inv (parse_glob_list new_pattern matches_with labels label_device_allow) _ h₁
          λ allow a h₂.
            >>=-inv (parse_glob_list new_pattern matches_with labels label_device_deny) _ h₂
              λ deny d h₃.
                let same = ok-injective h₃ in
                (
                  subst (λ c. IsValidList c.device_allow) same
                      (glob_list-valid label_device_allow _ allow a),
                  subst (λ c. IsValidList c.device_deny) same
                      (glob_list-valid label_device_deny _ deny d),
                )

  -- In the opt-in mode, a container whose labels are accepted is processed only if its label
  -- `enable` is `true`.
  pub enabled-opt_in :
      (global : Global) (labels : Labels) (container : Container)
      → global.mode ≡ opt_in
      → parse_container new_pattern matches_with labels ≡ ok container
      → enabled global container ≡ true
      → get labels label_enable ≡ some (codes "true")
  unfolding enabled parse_container
  enabled-opt_in global labels container m h₀ e =
      >>=-inv (parse_enable (get labels label_enable)) _ h₀ λ enable p h₁.
        >>=-inv (parse_glob_list new_pattern matches_with labels label_device_allow) _ h₁
          λ allow _ h₂.
            >>=-inv (parse_glob_list new_pattern matches_with labels label_device_deny) _ h₂
              λ deny _ h₃.
                let same : container.enable ≡ enable = ap (λ c. c.enable) (ok-injective (sym h₃)) in
                let on : container.enable ≡ some true =
                  processed global.mode container.enable m e in
                enable_true (get labels label_enable) (p ∙ ap ok (sym same ∙ on))
