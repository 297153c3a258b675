-- ===== src/Policy/Labels.antt =====
-- src/policy/mod.rs: the modes, the globs and the labels of the policy, and its decisions. The
-- `glob` crate's functions are parameters, as in Policy.Glob; a label map is an association list.
use swarm_device_access.Base.{
  ℕ, Bool, true, false, not, ◌&&◌, ◌||◌, List, [], ◌∷◌, any, keep, leb, ◌==◌, if◌then◌else◌, Text,
  codes, text_eq, starts_with, Option, none, some, Result, ok, err, ◌>>=◌, ◌>>◌, guard, map_err,
  map, reverse,
}
use swarm_device_access.Lexpath.{clean}
use swarm_device_access.Policy.Glob.{BadPattern, MatchOptions, compile, matches}

abbrev pub label_prefix : Text
label_prefix = codes "swarm-device-access."

abbrev pub label_enable : Text
label_enable = codes "swarm-device-access.enable"

abbrev pub label_device_allow : Text
label_device_allow = codes "swarm-device-access.device-allow"

abbrev pub label_device_deny : Text
label_device_deny = codes "swarm-device-access.device-deny"

abbrev pub dev_prefix : Text
dev_prefix = codes "/dev/"

pub data Mode : Type 0 where
  opt_in all_containers : Mode

pub data GlobError : Type 0 where
  bad_pattern : Text → BadPattern → GlobError
  not_clean outside_dev : Text → GlobError

pub data PolicyError : Type 0 where
  unknown_mode : Text → PolicyError
  device_allow_error device_deny_error : GlobError → PolicyError
  not_a_boolean : Text → Text → PolicyError
  label_glob : Text → GlobError → PolicyError

unfoldable pub parse_mode : Text → Result PolicyError Mode
parse_mode mode =
    if text_eq mode (codes "opt-in")
    then ok opt_in
    else if text_eq mode (codes "all")
    then ok all_containers
    else err (unknown_mode mode)

unfoldable pub parse_bool : Text → Option Bool
parse_bool value =
    if text_eq value (codes "true")
    then some true
    else if text_eq value (codes "false")
    then some false
    else none

pub record Global : Type 0 where
  pub mode : Mode
  pub device_allow : Option (List Text)
  pub device_deny : Option (List Text)

pub record Container : Type 0 where
  pub enable : Option Bool
  pub device_allow : Option (List Text)
  pub device_deny : Option (List Text)

-- `unwrap_or_default`.
abbrev pub patterns_of : Option (List Text) → List Text
patterns_of none = []
patterns_of (some patterns) = patterns

abbrev pub is_empty : Option (List Text) → Bool
is_empty none = true
is_empty (some []) = true
is_empty (some (p ∷ ps)) = false

abbrev pub is_false : Option Bool → Bool
is_false (some false) = true
is_false (some true) = false
is_false none = false

abbrev pub is_true : Option Bool → Bool
is_true (some b) = b
is_true none = false

abbrev pub enabled_in : Mode → Option Bool → Bool
enabled_in opt_in enable = is_true enable
enabled_in all_containers enable = true

-- `Global::enabled`.
unfoldable pub enabled : Global → Container → Bool
enabled global container =
    if is_false container.enable then false else enabled_in global.mode container.enable

-- The white space that `trim` drops.
unfoldable pub is_whitespace : ℕ → Bool
is_whitespace c =
    (leb 9 c && leb c 13)
    || c == 32
    || c == 0x85
    || c == 0xa0
    || c == 0x1680
    || (leb 0x2000 c && leb c 0x200a)
    || c == 0x2028
    || c == 0x2029
    || c == 0x202f
    || c == 0x205f
    || c == 0x3000

unfoldable pub trim_start : Text → Text
unfolding is_whitespace
trim_start [] = []
trim_start (c ∷ text) = let tail = trim_start text in if is_whitespace c then tail else c ∷ text

unfoldable pub trim : Text → Text
trim text = reverse (trim_start (reverse (trim_start text)))

abbrev pub push_front : ℕ → List Text → List Text
push_front c [] = (c ∷ []) ∷ []
push_front c (part ∷ parts) = (c ∷ part) ∷ parts

-- `split(',')`.
unfoldable pub split : Text → List Text
split [] = [] ∷ []
split (c ∷ text) = let parts = split text in if c == b',' then [] ∷ parts else push_front c parts

abbrev pub is_some_text : Text → Bool
is_some_text [] = false
is_some_text (c ∷ text) = true

unfoldable pub split_and_trim : Text → List Text
unfolding split trim
split_and_trim raw = keep is_some_text (map trim (split raw))

abbrev pub Labels : Type 0
Labels = List (Text × Text)

unfoldable pub get : Labels → Text → Option Text
get [] key = none
get ((k, value) ∷ labels) key = if text_eq k key then some value else get labels key

-- `map_or("", String::as_str)`.
abbrev pub or_empty : Option Text → Text
or_empty none = []
or_empty (some value) = value

-- The `enable` label, if there is one.
abbrev pub parse_enable : Option Text → Result PolicyError (Option Bool)
parse_enable none = ok none
parse_enable (some value) = elim (parse_bool value) [
  | none ↦ err (not_a_boolean label_enable value)
  | some b ↦ ok (some b)
]

module _ {Pattern : Type 0} (new_pattern : Text → Option Pattern)
    (matches_with : Pattern → Text → MatchOptions → Bool) where
  unfoldable pub validate_globs : List Text → Result GlobError (Unit {0})
  validate_globs [] = ok tt
  validate_globs (pattern ∷ patterns) = do
    map_err (bad_pattern pattern) (compile new_pattern matches_with pattern >>= λ _. ok tt)
    guard (text_eq (clean pattern) pattern) (not_clean pattern)
    guard (starts_with pattern dev_prefix) (outside_dev pattern)
    validate_globs patterns

  -- `Global::new`.
  unfoldable pub new_global :
      Text → Option (List Text) → Option (List Text) → Result PolicyError Global
  unfolding validate_globs
  new_global mode allow deny = do
    m ← parse_mode mode
    map_err device_allow_error (validate_globs (patterns_of allow))
    map_err device_deny_error (validate_globs (patterns_of deny))
    ok (record { mode = m; device_allow = allow; device_deny = deny })

  abbrev pub glob_list : Text → Text → Result PolicyError (Option (List Text))
  glob_list label [] = ok none
  glob_list label (c ∷ raw) = do
    map_err (label_glob label) (validate_globs (split_and_trim (c ∷ raw)))
    ok (some (split_and_trim (c ∷ raw)))

  unfoldable pub parse_glob_list : Labels → Text → Result PolicyError (Option (List Text))
  parse_glob_list labels label = glob_list label (or_empty (get labels label))

  -- `Container::parse`.
  unfoldable pub parse_container : Labels → Result PolicyError Container
  unfolding parse_glob_list get
  parse_container labels = do
    enable ← parse_enable (get labels label_enable)
    allow ← parse_glob_list labels label_device_allow
    deny ← parse_glob_list labels label_device_deny
    ok (record { enable = enable; device_allow = allow; device_deny = deny })

  abbrev pub match_any : Option (List Text) → Text → Bool
  match_any patterns path =
      any (λ pattern. matches new_pattern matches_with pattern path) (patterns_of patterns)

  unfoldable pub denied : Global → Container → Text → Bool
  denied global container path =
      match_any global.device_deny path || match_any container.device_deny path

  unfoldable pub authorized : Global → Container → Text → Bool
  authorized global container path =
      if not (is_empty global.device_allow) && not (match_any global.device_allow path)
      then false
      else is_empty container.device_allow || match_any container.device_allow path

  unfoldable pub device_allowed : Global → Container → Text → Bool
  unfolding denied authorized
  device_allowed global container path =
      not (denied global container path) && authorized global container path

  unfoldable pub explicitly_allowed : Global → Container → Text → Bool
  unfolding device_allowed
  explicitly_allowed global container path =
      (not (is_empty global.device_allow) || not (is_empty container.device_allow))
      && device_allowed global container path
