-- ===== src/PolicySamples.antt =====
-- Runs of the policy's model at fixed inputs, with globs that match only themselves.
use swarm_device_access.Base.{
  ◌≡◌, ◌≢◌, refl, Bool, true, false, ◌||◌, [], ◌∷◌, Option, none, some, ok, err, Text, codes,
  text_eq, inr,
}
use mathlib.Core.List.{mem-cons_self}
use swarm_device_access.Lexpath.{
  clean, clean_from, element, after_element, backtrack, join, join_with_separator, base,
  drop_separators,
}
use swarm_device_access.Policy.Glob.{
  MatchOptions, negated_caret, class_body, translate, translate_from, contains_double_star, compile,
  matches, range_slash, out_of_fuel,
}
use swarm_device_access.Policy.Labels.{
  Global, Container, opt_in, Labels, label_enable, label_device_allow, label_device_deny, get,
  enabled, match_any, denied, authorized, device_allowed, explicitly_allowed, parse_mode,
  parse_bool, parse_glob_list, parse_container, validate_globs, new_global, split_and_trim, split,
  trim, trim_start, is_whitespace,
}
use swarm_device_access.Lexpath.Reference.{by_elements}
use swarm_device_access.Lexpath.Cleaned.{clean-by_elements}
use swarm_device_access.Policy.Total.{translate-ends}
use swarm_device_access.Policy.Unchanged.{translate-same}
use swarm_device_access.Policy.Narrow.{
  no_labels, device_allowed-deny, device_allowed-narrows, explicitly_allowed-matched,
}
use swarm_device_access.Policy.Valid.{
  IsValidList, new_global-valid, parse_container-valid, enabled-opt_in,
}

abbrev literal : Text → Option Text
literal pattern = some pattern

abbrev same_text : Text → Text → MatchOptions → Bool
same_text pattern name options = text_eq pattern name

abbrev tty_glob : Text
tty_glob = codes "/dev/tty[0-9]"

tty_glob-accepted : translate tty_glob ≡ ok tty_glob
unfolding translate translate_from class_body contains_double_star
tty_glob-accepted = refl

translate-same_example : tty_glob ≡ tty_glob
translate-same_example = translate-same tty_glob tty_glob tty_glob-accepted

negated-refused : translate (codes "/dev/[^a]") ≡ err negated_caret
unfolding translate translate_from class_body contains_double_star
negated-refused = refl

slash_range-refused : translate (codes "/dev/[*-9]") ≡ err range_slash
unfolding translate translate_from class_body contains_double_star
slash_range-refused = refl

clean_dots : clean (codes "/dev//./a/../b/") ≡ codes "/dev/b"
unfolding clean clean_from element after_element backtrack
clean_dots = refl

joined : join (codes "/dev" ∷ [] ∷ codes "../etc" ∷ []) ≡ codes "/etc"
unfolding join join_with_separator clean clean_from element after_element backtrack
joined = refl

last_name : base (codes "/dev/tty/") ≡ codes "tty"
unfolding base drop_separators element
last_name = refl

clean_up : clean (codes "../../a/../b") ≡ codes "../../b"
unfolding clean clean_from element after_element backtrack
clean_up = refl

abbrev null_path : Text
null_path = codes "/dev/null"

abbrev zero_path : Text
zero_path = codes "/dev/zero"

-- The daemon allows two devices.
abbrev two_devices : Global
two_devices = record {
  mode = opt_in;
  device_allow = some (null_path ∷ zero_path ∷ []);
  device_deny = none;
}

-- A container that narrows them to one, and denies the other.
abbrev only_null : Container
only_null = record {
  enable = some true;
  device_allow = some (null_path ∷ []);
  device_deny = some (zero_path ∷ []);
}

abbrev labels : Labels
labels =
    (label_enable, codes "true")
    ∷ (label_device_allow, codes " /dev/null ,")
    ∷ (label_device_deny, codes "/dev/zero")
    ∷ []

zero_path-matches : matches literal same_text zero_path zero_path ≡ true
unfolding matches compile translate translate_from class_body contains_double_star
zero_path-matches = refl

device_allowed-deny_example :
    device_allowed literal same_text two_devices only_null zero_path ≡ false
device_allowed-deny_example =
    device_allowed-deny literal same_text two_devices only_null zero_path zero_path
      (inr mem-cons_self) zero_path-matches

null_path-allowed : device_allowed literal same_text two_devices only_null null_path ≡ true
unfolding device_allowed denied authorized matches compile translate translate_from class_body
    contains_double_star
null_path-allowed = refl

device_allowed-narrows_example :
    device_allowed literal same_text two_devices no_labels null_path ≡ true
device_allowed-narrows_example =
    device_allowed-narrows literal same_text two_devices only_null null_path null_path-allowed

null_path-explicit : explicitly_allowed literal same_text two_devices only_null null_path ≡ true
unfolding explicitly_allowed device_allowed denied authorized matches compile translate
    translate_from class_body contains_double_star
null_path-explicit = refl

explicitly_allowed-matched_example :
    (device_allowed literal same_text two_devices only_null null_path ≡ true)
    × ((match_any literal same_text (some (null_path ∷ zero_path ∷ [])) null_path
          || match_any literal same_text (some (null_path ∷ [])) null_path)
        ≡ true)
explicitly_allowed-matched_example =
    explicitly_allowed-matched literal same_text two_devices only_null null_path null_path-explicit

two_devices-made :
    new_global literal same_text (codes "opt-in") (some (null_path ∷ zero_path ∷ [])) none
    ≡ ok two_devices
unfolding new_global parse_mode validate_globs compile translate translate_from class_body
    contains_double_star clean clean_from element after_element backtrack
two_devices-made = refl

new_global-valid_example :
    (two_devices.device_allow ≡ some (null_path ∷ zero_path ∷ []))
    × (two_devices.device_deny ≡ none)
    × IsValidList literal same_text (some (null_path ∷ zero_path ∷ []))
    × IsValidList literal same_text none
new_global-valid_example =
    new_global-valid literal same_text (codes "opt-in") (some (null_path ∷ zero_path ∷ [])) none
      two_devices two_devices-made

labels-parsed : parse_container literal same_text labels ≡ ok only_null
unfolding parse_container parse_glob_list get parse_bool split_and_trim split trim trim_start
    is_whitespace validate_globs compile translate translate_from class_body contains_double_star
    clean clean_from element after_element backtrack
labels-parsed = refl

parse_container-valid_example :
    IsValidList literal same_text (some (null_path ∷ []))
    × IsValidList literal same_text (some (zero_path ∷ []))
parse_container-valid_example =
    parse_container-valid literal same_text labels only_null labels-parsed

only_null-enabled : enabled two_devices only_null ≡ true
unfolding enabled
only_null-enabled = refl

enabled-opt_in_example : get labels label_enable ≡ some (codes "true")
enabled-opt_in_example =
    enabled-opt_in literal same_text two_devices labels only_null refl labels-parsed
      only_null-enabled

translate-ends_example : translate tty_glob ≢ err out_of_fuel
translate-ends_example = translate-ends tty_glob

clean-by_elements_example : clean (codes "/dev/../a//b") ≡ by_elements (codes "/dev/../a//b")
clean-by_elements_example = clean-by_elements (codes "/dev/../a//b")
