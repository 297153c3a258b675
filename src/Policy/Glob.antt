-- ===== src/Policy/Glob.antt =====
-- src/policy/glob.rs: the spellings of a glob that are accepted, and matching. The `glob` crate's
-- `Pattern::new` and `matches_with` are parameters.
use swarm_device_access.Base.{
  ℕ, zero, suc, Bool, true, false, not, ◌&&◌, ◌||◌, [], ◌∷◌, ◌++◌, length, leb, ◌==◌, if◌then◌else◌,
  Text, contains_char, Option, none, some, Result, ok, err, ◌>>=◌, ◌>>◌, guard,
}

-- The reasons of a `BadPattern`; `out_of_fuel` belongs to the model only.
pub data BadPattern : Type 0 where
  backslash double_star negated_bang negated_caret missing_bracket empty_class : BadPattern
  class_slash dash_outside range_slash malformed out_of_fuel : BadPattern

-- `contains("**")`.
unfoldable pub contains_double_star : Text → Bool
contains_double_star [] = false
contains_double_star (a ∷ []) = false
contains_double_star (a ∷ b ∷ text) = (a == b'*' && b == b'*') || contains_double_star (b ∷ text)

-- The tests on the first character of a class item; `next` is what follows them.
abbrev pub class_low :
    Bool → ℕ → Text → Text → Result BadPattern (Text × Text) → Result BadPattern (Text × Text)
class_low items low rest out next =
    if low == b']' && items
    then ok (rest, out ++ low ∷ [])
    else if low == b']' || low == b'-'
    then err empty_class
    else if low == b'/'
    then err class_slash
    else next

-- The tests on the end of a range.
abbrev pub class_high : ℕ → ℕ → Result BadPattern (Text × Text) → Result BadPattern (Text × Text)
class_high low high next =
    if high == b']' || high == b'-'
    then err dash_outside
    else if leb low b'/' && leb b'/' high
    then err range_slash
    else next

-- `class_body`: what is left of the pattern after the class, and the output. The count of the
-- items is only compared with 0.
unfoldable pub class_body : Bool → Text → Text → Result BadPattern (Text × Text)
class_body items [] out = err missing_bracket
class_body items (low ∷ []) out = class_low items low [] out (class_body true [] (out ++ low ∷ []))
class_body items (low ∷ dash ∷ []) out =
    let rest = class_body true (dash ∷ []) (out ++ low ∷ []) in
    class_low items low (dash ∷ []) out (if dash == b'-' then err missing_bracket else rest)
class_body items (low ∷ dash ∷ high ∷ text) out =
    let range = class_body true text (out ++ low ∷ dash ∷ high ∷ []) in
    let rest = class_body true (dash ∷ high ∷ text) (out ++ low ∷ []) in
    class_low items low (dash ∷ high ∷ text) out
      (if dash == b'-' then class_high low high range else rest)

-- What may not follow a `[`.
abbrev pub class_start : Text → Result BadPattern (Unit {0})
class_start [] = ok tt
class_start (c ∷ text) =
    if c == b'!' then err negated_bang else if c == b'^' then err negated_caret else ok tt

-- The loop of `translate`, on fuel.
unfoldable pub translate_from : ℕ → Text → Text → Result BadPattern Text
translate_from f [] out = ok out
translate_from zero (c ∷ text) out = err out_of_fuel
translate_from (suc f) (c ∷ text) out =
    let rest = translate_from f text (out ++ c ∷ []) in
    let class =
      class_start text
      >> (class_body false text (out ++ c ∷ []) >>= λ r. translate_from f r.0 r.1) in
    if c == b'[' then class else rest

-- `translate`: the characters are fuel enough.
unfoldable pub translate : Text → Result BadPattern Text
unfolding translate_from
translate pattern = do
  guard (not (contains_char pattern b'\\')) backslash
  guard (not (contains_double_star pattern)) double_star
  translate_from (length pattern) pattern []

-- `MatchOptions` of the `glob` crate.
pub record MatchOptions : Type 0 where
  pub case_sensitive : Bool
  pub require_literal_separator : Bool
  pub require_literal_leading_dot : Bool

abbrev pub options : MatchOptions
options = record {
  case_sensitive = true;
  require_literal_separator = true;
  require_literal_leading_dot = false;
}

abbrev pub is_match {ℓ} : {P : Type ℓ} → (P → Bool) → Result BadPattern P → Bool
is_match test (ok p) = test p
is_match test (err e) = false

abbrev pub or_malformed {ℓ} : {P : Type ℓ} → Option P → Result BadPattern P
or_malformed none = err malformed
or_malformed (some p) = ok p

module _ {Pattern : Type 0} (new_pattern : Text → Option Pattern)
    (matches_with : Pattern → Text → MatchOptions → Bool) where
  unfoldable pub compile : Text → Result BadPattern Pattern
  unfolding translate
  compile pattern = translate pattern >>= λ translated. or_malformed (new_pattern translated)

  unfoldable pub matches : Text → Text → Bool
  unfolding compile
  matches pattern name = is_match (λ compiled. matches_with compiled name options) (compile pattern)
