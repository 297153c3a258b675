-- ===== src/Policy/Total.antt =====
-- src/policy/glob.rs: the loop over a pattern ends.
use swarm_device_access.Base.{
  ℕ, zero, suc, ◌≤◌, ◌≢◌, Bool, true, false, not, ◌&&◌, ◌||◌, [], ◌∷◌, ◌++◌, length, leb, ◌==◌,
  if◌then◌else◌, arith, Text, contains_char, Result, ok, err, ◌>>=◌, ◌>>◌, guard,
}
use swarm_device_access.Policy.Glob.{
  BadPattern, out_of_fuel, backslash, double_star, negated_bang, negated_caret,
  contains_double_star, class_low, class_high, class_body, class_start, translate_from, translate,
}

-- An error of the source's, or at most `n` characters left.
abbrev Leaves : ℕ → Result BadPattern (Text × Text) → Type 0
Leaves n (ok (rest, out)) = length rest ≤ n
Leaves n (err e) = e ≢ out_of_fuel

abbrev IsFuelled : Result BadPattern Text → Type 0
IsFuelled (ok a) = Unit
IsFuelled (err e) = e ≢ out_of_fuel

if-Leaves :
    (n : ℕ) (b : Bool) (x y : Result BadPattern (Text × Text))
    → Leaves n x
    → Leaves n y
    → Leaves n (if b then x else y)
if-Leaves n true x y h k = h
if-Leaves n false x y h k = k

class_low-Leaves :
    (n : ℕ) (items : Bool) (low : ℕ) (rest out : Text) (next : Result BadPattern (Text × Text))
    → length rest ≤ n
    → Leaves n next
    → Leaves n (class_low items low rest out next)
class_low-Leaves n items low rest out next l k = if-Leaves n (low == b']' && items) _ _ l (
    if-Leaves n (low == b']' || low == b'-') _ _ (λ e. cc)
      (if-Leaves n (low == b'/') _ _ (λ e. cc) k))

class_high-Leaves :
    (n low high : ℕ) (next : Result BadPattern (Text × Text))
    → Leaves n next
    → Leaves n (class_high low high next)
class_high-Leaves n low high next k =
    if-Leaves n (high == b']' || high == b'-') _ _ (λ e. cc)
      (if-Leaves n (leb low b'/' && leb b'/' high) _ _ (λ e. cc) k)

class_body-Leaves :
    (n : ℕ) (items : Bool) (text out : Text)
    → length text ≤ n
    → Leaves n (class_body items text out)
unfolding class_body
class_body-Leaves n items [] out l = λ e. cc
class_body-Leaves n items (low ∷ []) out l =
    class_low-Leaves n items low [] out _ (omega arith)
      (class_body-Leaves n true [] (out ++ low ∷ []) (omega arith))
class_body-Leaves n items (low ∷ dash ∷ []) out l =
    class_low-Leaves n items low (dash ∷ []) out _ (omega arith) (
      if-Leaves n (dash == b'-') _ _ (λ e. cc)
        (class_body-Leaves n true (dash ∷ []) (out ++ low ∷ []) (omega arith)))
class_body-Leaves n items (low ∷ dash ∷ high ∷ text) out l =
    class_low-Leaves n items low (dash ∷ high ∷ text) out _ (omega arith) (
      if-Leaves n (dash == b'-') _ _
        (class_high-Leaves n low high _
          (class_body-Leaves n true text (out ++ low ∷ dash ∷ high ∷ []) (omega arith)))
        (class_body-Leaves n true (dash ∷ high ∷ text) (out ++ low ∷ []) (omega arith)))

if-IsFuelled :
    (b : Bool) (x y : Result BadPattern Text)
    → IsFuelled x
    → IsFuelled y
    → IsFuelled (if b then x else y)
if-IsFuelled true x y h k = h
if-IsFuelled false x y h k = k

if-IsFuelled-start :
    (b c : Bool) (next : Result BadPattern Text)
    → IsFuelled next
    → IsFuelled ((if b then err negated_bang else if c then err negated_caret else ok tt) >> next)
if-IsFuelled-start true c next h = λ e. cc
if-IsFuelled-start false true next h = λ e. cc
if-IsFuelled-start false false next h = h

started-IsFuelled :
    (text : Text) (next : Result BadPattern Text)
    → IsFuelled next
    → IsFuelled (class_start text >> next)
started-IsFuelled [] next h = h
started-IsFuelled (c ∷ text) next h = if-IsFuelled-start (c == b'!') (c == b'^') next h

bound-IsFuelled :
    (n : ℕ) (r : Result BadPattern (Text × Text)) (next : Text × Text → Result BadPattern Text)
    → Leaves n r
    → ((s : Text × Text) → length s.0 ≤ n → IsFuelled (next s))
    → IsFuelled (r >>= next)
bound-IsFuelled n (ok s) next l k = k s l
bound-IsFuelled n (err e) next l k = l

translate_from-IsFuelled :
    (f : ℕ) (text out : Text) → length text ≤ f → IsFuelled (translate_from f text out)
unfolding translate_from
translate_from-IsFuelled f [] out l = tt
translate_from-IsFuelled zero (c ∷ text) out l = absurd (omega arith)
translate_from-IsFuelled (suc f) (c ∷ text) out l =
    if-IsFuelled (c == b'[') _ _
      (started-IsFuelled text _ (
        bound-IsFuelled f (class_body false text (out ++ c ∷ [])) _
          (class_body-Leaves f false text (out ++ c ∷ []) (omega arith))
          (λ s k. translate_from-IsFuelled f s.0 s.1 k)))
      (translate_from-IsFuelled f text (out ++ c ∷ []) (omega arith))

guarded-IsFuelled :
    (b : Bool) (e : BadPattern) (next : Result BadPattern Text)
    → e ≢ out_of_fuel
    → IsFuelled next
    → IsFuelled (guard b e >> next)
guarded-IsFuelled true e next n k = k
guarded-IsFuelled false e next n k = n

fuelled-ne : (r : Result BadPattern Text) → IsFuelled r → r ≢ err out_of_fuel
fuelled-ne (ok a) h e = cc
fuelled-ne (err c) h e = h cc

-- The loop over a pattern ends before its fuel does, whatever the pattern.
pub translate-ends : (pattern : Text) → translate pattern ≢ err out_of_fuel
unfolding translate
translate-ends pattern = fuelled-ne _ (
    guarded-IsFuelled (not (contains_char pattern b'\\')) backslash _ (λ e. cc)
      (guarded-IsFuelled (not (contains_double_star pattern)) double_star _ (λ e. cc)
        (translate_from-IsFuelled (length pattern) pattern [] (omega arith))))
