-- ===== src/Policy/Unchanged.antt =====
-- src/policy/glob.rs: an accepted pattern is handed on unchanged.
use swarm_device_access.Base.{
  ℕ, zero, suc, ◌≡◌, sym, ◌∙◌, subst, Bool, true, false, not, ◌&&◌, ◌||◌, [], ◌∷◌, ◌++◌, length,
  leb, ◌==◌, if◌then◌else◌, Text, contains_char, Result, ok, err, >>=-inv, guard, ok-injective,
  Bool-cases, inl, inr,
}
use mathlib.Core.List.{append_assoc, append-nil}
use swarm_device_access.Policy.Glob.{
  BadPattern, backslash, double_star, contains_double_star, class_low, class_high, class_body,
  class_start, translate_from, translate,
}

-- What a class leaves of a text: the output and the rest, put together, are what they were.
abbrev Keeps : Text → Result BadPattern (Text × Text) → Type 0
Keeps whole (ok (rest, out)) = out ++ rest ≡ whole
Keeps whole (err e) = Unit

if-Keeps :
    (whole : Text) (b : Bool) (x y : Result BadPattern (Text × Text))
    → Keeps whole x
    → Keeps whole y
    → Keeps whole (if b then x else y)
if-Keeps whole true x y h k = h
if-Keeps whole false x y h k = k

class_low-Keeps :
    (items : Bool) (low : ℕ) (rest out : Text) (next : Result BadPattern (Text × Text))
    → Keeps (out ++ low ∷ rest) next
    → Keeps (out ++ low ∷ rest) (class_low items low rest out next)
class_low-Keeps items low rest out next k =
    if-Keeps _ (low == b']' && items) _ _ (append_assoc out (low ∷ []) rest)
      (if-Keeps _ (low == b']' || low == b'-') _ _ tt (if-Keeps _ (low == b'/') _ _ tt k))

class_high-Keeps :
    (whole : Text) (low high : ℕ) (next : Result BadPattern (Text × Text))
    → Keeps whole next
    → Keeps whole (class_high low high next)
class_high-Keeps whole low high next k =
    if-Keeps whole (high == b']' || high == b'-') _ _ tt
      (if-Keeps whole (leb low b'/' && leb b'/' high) _ _ tt k)

regroup :
    (front middle back : Text) (r : Result BadPattern (Text × Text))
    → Keeps ((front ++ middle) ++ back) r
    → Keeps (front ++ (middle ++ back)) r
regroup front middle back r = subst (λ w. Keeps w r) (append_assoc front middle back)

class_body-Keeps :
    (items : Bool) (text out : Text) → Keeps (out ++ text) (class_body items text out)
unfolding class_body
class_body-Keeps items [] out = tt
class_body-Keeps items (low ∷ []) out =
    class_low-Keeps items low [] out (class_body true [] (out ++ low ∷ [])) (
      regroup out (low ∷ []) [] (class_body true [] (out ++ low ∷ []))
        (class_body-Keeps true [] (out ++ low ∷ [])))
class_body-Keeps items (low ∷ dash ∷ []) out = class_low-Keeps items low (dash ∷ []) out _ (
    if-Keeps _ (dash == b'-') _ _ tt
      (regroup out (low ∷ []) (dash ∷ []) _ (class_body-Keeps true (dash ∷ []) (out ++ low ∷ []))))
class_body-Keeps items (low ∷ dash ∷ high ∷ text) out =
    class_low-Keeps items low (dash ∷ high ∷ text) out _ (
      if-Keeps _ (dash == b'-') _ _
        (class_high-Keeps _ low high _ (
          regroup out (low ∷ dash ∷ high ∷ []) text _
            (class_body-Keeps true text (out ++ low ∷ dash ∷ high ∷ []))))
        (regroup out (low ∷ []) (dash ∷ high ∷ text) _
          (class_body-Keeps true (dash ∷ high ∷ text) (out ++ low ∷ []))))

class_body-kept :
    (items : Bool) (text out : Text) (r : Text × Text)
    → class_body items text out ≡ ok r
    → r.1 ++ r.0 ≡ out ++ text
class_body-kept items text out r e = subst (Keeps (out ++ text)) e (class_body-Keeps items text out)

translate_from-same :
    (f : ℕ) (text out result : Text) → translate_from f text out ≡ ok result → result ≡ out ++ text
unfolding translate_from
translate_from-same f [] out result e = ok-injective (sym e) ∙ sym (append-nil out)
translate_from-same zero (c ∷ text) out result e = cc
translate_from-same (suc f) (c ∷ text) out result e = elim (Bool-cases (c == b'[')) [
  | inl b ↦ >>=-inv (class_start text) _ (rw b at e) λ _ _ e₁.
      >>=-inv (class_body false text (out ++ c ∷ [])) _ e₁ λ r h e₂.
        translate_from-same f r.0 r.1 result e₂
        ∙ class_body-kept false text (out ++ c ∷ []) r h
        ∙ append_assoc out (c ∷ []) text
  | inr b ↦
      translate_from-same f text (out ++ c ∷ []) result (rw b at e) ∙ append_assoc out (c ∷ []) text
]

-- A pattern that is accepted is handed to the crate unchanged.
pub translate-same : (pattern result : Text) → translate pattern ≡ ok result → result ≡ pattern
unfolding translate
translate-same pattern result h =
    >>=-inv (guard (not (contains_char pattern b'\\')) backslash) _ h λ _ _ h₁.
      >>=-inv (guard (not (contains_double_star pattern)) double_star) _ h₁
        λ _ _ h₂. translate_from-same (length pattern) pattern [] result h₂
