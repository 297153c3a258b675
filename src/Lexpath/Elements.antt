-- ===== src/Lexpath/Elements.antt =====
-- src/lexpath.rs: the elements that the loop of `clean` tells apart.
use swarm_device_access.Base.{
  ℕ, ◌≡◌, refl, ◌∙◌, ap, Bool, true, false, List, [], ◌∷◌, All, ◌==◌, arith, Text, codes, text_eq,
  Bool-cases, inl, inr,
}
use swarm_device_access.Lexpath.{
  separator, is_empty, ends_element, element, after_element, dot_element, dotdot_element, rest_of,
}
use swarm_device_access.Lexpath.Reference.{
  add_character, elements, go_up, add_element, add_elements, IsName,
}

-- The first element of a text, and the rest of it.
abbrev rest_elements : Text → List Text
rest_elements [] = []
rest_elements (c ∷ path) = elements path

elements-first : (text : Text) → elements text ≡ element text ∷ rest_elements (after_element text)
unfolding element after_element
elements-first [] = refl
elements-first (c ∷ text) = elim (Bool-cases (c == separator)) [
  | inl h ↦ rw h refl
  | inr h ↦ rw h (ap (add_character c) (elements-first text))
]

add-rest_elements :
    (rooted : Bool) (s : List Text × ℕ) (text : Text)
    → add_elements rooted s (rest_elements (after_element text))
      ≡ add_elements rooted s (elements (after_element text))
unfolding after_element
add-rest_elements rooted s [] = refl
add-rest_elements rooted s (c ∷ text) = elim (Bool-cases (c == separator)) [
  | inl h ↦ rw h (rw h refl)
  | inr h ↦ rw h (add-rest_elements rooted s text)
]

pub add-first :
    (rooted : Bool) (s : List Text × ℕ) (text : Text)
    → add_elements rooted s (elements text)
      ≡ add_elements rooted (add_element rooted s (element text)) (elements (after_element text))
add-first rooted s text =
    ap (add_elements rooted s) (elements-first text)
    ∙ add-rest_elements rooted (add_element rooted s (element text)) text

element-ends :
    (text : Text) → ends_element text ≡ true → (element text ≡ []) × (after_element text ≡ text)
unfolding element after_element
element-ends [] h = (refl, refl)
element-ends (c ∷ text) h = rw h (refl, refl)

is_empty-element : (text : Text) → is_empty (element text) ≡ ends_element text
unfolding element
is_empty-element [] = refl
is_empty-element (c ∷ text) = elim (Bool-cases (c == separator)) [
  | inl h ↦ rw h refl
  | inr h ↦ rw h refl
]

element-IsClear : (text : Text) → All (λ c. (c == separator) ≡ false) (element text)
unfolding element
element-IsClear [] = tt
element-IsClear (c ∷ text) = elim (Bool-cases (c == separator)) [
  | inl h ↦ rw h tt
  | inr h ↦ rw h (h, element-IsClear text)
]

pub dot-elements :
    (rooted : Bool) (s : List Text × ℕ) (c : ℕ) (rest : Text)
    → dot_element (c ∷ rest) ≡ true
    → add_elements rooted s (elements (c ∷ rest)) ≡ add_elements rooted s (elements rest)
unfolding element after_element
dot-elements rooted s c rest d = elim (Bool-cases (c == separator)) [
  | inl h ↦ rw h refl
  | inr h ↦
      let dot : (c == b'.') ≡ true = ground (arith, d, h) in
      let (e, a) = element-ends rest (ground (arith, d, h)) in
      add-first rooted s (c ∷ rest) ∙ rw (h, e, a, dot) refl
]

pub dotdot-elements :
    (rooted : Bool) (s : List Text × ℕ) (c : ℕ) (rest : Text)
    → dotdot_element (c ∷ rest) ≡ true
    → add_elements rooted s (elements (c ∷ rest))
      ≡ add_elements rooted (go_up rooted s) (elements (rest_of rest))
unfolding element after_element
dotdot-elements rooted s c [] u = cc
dotdot-elements rooted s c (b ∷ rest) u =
    let first : (c == b'.') ≡ true = ground (arith, u) in
    let second : (b == b'.') ≡ true = ground (arith, u) in
    let (e, a) = element-ends rest (ground (arith, u)) in
    let h : (c == separator) ≡ false = ground (arith, first) in
    let k : (b == separator) ≡ false = ground (arith, second) in
    add-first rooted s (c ∷ b ∷ rest) ∙ rw (h, k, e, a, first, second) refl

is_nil-element : (text : Text) → text_eq (element text) [] ≡ ends_element text
unfolding element
is_nil-element [] = refl
is_nil-element (c ∷ text) = elim (Bool-cases (c == separator)) [
  | inl h ↦ rw h refl
  | inr h ↦ rw h refl
]

not_dot :
    (c : ℕ) (rest : Text)
    → dot_element (c ∷ rest) ≡ false
    → text_eq (c ∷ element rest) (codes ".") ≡ false
not_dot c rest d = rw (is_nil-element rest) (ground (arith, d))

not_dots :
    (c : ℕ) (rest : Text)
    → dotdot_element (c ∷ rest) ≡ false
    → text_eq (c ∷ element rest) (codes "..") ≡ false
unfolding element
not_dots c [] u = ground arith
not_dots c (b ∷ rest) u = elim (Bool-cases (b == separator)) [
  | inl h ↦ rw h (ground arith)
  | inr h ↦ rw (h, is_nil-element rest) (ground (arith, u))
]

pub plain-element :
    (rooted : Bool) (s : List Text × ℕ) (c : ℕ) (rest : Text)
    → dot_element (c ∷ rest) ≡ false
    → dotdot_element (c ∷ rest) ≡ false
    → add_element rooted s (element (c ∷ rest)) ≡ (element (c ∷ rest) ∷ s.0, s.1)
unfolding element
plain-element rooted s c rest d u =
    let h : (c == separator) ≡ false = ground (arith, d) in
    rw (h, not_dot c rest d, not_dots c rest u) refl

pub plain-IsName :
    (c : ℕ) (rest : Text) → dot_element (c ∷ rest) ≡ false → IsName (element (c ∷ rest))
unfolding element
plain-IsName c rest d =
    let h : (c == separator) ≡ false = ground (arith, d) in
    rw h (omega arith, (h, element-IsClear rest))
