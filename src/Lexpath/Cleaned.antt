-- ===== src/Lexpath/Cleaned.antt =====
-- src/lexpath.rs: `clean` returns what the elements of a path leave.
use mathlib.Core.List.{append_assoc}
use swarm_device_access.Base.{
  ℕ, zero, suc, ◌-◌, ◌≤◌, ◌≡◌, refl, sym, ◌∙◌, ap, Bool, true, false, not, List, [], ◌∷◌, ◌++◌,
  length, take, All, ltb, ◌==◌, if◌then◌else◌, arith, Text, ==_iff, Bool-cases, inl, inr,
}
use swarm_device_access.Lexpath.{
  separator, element, after_element, backtrack, push_dotdot, needs_separator, dot_element,
  dotdot_element, rest_of, clean_from, or_dot, clean,
}
use swarm_device_access.Lexpath.Reference.{
  elements, go_up, add_elements, ups_text, start_text, starts, path_text, IsName, path_of,
  by_elements,
}
use swarm_device_access.Lexpath.Backtrack.{
  push_dotdot-ups_text, length-path_text_cons, needs_separator-starts, back-path_text,
}
use swarm_device_access.Lexpath.Elements.{
  add-first, dot-elements, dotdot-elements, plain-element, plain-IsName,
}

copied-path_text :
    (rooted : Bool) (ups : ℕ) (name : Text) (names : List Text)
    → All IsName names
    → (if needs_separator rooted (path_text rooted ups names)
          then path_text rooted ups names ++ separator ∷ []
          else path_text rooted ups names)
        ++ name
      ≡ path_text rooted ups (name ∷ names)
copied-path_text rooted ups name names a = elim (Bool-cases (starts rooted ups names)) [
  | inl h ↦ rw (needs_separator-starts rooted ups names a, h) refl
  | inr h ↦
      rw (needs_separator-starts rooted ups names a, h)
        (append_assoc (path_text rooted ups names) (separator ∷ []) name)
]

dotdot-path_of :
    (f : ℕ) (rooted : Bool) (text : Text)
    → ((names : List Text) (ups : ℕ)
        → All IsName names
        → clean_from f rooted text (path_text rooted ups names) (length (start_text rooted ups))
          ≡ path_of rooted (add_elements rooted (names, ups) (elements text)))
    → (names : List Text) (ups : ℕ) → All IsName names
    → (if ltb (length (start_text rooted ups)) (length (path_text rooted ups names))
        then clean_from f rooted text
            (take
              (backtrack
                (length (start_text rooted ups))
                (path_text rooted ups names)
                (length (path_text rooted ups names) - 1))
              (path_text rooted ups names))
            (length (start_text rooted ups))
        else if not rooted
        then clean_from f rooted text
            (push_dotdot (path_text rooted ups names))
            (length (push_dotdot (path_text rooted ups names)))
        else clean_from f rooted text (path_text rooted ups names) (length (start_text rooted ups)))
      ≡ path_of rooted (add_elements rooted (go_up rooted (names, ups)) (elements text))
dotdot-path_of f rooted text next (name ∷ names) ups ((k, s), a) =
    let l = length-path_text_cons rooted ups name names k in
    let over : ltb (length (start_text rooted ups)) (length (path_text rooted ups (name ∷ names)))
        ≡ true =
      ground (arith, l) in
    rw (over, back-path_text rooted ups name names (k, s)) (next names ups a)
dotdot-path_of f true text next [] ups a = next [] ups tt
dotdot-path_of f false text next [] ups a =
    let same : ltb (length (ups_text ups)) (length (ups_text ups)) ≡ false = ground arith in
    rw (same, push_dotdot-ups_text ups) (next [] (suc ups) tt)

length-rest_of : (text : Text) → length (rest_of text) ≤ length text
length-rest_of [] = omega arith
length-rest_of (c ∷ text) = omega arith

length-after_element : (text : Text) → length (after_element text) ≤ length text
unfolding after_element
length-after_element [] = omega arith
length-after_element (c ∷ text) = elim (Bool-cases (c == separator)) [
  | inl e ↦ rw e (omega arith)
  | inr e ↦ rw e (omega (arith, length-after_element text))
]

copied-less :
    (f c : ℕ) (rest : Text)
    → dot_element (c ∷ rest) ≡ false
    → length rest ≤ f
    → length (after_element (c ∷ rest)) ≤ f
unfolding after_element
copied-less f c rest d l =
    let h : (c == separator) ≡ false = ground (arith, d) in
    rw h (omega (arith, length-after_element rest))

-- The loop of `clean` adds the elements of what is left, if there is fuel for every character.
clean_from-path_of :
    (f : ℕ) (rooted : Bool) (text : Text) (names : List Text) (ups : ℕ)
    → All IsName names
    → length text ≤ f
    → clean_from f rooted text (path_text rooted ups names) (length (start_text rooted ups))
      ≡ path_of rooted (add_elements rooted (names, ups) (elements text))
unfolding clean_from
clean_from-path_of zero rooted [] names ups a l = refl
clean_from-path_of (suc f) rooted [] names ups a l = refl
clean_from-path_of zero rooted (c ∷ rest) names ups a l = absurd (omega arith)
clean_from-path_of (suc f) rooted (c ∷ rest) names ups a l =
    elim (Bool-cases (dot_element (c ∷ rest))) [
      | inl d ↦ rw d (
          clean_from-path_of f rooted rest names ups a (omega arith)
          ∙ ap (path_of rooted) (sym (dot-elements rooted (names, ups) c rest d)))
      | inr d ↦ elim (Bool-cases (dotdot_element (c ∷ rest))) [
        | inl u ↦
            rw (d, u)
              (dotdot-path_of f rooted (rest_of rest)
                  (λ names' ups' a'.
                    clean_from-path_of f rooted (rest_of rest) names' ups' a'
                      (omega (arith, length-rest_of rest)))
                  names ups a
                ∙ ap (path_of rooted) (sym (dotdot-elements rooted (names, ups) c rest u)))
        | inr u ↦
            rw (d, u, copied-path_text rooted ups (element (c ∷ rest)) names a)
              (clean_from-path_of f rooted (after_element (c ∷ rest)) (element (c ∷ rest) ∷ names)
                  ups (plain-IsName c rest d, a) (copied-less f c rest d (omega arith))
                ∙ ap (path_of rooted) (
                    ap (λ s. add_elements rooted s (elements (after_element (c ∷ rest))))
                      (sym (plain-element rooted (names, ups) c rest d u))
                    ∙ sym (add-first rooted (names, ups) (c ∷ rest))))
      ]
    ]

-- What `clean` makes of a path that is not empty.
clean_cons :
    (c : ℕ) (path : Text) (rooted : Bool)
    → (c == separator) ≡ rooted
    → (if rooted
        then or_dot (clean_from (length path) true path (c ∷ []) 1)
        else or_dot (clean_from (suc (length path)) false (c ∷ path) [] 0))
      ≡ or_dot (path_of rooted (add_elements rooted ([], 0) (elements (c ∷ path))))
clean_cons c path true h =
    let same : c ≡ separator = (==_iff c separator).0 h in
    rw same (ap or_dot (clean_from-path_of (length path) true path [] 0 tt (omega arith)))
clean_cons c path false h =
    ap or_dot (clean_from-path_of (suc (length path)) false (c ∷ path) [] 0 tt (omega arith))

-- For every path, `clean` returns what its elements leave: between separators, an empty element or
-- `.` is dropped, `..` drops the name before it, or is dropped at the root, or is kept at the start
-- of a path that is not rooted, and every other element is kept. The names are joined by single
-- separators, after the root if there was one, and `.` stands for nothing.
pub clean-by_elements : (path : Text) → clean path ≡ by_elements path
unfolding clean clean_from
clean-by_elements [] = refl
clean-by_elements (c ∷ path) = clean_cons c path (c == separator) refl
