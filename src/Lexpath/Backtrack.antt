-- ===== src/Lexpath/Backtrack.antt =====
-- src/lexpath.rs: the output of `clean` as the path of some names, and going back over one.
use swarm_device_access.Base.{
  ℕ, zero, suc, ◌+◌, ◌-◌, ◌≤◌, ◌≡◌, refl, sym, ◌∙◌, ap, subst, Bool, true, false, not, ◌||◌, List,
  [], ◌∷◌, ◌++◌, ◌⊎◌, length, length-append, take, take-append, All, ltb, ◌==◌, arith, Text, codes,
  get_elem?, Bool-cases, inl, inr,
}
use swarm_device_access.Lexpath.{
  separator, is_empty, is_separator, backtrack, push_dotdot, needs_separator,
}
use swarm_device_access.Lexpath.Reference.{ups_text, start_text, starts, path_text, IsName}

pub push_dotdot-ups_text : (n : ℕ) → push_dotdot (ups_text n) ≡ ups_text (suc n)
push_dotdot-ups_text zero = refl
push_dotdot-ups_text (suc zero) = refl
push_dotdot-ups_text (suc (suc n)) = filled (ups_text (suc n))
  where
    filled : (t : Text) → push_dotdot (t ++ codes "/..") ≡ (t ++ codes "/..") ++ codes "/.."
    filled [] = refl
    filled (c ∷ t) = refl

length-path_text :
    (rooted : Bool) (ups : ℕ) (names : List Text)
    → length (start_text rooted ups) ≤ length (path_text rooted ups names)
length-path_text rooted ups [] = omega arith
length-path_text rooted ups (name ∷ names) =
    let l = length-path_text rooted ups names in
    elim (Bool-cases (starts rooted ups names)) [
      | inl h ↦ rw h (omega (arith, l, length-append (path_text rooted ups names) name))
      | inr h ↦
          rw h (omega (arith, l, length-append (path_text rooted ups names) (separator ∷ name)))
    ]

pub length-path_text_cons :
    (rooted : Bool) (ups : ℕ) (name : Text) (names : List Text)
    → 1 ≤ length name
    → suc (length (start_text rooted ups)) ≤ length (path_text rooted ups (name ∷ names))
length-path_text_cons rooted ups name names k =
    let l = length-path_text rooted ups names in
    elim (Bool-cases (starts rooted ups names)) [
      | inl h ↦ rw h (omega (arith, l, k, length-append (path_text rooted ups names) name))
      | inr h ↦
          rw h (omega (arith, l, k, length-append (path_text rooted ups names) (separator ∷ name)))
    ]

is_empty-length : (t : Text) → 1 ≤ length t → is_empty t ≡ false
is_empty-length [] h = absurd (omega arith)
is_empty-length (c ∷ t) h = refl

suc_positive : (n : ℕ) → (suc n == 0) ≡ false
suc_positive n = ground arith

is_empty-ups_text : (n : ℕ) → is_empty (ups_text n) ≡ (n == 0)
is_empty-ups_text zero = refl
is_empty-ups_text (suc zero) = refl
is_empty-ups_text (suc (suc n)) = filled (ups_text (suc n)) ∙ sym (suc_positive (suc n))
  where
    filled : (t : Text) → is_empty (t ++ codes "/..") ≡ false
    filled [] = refl
    filled (c ∷ t) = refl

pub needs_separator-starts :
    (rooted : Bool) (ups : ℕ) (names : List Text)
    → All IsName names
    → needs_separator rooted (path_text rooted ups names) ≡ not (starts rooted ups names)
needs_separator-starts true ups [] a = refl
needs_separator-starts false ups [] a = ap not (is_empty-ups_text ups)
needs_separator-starts true ups (name ∷ names) ((k, s), a) =
    let l = length-path_text_cons true ups name names k in ground (arith, l)
needs_separator-starts false ups (name ∷ names) ((k, s), a) =
    let l = length-path_text_cons false ups name names k in
    let e : is_empty (path_text false ups (name ∷ names)) ≡ false =
      is_empty-length (path_text false ups (name ∷ names)) (omega (arith, l)) in
    ap not e

-- Going back over a last element.
get_elem?-append : (o t : Text) (k : ℕ) → get_elem? (o ++ t) (length o + k) ≡ get_elem? t k
get_elem?-append [] t k = let same : 0 + k ≡ k = omega arith in ap (get_elem? t) same
get_elem?-append (c ∷ o) t k =
    let more : suc (length o) + k ≡ suc (length o + k) = omega arith in
    rw more (get_elem?-append o t k)

not_separators :
    (t : Text) (k : ℕ)
    → All (λ c. (c == separator) ≡ false) t
    → is_separator (get_elem? t k) ≡ false
not_separators [] k a = refl
not_separators (c ∷ t) zero (e, a) = e
not_separators (c ∷ t) (suc k) (e, a) = not_separators t k a

backtrack_stops :
    (dotdot : ℕ) (out : Text) (w : ℕ)
    → (dotdot ≡ w) ⊎ (is_separator (get_elem? out w) ≡ true)
    → backtrack dotdot out w ≡ w
unfolding backtrack
backtrack_stops dotdot out zero h = refl
backtrack_stops dotdot out (suc w) (inl h) = ground (arith, h)
backtrack_stops dotdot out (suc w) (inr h) = ground (arith, h)

backtrack_name :
    (dotdot : ℕ) (o : Text) (c : ℕ) (t : Text) (k : ℕ)
    → dotdot ≤ length o
    → (dotdot ≡ length o) ⊎ ((c == separator) ≡ true)
    → All (λ x. (x == separator) ≡ false) t
    → backtrack dotdot (o ++ c ∷ t) (length o + k) ≡ length o
unfolding backtrack
backtrack_name dotdot o c t zero l h a =
    let at = get_elem?-append o (c ∷ t) 0 in
    let here : (dotdot ≡ length o + 0)
        ⊎ (is_separator (get_elem? (o ++ c ∷ t) (length o + 0)) ≡ true) =
      elim h [ inl e ↦ inl (omega (arith, e)) | inr e ↦ inr (ap is_separator at ∙ e) ] in
    backtrack_stops dotdot (o ++ c ∷ t) (length o + 0) here ∙ omega arith
backtrack_name dotdot o c t (suc k) l h a =
    let more : length o + suc k ≡ suc (length o + k) = omega arith in
    let at : is_separator (get_elem? (o ++ c ∷ t) (suc (length o + k))) ≡ false =
      subst (λ w. is_separator (get_elem? (o ++ c ∷ t) w) ≡ false) more
        (ap is_separator (get_elem?-append o (c ∷ t) (suc k)) ∙ not_separators t k a) in
    let next = backtrack_name dotdot o c t k l h a in
    let over : ltb dotdot (suc (length o + k)) ≡ true = ground (arith, l) in
    rw (more, at, over) next

back_over :
    (dotdot : ℕ) (o : Text) (c : ℕ) (t : Text)
    → dotdot ≤ length o
    → (dotdot ≡ length o) ⊎ ((c == separator) ≡ true)
    → All (λ x. (x == separator) ≡ false) t
    → take (backtrack dotdot (o ++ c ∷ t) (length (o ++ c ∷ t) - 1)) (o ++ c ∷ t) ≡ o
back_over dotdot o c t l h a =
    let count : length (o ++ c ∷ t) - 1 ≡ length o + length t =
      omega (arith, length-append o (c ∷ t)) in
    rw (count, backtrack_name dotdot o c t (length t) l h a) (take-append o (c ∷ t))

back_over_name :
    (dotdot : ℕ) (o name : Text)
    → dotdot ≡ length o
    → IsName name
    → take (backtrack dotdot (o ++ name) (length (o ++ name) - 1)) (o ++ name) ≡ o
back_over_name dotdot o [] h (k, a) = absurd (omega arith)
back_over_name dotdot o (c ∷ t) h (k, (n, a)) = back_over dotdot o c t (omega (arith, h)) (inl h) a

-- Going back drops the last name.
pub back-path_text :
    (rooted : Bool) (ups : ℕ) (name : Text) (names : List Text)
    → IsName name
    → take
        (backtrack
          (length (start_text rooted ups))
          (path_text rooted ups (name ∷ names))
          (length (path_text rooted ups (name ∷ names)) - 1))
        (path_text rooted ups (name ∷ names))
      ≡ path_text rooted ups names
back-path_text rooted ups name [] (k, a) = elim (Bool-cases (rooted || ups == 0)) [
  | inl h ↦
      rw h
        (back_over_name (length (start_text rooted ups)) (start_text rooted ups) name refl (k, a))
  | inr h ↦ rw h (
      back_over (length (start_text rooted ups)) (start_text rooted ups) separator name
        (omega arith) (inl refl) a)
]
back-path_text rooted ups name (x ∷ names) (k, a) =
    back_over (length (start_text rooted ups)) (path_text rooted ups (x ∷ names)) separator name
      (length-path_text rooted ups (x ∷ names)) (inr refl) a
