-- ===== src/Lexpath/Reference.antt =====
-- src/lexpath.rs: what `clean` returns, by the elements of a path.
use swarm_device_access.Base.{
  ℕ, zero, suc, ◌≤◌, ◌≡◌, Bool, true, false, ◌||◌, List, [], ◌∷◌, ◌++◌, length, All, ◌==◌,
  if◌then◌else◌, Text, codes, text_eq,
}
use swarm_device_access.Lexpath.{separator, is_empty, or_dot}

-- The elements between separators, the empty ones included.
abbrev pub add_character : ℕ → List Text → List Text
add_character c [] = (c ∷ []) ∷ []
add_character c (e ∷ es) = (c ∷ e) ∷ es

abbrev pub elements : Text → List Text
elements [] = [] ∷ []
elements (c ∷ path) =
    let rest = elements path in if c == separator then [] ∷ rest else add_character c rest

-- The elements that are left of a path, the last one first, and how often it goes above where it
-- starts.
abbrev pub go_up : Bool → List Text × ℕ → List Text × ℕ
go_up rooted (name ∷ names, ups) = (names, ups)
go_up rooted ([], ups) = ([], if rooted then ups else suc ups)

abbrev pub add_element : Bool → List Text × ℕ → Text → List Text × ℕ
add_element rooted s e =
    if is_empty e || text_eq e (codes ".")
    then s
    else if text_eq e (codes "..")
    then go_up rooted s
    else (e ∷ s.0, s.1)

abbrev pub add_elements : Bool → List Text × ℕ → List Text → List Text × ℕ
add_elements rooted s [] = s
add_elements rooted s (e ∷ es) = add_elements rooted (add_element rooted s e) es

-- What a path starts with: the root, or `..` as often as it goes up.
abbrev pub ups_text : ℕ → Text
ups_text zero = []
ups_text (suc zero) = codes ".."
ups_text (suc (suc n)) = ups_text (suc n) ++ codes "/.."

abbrev pub start_text : Bool → ℕ → Text
start_text true ups = separator ∷ []
start_text false ups = ups_text ups

-- No separator stands before the first element, unless there is a `..` before it.
abbrev pub starts : Bool → ℕ → List Text → Bool
starts rooted ups [] = rooted || ups == 0
starts rooted ups (name ∷ names) = false

abbrev pub path_text : Bool → ℕ → List Text → Text
path_text rooted ups [] = start_text rooted ups
path_text rooted ups (name ∷ names) =
    if starts rooted ups names
    then path_text rooted ups names ++ name
    else path_text rooted ups names ++ separator ∷ name

-- A name is not empty and has no separator.
abbrev pub IsName : Text → Type 0
IsName name = (1 ≤ length name) × All (λ c. (c == separator) ≡ false) name

-- The path of the elements that are left.
abbrev pub path_of : Bool → List Text × ℕ → Text
path_of rooted (names, ups) = path_text rooted ups names

abbrev pub is_rooted : Text → Bool
is_rooted [] = false
is_rooted (c ∷ path) = c == separator

-- The path by its elements, `.` when nothing is left.
abbrev pub by_elements : Text → Text
by_elements path =
    or_dot (path_of (is_rooted path) (add_elements (is_rooted path) ([], 0) (elements path)))
