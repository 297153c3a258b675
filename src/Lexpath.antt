-- ===== src/Lexpath.antt =====
-- src/lexpath.rs: lexical paths. The functions only look for `/` and `.` and copy the rest, so a
-- path is its list of characters here as it is its bytes there.
pub mod Reference
pub mod Backtrack
pub mod Elements
pub mod Cleaned
use swarm_device_access.Base.{
  ℕ, zero, suc, ◌+◌, ◌-◌, Bool, true, false, not, ◌&&◌, ◌||◌, List, [], ◌∷◌, ◌++◌, length, take,
  ltb, ◌==◌, if◌then◌else◌, Text, codes, get_elem?, keep, reverse, keep, reverse, Option, none,
  some,
}

abbrev pub separator : ℕ
separator = b'/'

abbrev pub is_empty : Text → Bool
is_empty [] = true
is_empty (c ∷ path) = false

-- Whether an element ends here.
abbrev pub ends_element : Text → Bool
ends_element [] = true
ends_element (c ∷ rest) = c == separator

-- The characters up to the next separator, and what is left from it on.
unfoldable pub element : Text → Text
element [] = []
element (c ∷ rest) = let tail = element rest in if c == separator then [] else c ∷ tail

unfoldable pub after_element : Text → Text
after_element [] = []
after_element (c ∷ rest) =
    let tail = after_element rest in if c == separator then c ∷ rest else tail

abbrev pub is_separator : Option ℕ → Bool
is_separator none = false
is_separator (some c) = c == separator

-- The loop that goes back to the separator before the last element, but not below `dotdot`.
unfoldable pub backtrack : ℕ → Text → ℕ → ℕ
backtrack dotdot out zero = zero
backtrack dotdot out (suc write) =
    let back = backtrack dotdot out write in
    if ltb dotdot (suc write) && not (is_separator (get_elem? out (suc write)))
    then back
    else suc write

-- The output with `..` appended.
abbrev pub push_dotdot : Text → Text
push_dotdot out = if is_empty out then codes ".." else out ++ codes "/.."

-- Whether a separator stands before the next element.
abbrev pub needs_separator : Bool → Text → Bool
needs_separator rooted out = (rooted && not (length out == 1)) || (not rooted && not (is_empty out))

abbrev pub dot_element : Text → Bool
dot_element [] = false
dot_element (c ∷ rest) = c == separator || (c == b'.' && ends_element rest)

abbrev pub dotdot_element : Text → Bool
dotdot_element (a ∷ b ∷ rest) = a == b'.' && b == b'.' && ends_element rest
dotdot_element _ = false

abbrev pub rest_of : Text → Text
rest_of [] = []
rest_of (c ∷ rest) = rest

-- The loop of `clean` over the characters left, on fuel: the output, and where backtracking stops.
unfoldable pub clean_from : ℕ → Bool → Text → Text → ℕ → Text
clean_from zero rooted text out dotdot = out
clean_from (suc f) rooted [] out dotdot = out
clean_from (suc f) rooted (c ∷ rest) out dotdot =
    let dot = clean_from f rooted rest out dotdot in
    let back =
      clean_from f rooted (rest_of rest) (take (backtrack dotdot out (length out - 1)) out)
        dotdot in
    let up = clean_from f rooted (rest_of rest) (push_dotdot out) (length (push_dotdot out)) in
    let stay = clean_from f rooted (rest_of rest) out dotdot in
    let copied =
      clean_from f rooted (after_element (c ∷ rest))
        ((if needs_separator rooted out then out ++ separator ∷ [] else out) ++ element (c ∷ rest))
        dotdot in
    if dot_element (c ∷ rest)
    then dot
    else if dotdot_element (c ∷ rest)
    then (if ltb dotdot (length out) then back else if not rooted then up else stay)
    else copied

abbrev pub or_dot : Text → Text
or_dot [] = codes "."
or_dot (c ∷ path) = c ∷ path

-- `clean`: every round takes a character at least.
unfoldable pub clean : Text → Text
unfolding clean_from
clean [] = codes "."
clean (c ∷ path) =
    if c == separator
    then or_dot (clean_from (length path) true path (c ∷ []) 1)
    else or_dot (clean_from (suc (length path)) false (c ∷ path) [] 0)

unfoldable pub drop_separators : Text → Text
drop_separators [] = []
drop_separators (c ∷ path) =
    let rest = drop_separators path in if c == separator then rest else c ∷ path

-- `trim_end_matches('/')`.
abbrev pub trim_separators : Text → Text
trim_separators path = reverse (drop_separators (reverse path))

-- What stands after the last separator, if there is one.
abbrev pub last_element : Text → Text
last_element path = reverse (element (reverse path))

abbrev pub or_root : Text → Text
or_root [] = codes "/"
or_root (c ∷ path) = last_element (c ∷ path)

unfoldable pub base : Text → Text
unfolding drop_separators element
base [] = codes "."
base (c ∷ path) = or_root (trim_separators (c ∷ path))

-- `join("/")`.
unfoldable pub join_with_separator : List Text → Text
join_with_separator [] = []
join_with_separator (first ∷ []) = first
join_with_separator (first ∷ second ∷ elements) =
    first ++ separator ∷ join_with_separator (second ∷ elements)

abbrev pub clean_joined : List Text → Text
unfolding clean
clean_joined [] = []
clean_joined (first ∷ elements) = clean (join_with_separator (first ∷ elements))

unfoldable pub join : List Text → Text
unfolding clean_joined join_with_separator
join elements = clean_joined (keep (λ first. not (is_empty first)) elements)
