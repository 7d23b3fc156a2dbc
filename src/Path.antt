-- ===== src/Path.antt =====
-- The parts of Go's path/filepath (on Unix) that the program calls: Clean, IsAbs, Join, Dir, Ext.
-- Clean is written by its documented rules on the list of the path's elements.
pub mod Normal
pub mod Rooted
pub mod Prefix
pub mod Join
use mathlib.Core.List.{foldl, reverse}
use tfai_go.Base.{
  ℕ, Bool, true, false, List, [], ◌∷◌, ◌++◌, Bytes, codes, bytes_eq, has_prefix, split, ◌==◌, ◌&&◌,
  ◌||◌, not, if◌then◌else◌,
}

abbrev pub separator : ℕ
separator = b'/'

abbrev pub dot : Bytes
dot = codes "."

abbrev pub dotdot : Bytes
dotdot = codes ".."

-- filepath.IsAbs
unfoldable pub is_abs : Bytes → Bool
is_abs [] = false
is_abs (c ∷ p) = c == separator

-- `..` takes the element before it away; at the root it is dropped, and before any other element
-- of a relative path it is kept.
unfoldable pub up : Bool → List Bytes → List Bytes
up rooted [] = if rooted then [] else dotdot ∷ []
up rooted (top ∷ stack) = if bytes_eq top dotdot then dotdot ∷ top ∷ stack else stack

-- One element of the path, onto the stack of those before it, the last on top.
unfoldable pub push_element : Bool → List Bytes → Bytes → List Bytes
unfolding up
push_element rooted stack element =
    if bytes_eq element [] || bytes_eq element dot
    then stack
    else if bytes_eq element dotdot
    then up rooted stack
    else element ∷ stack

unfoldable pub elements : Bytes → List Bytes
elements p = foldl (push_element (is_abs p)) [] (split p separator)

-- strings.Join(parts, "/")
unfoldable pub join_elements : List Bytes → Bytes
join_elements [] = []
join_elements (e ∷ []) = e
join_elements (e ∷ f ∷ es) = e ++ separator ∷ join_elements (f ∷ es)

unfoldable pub render : Bool → List Bytes → Bytes
unfolding join_elements
render true es = separator ∷ join_elements es
render false [] = dot
render false (e ∷ es) = join_elements (e ∷ es)

-- filepath.Clean
unfoldable pub clean : Bytes → Bytes
unfolding elements render is_abs push_element
clean p = render (is_abs p) (reverse (elements p))

-- filepath.Join(a, b)
unfoldable pub join : Bytes → Bytes → Bytes
unfolding clean
join a b =
    if bytes_eq a []
    then (if bytes_eq b [] then [] else clean b)
    else if bytes_eq b []
    then clean a
    else clean (a ++ separator ∷ b)

-- What stands up to the last separator, with it; empty if there is none.
unfoldable pub up_to_separator : Bytes → Bytes
up_to_separator [] = []
up_to_separator (c ∷ p) =
    let rest = up_to_separator p in
    if bytes_eq rest [] && not (c == separator) then [] else c ∷ rest

-- filepath.Dir
unfoldable pub dir : Bytes → Bytes
unfolding clean up_to_separator
dir p = clean (up_to_separator p)

-- filepath.Ext, of a name that holds no separator
unfoldable pub ext : Bytes → Bytes
ext [] = []
ext (c ∷ name) = let rest = ext name in if bytes_eq rest [] && c == b'.' then c ∷ name else rest
