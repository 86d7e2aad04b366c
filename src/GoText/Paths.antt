-- ===== src/GoText/Paths.antt =====
-- Go's `path` package: `path.Clean` and `path.Base`.
use srvgov_cli.Prelude.{Bool, false, ◌||◌, List, [], ◌∷◌, ◌++◌, ◌==◌, if◌then◌else◌}
use srvgov_cli.GoText.Search.{Text, codes, is, split_on}

-- One component onto the components kept so far, the last one first. `..` removes a component where
-- there is one to remove; at the start of a rooted path it is dropped, else it is kept.
clean_push : Bool → List Text → Text → List Text
unfolding is
clean_push rooted kept part =
    if is part "" || is part "."
    then kept
    else if is part ".."
    then elim kept [
      | [] ↦ if rooted then [] else part ∷ []
      | top ∷ below ↦ if is top ".." then part ∷ top ∷ below else below
    ]
    else part ∷ kept

clean_parts : Bool → List Text → List Text → List Text
unfolding clean_push
clean_parts rooted kept [] = kept
clean_parts rooted kept (p ∷ ps) = clean_parts rooted (clean_push rooted kept p) ps

-- The components back in order, with slashes between them, before `tail`.
join_back : List Text → Text → Text
join_back [] rest = rest
join_back (p ∷ []) rest = p ++ rest
join_back (p ∷ q ∷ ps) rest = join_back (q ∷ ps) (b'/' ∷ (p ++ rest))

is_rooted : Text → Bool
is_rooted [] = false
is_rooted (c ∷ _) = c == b'/'

-- path.Clean
unfoldable pub clean : Text → Text
unfolding split_on clean_parts join_back is_rooted
clean p =
    let body = join_back (clean_parts (is_rooted p) [] (split_on b'/' p)) [] in
    if is_rooted p then b'/' ∷ body else elim body [ [] ↦ codes "." | x ∷ r ↦ x ∷ r ]

unfoldable pub strip_slashes : Text → Text
strip_slashes [] = []
strip_slashes (x ∷ xs) = elim (strip_slashes xs) [
  | [] ↦ if x == b'/' then [] else x ∷ []
  | y ∷ r ↦ x ∷ y ∷ r
]

unfoldable pub last_part : List Text → Text
last_part [] = []
last_part (p ∷ []) = p
last_part (p ∷ q ∷ ps) = last_part (q ∷ ps)

-- path.Base
unfoldable pub base : Text → Text
unfolding strip_slashes last_part split_on
base [] = codes "."
base (x ∷ xs) = elim (strip_slashes (x ∷ xs)) [
  | [] ↦ codes "/"
  | y ∷ r ↦ last_part (split_on b'/' (y ∷ r))
]
