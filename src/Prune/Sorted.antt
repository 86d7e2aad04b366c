-- ===== src/Prune/Sorted.antt =====
-- The order of the rotated logs.
use srvgov_cli.Prelude.{
  ◌≡◌, refl, ap, ◌∙◌, Bool, true, false, ◌&&◌, ◌||◌, List, [], ◌∷◌, arith, ltb, leb, ◌==◌, any, all,
  All, split_if,
}
use srvgov_cli.GoText.{Text}
use srvgov_cli.Prune.{AuditRotatedFile, rotated_before, insert_rotated, sort_rotated, paths_of}

-- A file is not behind another one: by its time, then by its ordinal.
abbrev pub precedes : AuditRotatedFile → AuditRotatedFile → Bool
precedes a b = ltb a.timestamp b.timestamp || a.timestamp == b.timestamp && leb a.ordinal b.ordinal

abbrev pub IsSorted : List AuditRotatedFile → Type 0
IsSorted [] = Unit
IsSorted (f ∷ fs) = (all (precedes f) fs ≡ true) × IsSorted fs

all-precedes :
    (f g : AuditRotatedFile) (hs : List AuditRotatedFile)
    → precedes f g ≡ true
    → all (precedes g) hs ≡ true
    → all (precedes f) hs ≡ true
all-precedes f g [] a b = refl
all-precedes f g (h ∷ hs) a b = ground (arith, all-precedes f g hs)

all-insert_rotated :
    (p : AuditRotatedFile → Bool) (f : AuditRotatedFile) (gs : List AuditRotatedFile)
    → all p (insert_rotated f gs) ≡ (p f && all p gs)
unfolding insert_rotated
all-insert_rotated p f [] = refl
all-insert_rotated p f (g ∷ gs) = ground (arith, all-insert_rotated p f gs)

rotated_before-true : (f g : AuditRotatedFile) → rotated_before f g ≡ true → precedes f g ≡ true
unfolding rotated_before
rotated_before-true f g h = ground arith

rotated_before-false : (f g : AuditRotatedFile) → rotated_before f g ≡ false → precedes g f ≡ true
unfolding rotated_before
rotated_before-false f g h = ground arith

insert_rotated-IsSorted :
    (f : AuditRotatedFile) (gs : List AuditRotatedFile)
    → IsSorted gs
    → IsSorted (insert_rotated f gs)
unfolding insert_rotated
insert_rotated-IsSorted f [] h = (refl, tt)
insert_rotated-IsSorted f (g ∷ gs) h =
    let rest = insert_rotated-IsSorted f gs h.1 in
    split_if IsSorted (rotated_before f g)
      (λ b.
        let first = rotated_before-true f g b in
        let others = all-precedes f g gs first h.0 in (ground arith, h))
      (λ b.
        let first = rotated_before-false f g b in
        let same = all-insert_rotated (precedes g) f gs in let others = h.0 in (ground arith, rest))

pub sort_rotated-IsSorted : (fs : List AuditRotatedFile) → IsSorted (sort_rotated fs)
unfolding sort_rotated
sort_rotated-IsSorted [] = tt
sort_rotated-IsSorted (f ∷ fs) =
    insert_rotated-IsSorted f (sort_rotated fs) (sort_rotated-IsSorted fs)

All-insert_rotated :
    (P : AuditRotatedFile → Type 0) (f : AuditRotatedFile) (gs : List AuditRotatedFile)
    → P f
    → All P gs
    → All P (insert_rotated f gs)
unfolding insert_rotated
All-insert_rotated P f [] a h = (a, tt)
All-insert_rotated P f (g ∷ gs) a h =
    split_if (All P) (rotated_before f g) (λ b. (a, h))
      (λ b. (h.0, All-insert_rotated P f gs a h.1))

pub All-sort_rotated :
    (P : AuditRotatedFile → Type 0) (fs : List AuditRotatedFile)
    → All P fs
    → All P (sort_rotated fs)
unfolding sort_rotated
All-sort_rotated P [] h = tt
All-sort_rotated P (f ∷ fs) h =
    All-insert_rotated P f (sort_rotated fs) h.0 (All-sort_rotated P fs h.1)

any-insert_rotated :
    (p : Text → Bool) (f : AuditRotatedFile) (gs : List AuditRotatedFile)
    → any p (paths_of (insert_rotated f gs)) ≡ (p f.path || any p (paths_of gs))
unfolding insert_rotated
any-insert_rotated p f [] = refl
any-insert_rotated p f (g ∷ gs) = ground (arith, any-insert_rotated p f gs)

pub any-sort_rotated :
    (p : Text → Bool) (fs : List AuditRotatedFile)
    → any p (paths_of (sort_rotated fs)) ≡ any p (paths_of fs)
unfolding sort_rotated
any-sort_rotated p [] = refl
any-sort_rotated p (f ∷ fs) =
    any-insert_rotated p f (sort_rotated fs) ∙ ap (λ b. p f.path || b) (any-sort_rotated p fs)
