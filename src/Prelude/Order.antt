-- ===== src/Prelude/Order.antt =====
-- Python's `sorted` on texts: by code points, which is the native order of texts.
use Prim.Native.Nat.{Ordering}
use Prim.Native.String.{String, compare}
use mathlib.Core.Path.{◌≡◌, refl}
use mathlib.Core.Bool.{◌||◌}
use mathlib.Core.List.{List, [], ◌∷◌}
use native.Mathlib.Omega.{arith}
use text.Mathlib.Text.{◌==◌}
use text.Mathlib.TextEquality.{eq_iff, path_by_compare}
use meetings.Prelude.Lists.{elem}

insert : String → List String → List String
insert x [] = x ∷ []
insert x (y ∷ ys) =
    let rest = y ∷ insert x ys in elim (compare x y) [ Ordering.gt ↦ rest | _ ↦ x ∷ y ∷ ys ]

-- sorted(xs), for a list
unfoldable pub sorted : List String → List String
unfolding insert
sorted [] = []
sorted (x ∷ xs) = insert x (sorted xs)

insert_new : String → List String → List String
insert_new x [] = x ∷ []
insert_new x (y ∷ ys) =
    let rest = y ∷ insert_new x ys in
    elim (compare x y) [ Ordering.lt ↦ x ∷ y ∷ ys | Ordering.eq ↦ y ∷ ys | Ordering.gt ↦ rest ]

-- sorted(set(xs)): each text once
unfoldable pub sorted_set : List String → List String
unfolding insert_new
sorted_set [] = []
sorted_set (x ∷ xs) = insert_new x (sorted_set xs)

elem-insert : (x y : String) (ys : List String) → elem x (insert y ys) ≡ (x == y || elem x ys)
unfolding insert
elem-insert x y [] = refl
elem-insert x y (z ∷ ys) = ground (arith, elem-insert x y ys)

pub elem-sorted : (x : String) (xs : List String) → elem x (sorted xs) ≡ elem x xs
unfolding sorted
elem-sorted x [] = refl
elem-sorted x (y ∷ xs) = ground (arith, elem-insert x y (sorted xs), elem-sorted x xs)

elem-insert_new :
    (x y : String) (ys : List String) → elem x (insert_new y ys) ≡ (x == y || elem x ys)
unfolding insert_new
elem-insert_new x y [] = refl
elem-insert_new x y (z ∷ ys) =
    ground (arith, elem-insert_new x y ys, path_by_compare y z, eq_iff x y, eq_iff x z)

pub elem-sorted_set : (x : String) (xs : List String) → elem x (sorted_set xs) ≡ elem x xs
unfolding sorted_set
elem-sorted_set x [] = refl
elem-sorted_set x (y ∷ xs) =
    ground (arith, elem-insert_new x y (sorted_set xs), elem-sorted_set x xs)
