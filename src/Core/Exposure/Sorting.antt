-- ===== src/Core/Exposure/Sorting.antt =====
-- The insertion sort that stands for `Array.prototype.sort` in packages/core/src/exposure.ts.
use mathlib.Core.List.{Perm}
use mathlib.Core.List.Perm
use arkade_taxi.Prelude.{◌≡◌, ◌≢◌, refl, ◌⊎◌, inl, inr, List, [], ◌∷◌, arith, All}
use arkade_taxi.Core.Types.{Advance}
use arkade_taxi.Core.Exposure.{Sign, before, same, after, then_by, insert_by, sort_by}
use arkade_taxi.Core.Exposure.Order.{IsConsistent}

after-cases : (s : Sign) → (s ≡ after) ⊎ (s ≢ after)
after-cases after = inl refl
after-cases before = inr (λ e. cc)
after-cases same = inr (λ e. cc)

module _ (cmp : Advance → Advance → Sign) where
  -- No entry comes after a later one.
  abbrev pub IsOrdered : List Advance → Type 0
  IsOrdered [] = Unit
  IsOrdered (x ∷ xs) = All (λ y. cmp x y ≢ after) xs × IsOrdered xs

  insert_behind :
      (x y : Advance) (ys : List Advance)
      → cmp x y ≡ after
      → insert_by cmp x (y ∷ ys) ≡ y ∷ insert_by cmp x ys
  unfolding insert_by
  insert_behind x y ys e = rw (e, insert_by)

  insert_front :
      (x y : Advance) (ys : List Advance) → cmp x y ≢ after → insert_by cmp x (y ∷ ys) ≡ x ∷ y ∷ ys
  unfolding insert_by
  insert_front x y ys h = ground arith

  insert_by-perm : (x : Advance) (xs : List Advance) → Perm (insert_by cmp x xs) (x ∷ xs)
  unfolding insert_by
  insert_by-perm x [] = Perm.refl _
  insert_by-perm x (y ∷ ys) = elim (after-cases (cmp x y)) [
    | inl e ↦
        rw (insert_behind x y ys e)
          (Perm.trans (Perm.cons y (insert_by-perm x ys)) (Perm.swap x y ys))
    | inr h ↦ rw (insert_front x y ys h) (Perm.refl _)
  ]

  pub sort_by-perm : (xs : List Advance) → Perm (sort_by cmp xs) xs
  unfolding sort_by
  sort_by-perm [] = Perm.refl _
  sort_by-perm (x ∷ xs) =
      Perm.trans (insert_by-perm x (sort_by cmp xs)) (Perm.cons x (sort_by-perm xs))

module _ (cmp : Advance → Advance → Sign) (c : IsConsistent cmp) where
  not_after : (x y z : Advance) → cmp x y ≢ after → cmp y z ≢ after → cmp x z ≢ after
  not_after x y z h k = rw (c.chain x y z h k) (combine (cmp x y) (cmp y z) h k)
    where
      combine : (a b : Sign) → a ≢ after → b ≢ after → then_by a b ≢ after
      combine before b h k = λ e. cc
      combine same b h k = k
      combine after b h k = absurd (h refl)

  All-not_after :
      (x y : Advance) (ys : List Advance)
      → cmp x y ≢ after
      → All (λ z. cmp y z ≢ after) ys
      → All (λ z. cmp x z ≢ after) ys
  All-not_after x y [] h k = tt
  All-not_after x y (z ∷ ys) h (kz, k) = (not_after x y z h kz, All-not_after x y ys h k)

  All-insert_by :
      (w x : Advance) (ys : List Advance)
      → cmp w x ≢ after
      → All (λ z. cmp w z ≢ after) ys
      → All (λ z. cmp w z ≢ after) (insert_by cmp x ys)
  unfolding insert_by
  All-insert_by w x [] h k = (h, tt)
  All-insert_by w x (y ∷ ys) h (ky, k) = elim (after-cases (cmp x y)) [
    | inl e ↦ rw (insert_behind cmp x y ys e) (ky, All-insert_by w x ys h k)
    | inr f ↦ rw (insert_front cmp x y ys f) (h, (ky, k))
  ]

  behind : (x y : Advance) → cmp x y ≡ after → cmp y x ≢ after
  behind x y e = rw (c.flip x y, e) (λ f. cc)

  insert_by-IsOrdered :
      (x : Advance) (ys : List Advance) → IsOrdered cmp ys → IsOrdered cmp (insert_by cmp x ys)
  unfolding insert_by
  insert_by-IsOrdered x [] h = (tt, tt)
  insert_by-IsOrdered x (y ∷ ys) (below, h) = elim (after-cases (cmp x y)) [
    | inl e ↦
        rw (insert_behind cmp x y ys e)
          (All-insert_by y x ys (behind x y e) below, insert_by-IsOrdered x ys h)
    | inr f ↦ rw (insert_front cmp x y ys f) ((f, All-not_after x y ys f below), (below, h))
  ]

  pub sort_by-IsOrdered : (xs : List Advance) → IsOrdered cmp (sort_by cmp xs)
  unfolding sort_by
  sort_by-IsOrdered [] = tt
  sort_by-IsOrdered (x ∷ xs) = insert_by-IsOrdered x (sort_by cmp xs) (sort_by-IsOrdered xs)
