-- ===== src/Base/Sorting.antt =====
-- sort.Strings and sort.Slice by a name: insertion sort, which orders by bytes as Go compares strings.
use mathlib.Core.Path.{◌≡◌, refl}
use mathlib.Core.Logic.{inl, inr}
use mathlib.Core.Bool.{Bool, true, false, ◌&&◌, ◌||◌}
use mathlib.Core.List.{List, [], ◌∷◌, Perm}
use mathlib.Core.List.Perm
use native.Mathlib.Omega.{arith}
use cube_advisor_agent.Base.Tests.{ltb, nat_beq, if◌then◌else◌, Bool-cases}
use cube_advisor_agent.Base.Lists.{All}
use cube_advisor_agent.Base.Strings.{Bytes}

-- s <= t
unfoldable pub bytes_leb : Bytes → Bytes → Bool
bytes_leb [] t = true
bytes_leb (a ∷ s) [] = false
bytes_leb (a ∷ s) (b ∷ t) = ltb a b || nat_beq a b && bytes_leb s t

module _ {A : Type 0} (key : A → Bytes) where
  pub insert_by : A → List A → List A
  insert_by x [] = x ∷ []
  insert_by x (y ∷ ys) = if bytes_leb (key x) (key y) then x ∷ y ∷ ys else y ∷ insert_by x ys

  unfoldable pub sort_by : List A → List A
  unfolding insert_by bytes_leb
  sort_by [] = []
  sort_by (x ∷ xs) = insert_by x (sort_by xs)

  -- Every member is at most all that follow it.
  abbrev pub IsSortedBy : List A → Type 0
  IsSortedBy [] = Unit
  IsSortedBy (x ∷ xs) = All (λ y. bytes_leb (key x) (key y) ≡ true) xs × IsSortedBy xs

pub bytes_leb_total : (s t : Bytes) → bytes_leb s t ≡ false → bytes_leb t s ≡ true
unfolding bytes_leb
bytes_leb_total [] t h = cc
bytes_leb_total (a ∷ s) [] h = refl
bytes_leb_total (a ∷ s) (b ∷ t) h = ground (arith, bytes_leb_total s t)

pub bytes_leb_trans :
    (r s t : Bytes) → bytes_leb r s ≡ true → bytes_leb s t ≡ true → bytes_leb r t ≡ true
unfolding bytes_leb
bytes_leb_trans [] s t h k = refl
bytes_leb_trans (a ∷ r) [] t h k = cc
bytes_leb_trans (a ∷ r) (b ∷ s) [] h k = cc
bytes_leb_trans (a ∷ r) (b ∷ s) (c ∷ t) h k = ground (arith, bytes_leb_trans r s t)

module _ {A : Type 0} (key : A → Bytes) where
  above :
      (x y : A) (ys : List A)
      → bytes_leb (key x) (key y) ≡ true
      → All (λ z. bytes_leb (key y) (key z) ≡ true) ys
      → All (λ z. bytes_leb (key x) (key z) ≡ true) ys
  above x y [] h k = tt
  above x y (z ∷ zs) h (k, ks) = (bytes_leb_trans (key x) (key y) (key z) h k, above x y zs h ks)

  insert_by-All :
      (P : A → Type 0) (x : A) (ys : List A) → P x → All P ys → All P (insert_by key x ys)
  unfolding insert_by
  insert_by-All P x [] p h = (p, tt)
  insert_by-All P x (y ∷ ys) p (q, h) = elim (Bool-cases (bytes_leb (key x) (key y))) [
    | inl e ↦ rw e (p, (q, h))
    | inr e ↦ rw e (q, insert_by-All P x ys p h)
  ]

  insert_by-IsSortedBy :
      (x : A) (ys : List A) → IsSortedBy key ys → IsSortedBy key (insert_by key x ys)
  unfolding insert_by
  insert_by-IsSortedBy x [] h = (tt, tt)
  insert_by-IsSortedBy x (y ∷ ys) (h, hs) = elim (Bool-cases (bytes_leb (key x) (key y))) [
    | inl e ↦ rw e ((e, above x y ys e h), (h, hs))
    | inr e ↦ rw e (
      insert_by-All (λ z. bytes_leb (key y) (key z) ≡ true) x ys (bytes_leb_total (key x) (key y) e)
          h,
      insert_by-IsSortedBy x ys hs,
    )
  ]

  pub sort_by-IsSortedBy : (xs : List A) → IsSortedBy key (sort_by key xs)
  unfolding sort_by
  sort_by-IsSortedBy [] = tt
  sort_by-IsSortedBy (x ∷ xs) = insert_by-IsSortedBy x _ (sort_by-IsSortedBy xs)

  insert_by-perm : (x : A) (ys : List A) → Perm (insert_by key x ys) (x ∷ ys)
  unfolding insert_by
  insert_by-perm x [] = Perm.refl _
  insert_by-perm x (y ∷ ys) = elim (Bool-cases (bytes_leb (key x) (key y))) [
    | inl e ↦ rw e (Perm.refl _)
    | inr e ↦ rw e (Perm.trans (Perm.cons y (insert_by-perm x ys)) (Perm.swap x y ys))
  ]

  pub sort_by-perm : (xs : List A) → Perm (sort_by key xs) xs
  unfolding sort_by
  sort_by-perm [] = Perm.refl _
  sort_by-perm (x ∷ xs) =
      Perm.trans (insert_by-perm x (sort_by key xs)) (Perm.cons x (sort_by-perm xs))
