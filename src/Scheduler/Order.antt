-- ===== src/Scheduler/Order.antt =====
-- `sort_by_key` and `enumerate` keep the members of a list.
use mathlib.Core.List.Memᴰ
use auwsx.Common.{All, Bool-cases, List, Memᴰ, [], ap, inl, inr, refl, suc, ℕ, ◌∷◌}
use auwsx.Model.{Issue, Project, is_local}
use auwsx.Scheduler.{enumerate, insert_sorted, ordered, sort_by_key, sort_key_le}

All-insert :
    (P : ℕ × Issue → Type 0) (x : ℕ × Issue) (ys : List (ℕ × Issue))
    → P x
    → All P ys
    → All P (insert_sorted x ys)
unfolding insert_sorted
All-insert P x [] px h = (px, tt)
All-insert P x (y ∷ ys) px h = elim (Bool-cases (sort_key_le x y)) [
  | inl e ↦ rw e (px, h)
  | inr e ↦ rw e (h.0, All-insert P x ys px h.1)
]

All-sort : (P : ℕ × Issue → Type 0) (xs : List (ℕ × Issue)) → All P xs → All P (sort_by_key xs)
unfolding sort_by_key
All-sort P [] h = tt
All-sort P (x ∷ xs) h = All-insert P x (sort_by_key xs) h.0 (All-sort P xs h.1)

All-enumerate :
    (P : Issue → Type 0) (i : ℕ) (issues : List Issue)
    → All P issues
    → All (λ p. P p.1) (enumerate i issues)
unfolding enumerate
All-enumerate P i [] h = tt
All-enumerate P i (x ∷ xs) h = (h.0, All-enumerate P (suc i) xs h.1)

pub All-ordered :
    (P : Issue → Type 0) (project : Project) (issues : List Issue)
    → All P issues
    → All (λ p. P p.1) (ordered project issues)
unfolding ordered
All-ordered P project issues h = elim (Bool-cases (is_local project.merge_mode)) [
  | inl e ↦ rw e (All-sort (λ p. P p.1) (enumerate 0 issues) (All-enumerate P 0 issues h))
  | inr e ↦ rw e (All-enumerate P 0 issues h)
]

mem-insert_self : (x : ℕ × Issue) (ys : List (ℕ × Issue)) → Memᴰ x (insert_sorted x ys)
unfolding insert_sorted
mem-insert_self x [] = Memᴰ.head refl
mem-insert_self x (y ∷ ys) = elim (Bool-cases (sort_key_le x y)) [
  | inl e ↦ rw e (Memᴰ.head refl)
  | inr e ↦ rw e (Memᴰ.tail (mem-insert_self x ys))
]

mem-insert_other :
    (x : ℕ × Issue) {z : ℕ × Issue} (ys : List (ℕ × Issue))
    → Memᴰ z ys
    → Memᴰ z (insert_sorted x ys)
unfolding insert_sorted
mem-insert_other x [] m = elim m [ ]
mem-insert_other x (y ∷ ys) (Memᴰ.head e) = elim (Bool-cases (sort_key_le x y)) [
  | inl le ↦ rw le (Memᴰ.tail (Memᴰ.head e))
  | inr gt ↦ rw gt (Memᴰ.head e)
]
mem-insert_other x (y ∷ ys) (Memᴰ.tail m) = elim (Bool-cases (sort_key_le x y)) [
  | inl le ↦ rw le (Memᴰ.tail (Memᴰ.tail m))
  | inr gt ↦ rw gt (Memᴰ.tail (mem-insert_other x ys m))
]

mem-sort : {z : ℕ × Issue} (xs : List (ℕ × Issue)) → Memᴰ z xs → Memᴰ z (sort_by_key xs)
unfolding sort_by_key
mem-sort [] m = elim m [ ]
mem-sort (x ∷ xs) (Memᴰ.head e) = Memᴰ.cast e (mem-insert_self x (sort_by_key xs))
mem-sort (x ∷ xs) (Memᴰ.tail m) = mem-insert_other x (sort_by_key xs) (mem-sort xs m)

mem-enumerate :
    (i : ℕ) {issue : Issue} (issues : List Issue)
    → Memᴰ issue issues
    → (j : ℕ) × Memᴰ (j, issue) (enumerate i issues)
unfolding enumerate
mem-enumerate i [] m = elim m [ ]
mem-enumerate i (x ∷ xs) (Memᴰ.head e) = (i, Memᴰ.head (ap (λ y. (i, y)) e))
mem-enumerate i (x ∷ xs) (Memᴰ.tail m) =
    let (j, at) = mem-enumerate (suc i) xs m in (j, Memᴰ.tail at)

pub mem-ordered :
    (project : Project) {issue : Issue} (issues : List Issue)
    → Memᴰ issue issues
    → (j : ℕ) × Memᴰ (j, issue) (ordered project issues)
unfolding ordered
mem-ordered project issues m =
    let (j, at) = mem-enumerate 0 issues m in
    elim (Bool-cases (is_local project.merge_mode)) [
      | inl e ↦ (j, rw e (mem-sort (enumerate 0 issues) at))
      | inr e ↦ (j, rw e at)
    ]
