-- ===== src/Ipc/Notes.antt =====
-- What may change in a table of notes, that is of subtasks or of findings.
use auwsx.Common.{
  ==_iff, All, Bool-cases, List, [], ap, arith, contains, false, if◌then◌else◌, inl, inr, map, refl,
  sym, true, ℕ, ◌++◌, ◌==◌, ◌∙◌, ◌∷◌, ◌≡◌,
}
use auwsx.Store.Table.{update_where}

map-append : {A B : Type 0} (f : A → B) (xs ys : List A) → map f (xs ++ ys) ≡ map f xs ++ map f ys
map-append f [] ys = refl
map-append f (x ∷ xs) ys = ap (λ t. f x ∷ t) (map-append f xs ys)

map-map :
    {A B C : Type 0} (g : B → C) (f : A → B) (xs : List A)
    → map g (map f xs) ≡ map (λ x. g (f x)) xs
map-map g f [] = refl
map-map g f (x ∷ xs) = ap (λ t. g (f x) ∷ t) (map-map g f xs)

map-nothing : {A : Type 0} (xs : List A) → map (λ x. x) xs ≡ xs
map-nothing [] = refl
map-nothing (x ∷ xs) = ap (λ t. x ∷ t) (map-nothing xs)

append_assoc : {A : Type 0} (xs ys zs : List A) → (xs ++ ys) ++ zs ≡ xs ++ (ys ++ zs)
append_assoc [] ys zs = refl
append_assoc (x ∷ xs) ys zs = ap (λ t. x ∷ t) (append_assoc xs ys zs)

append-nothing : {A : Type 0} (xs : List A) → xs ++ [] ≡ xs
append-nothing [] = refl
append-nothing (x ∷ xs) = ap (λ t. x ∷ t) (append-nothing xs)

module _ {Row : Type 0} (id_of issue_of : Row → ℕ) where
  -- Rows with one of these ids may have changed, but not the id or the issue of a row; there may be
  -- new rows of this issue; and all other rows are as they were, in their order.
  abbrev pub RowsWithin : List ℕ → ℕ → List Row → List Row → Type 0
  RowsWithin allowed issue before after =
      (f : Row → Row) × (added : List Row) × ((r : Row)
        → (id_of (f r) ≡ id_of r) × (issue_of (f r) ≡ issue_of r))
      × ((r : Row) → contains allowed (id_of r) ≡ false → f r ≡ r)
      × (after ≡ map f before ++ added)
      × All (λ r. issue_of r ≡ issue) added

  pub RowsWithin-refl :
      (allowed : List ℕ) (issue : ℕ) (rows : List Row) → RowsWithin allowed issue rows rows
  RowsWithin-refl allowed issue rows = (
    λ r. r,
    [],
    λ r. (refl, refl),
    λ r out. refl,
    sym (ap (λ t. t ++ []) (map-nothing rows) ∙ append-nothing rows),
    tt,
  )

  All-changed :
      (issue : ℕ) (g : Row → Row) (rows more : List Row)
      → ((r : Row) → issue_of (g r) ≡ issue_of r)
      → All (λ r. issue_of r ≡ issue) rows
      → All (λ r. issue_of r ≡ issue) more
      → All (λ r. issue_of r ≡ issue) (map g rows ++ more)
  All-changed issue g [] more keeps h hm = hm
  All-changed issue g (r ∷ rows) more keeps h hm =
      (keeps r ∙ h.0, All-changed issue g rows more keeps h.1 hm)

  pub RowsWithin-trans :
      (allowed : List ℕ) (issue : ℕ) (a b c : List Row)
      → RowsWithin allowed issue a b
      → RowsWithin allowed issue b c
      → RowsWithin allowed issue a c
  RowsWithin-trans allowed issue a b c (f, n, fk, fo, fe, fa) (g, m, gk, go, ge, ga) = (
    λ r. g (f r),
    map g n ++ m,
    λ r. ((gk (f r)).0 ∙ (fk r).0, (gk (f r)).1 ∙ (fk r).1),
    λ r out. go (f r) (ap (contains allowed) (fk r).0 ∙ out) ∙ fo r out,
    ge
        ∙ ap (λ t. map g t ++ m) fe
        ∙ ap (λ t. t ++ m) (map-append g (map f a) n)
        ∙ append_assoc (map g (map f a)) (map g n) m
        ∙ ap (λ t. t ++ (map g n ++ m)) (map-map g f a),
    All-changed issue g n m (λ r. (gk r).1) fa ga,
  )

  changed_at : ℕ → (Row → Row) → Row → Row
  changed_at row h r = if id_of r == row then h r else r

  update-map :
      (row : ℕ) (h : Row → Row) (rows : List Row)
      → update_where (λ r. id_of r == row) h rows ≡ map (changed_at row h) rows
  unfolding update_where changed_at
  update-map row h [] = refl
  update-map row h (r ∷ rows) = elim (Bool-cases (id_of r == row)) [
    | inl e ↦ rw (e, update-map row h rows) refl
    | inr e ↦ rw (e, update-map row h rows) refl
  ]

  changed-keeps :
      (row : ℕ) (h : Row → Row) (r : Row)
      → ((x : Row) → (id_of (h x) ≡ id_of x) × (issue_of (h x) ≡ issue_of x))
      → (id_of (changed_at row h r) ≡ id_of r) × (issue_of (changed_at row h r) ≡ issue_of r)
  unfolding changed_at
  changed-keeps row h r keeps = elim (Bool-cases (id_of r == row)) [
    | inl e ↦ rw e (keeps r)
    | inr e ↦ rw e (refl, refl)
  ]

  changed-other :
      (allowed : List ℕ) (row : ℕ) (h : Row → Row) (r : Row)
      → contains allowed row ≡ true
      → contains allowed (id_of r) ≡ false
      → changed_at row h r ≡ r
  unfolding changed_at
  changed-other allowed row h r inside outside = elim (Bool-cases (id_of r == row)) [
    | inl e ↦
        let clash : true ≡ false =
          sym inside ∙ ap (contains allowed) (sym ((==_iff (id_of r) row).0 e)) ∙ outside in
        absurd (ground arith)
    | inr e ↦ rw e refl
  ]

  pub RowsWithin-update :
      (allowed : List ℕ) (issue row : ℕ) (h : Row → Row) (rows : List Row)
      → contains allowed row ≡ true
      → ((x : Row) → (id_of (h x) ≡ id_of x) × (issue_of (h x) ≡ issue_of x))
      → RowsWithin allowed issue rows (update_where (λ r. id_of r == row) h rows)
  RowsWithin-update allowed issue row h rows inside keeps = (
    changed_at row h,
    [],
    λ r. changed-keeps row h r keeps,
    λ r out. changed-other allowed row h r inside out,
    update-map row h rows ∙ sym (append-nothing (map (changed_at row h) rows)),
    tt,
  )

  pub RowsWithin-add :
      (allowed : List ℕ) (issue : ℕ) (row : Row) (rows : List Row)
      → issue_of row ≡ issue
      → RowsWithin allowed issue rows (rows ++ row ∷ [])
  RowsWithin-add allowed issue row rows own = (
    λ r. r,
    row ∷ [],
    λ r. (refl, refl),
    λ r out. refl,
    ap (λ t. t ++ row ∷ []) (sym (map-nothing rows)),
    (own, tt),
  )
