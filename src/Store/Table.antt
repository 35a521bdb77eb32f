-- ===== src/Store/Table.antt =====
-- Statements on one table.
use mathlib.Core.Option.{some-injective}
use auwsx.Common.{
  All, Bool, Bool-cases, List, Memᴰ, [], arith, false, filter, find, if◌then◌else◌, inl, inr,
  is_some, leb, not, refl, some, subst, sym, true, ℕ, ◌+◌, ◌==◌, ◌∷◌, ◌≡◌,
}

module _ {ℓ} {A : Type ℓ} where
  -- UPDATE … SET … WHERE
  unfoldable pub update_where : (A → Bool) → (A → A) → List A → List A
  update_where p f [] = []
  update_where p f (x ∷ xs) = (if p x then f x else x) ∷ update_where p f xs

  -- DELETE … WHERE
  unfoldable pub delete_where : (A → Bool) → List A → List A
  delete_where p [] = []
  delete_where p (x ∷ xs) = let rest = delete_where p xs in if p x then rest else x ∷ rest

  -- SELECT COUNT(*) … WHERE, and `rows_affected` of an UPDATE or a DELETE
  unfoldable pub count_where : (A → Bool) → List A → ℕ
  count_where p [] = 0
  count_where p (x ∷ xs) = (if p x then 1 else 0) + count_where p xs

  unfoldable pub insert_by : (A → ℕ) → A → List A → List A
  insert_by key x [] = x ∷ []
  insert_by key x (y ∷ ys) =
      let rest = insert_by key x ys in if leb (key x) (key y) then x ∷ y ∷ ys else y ∷ rest

  -- ORDER BY key
  unfoldable pub order_by : (A → ℕ) → List A → List A
  unfolding insert_by
  order_by key [] = []
  order_by key (x ∷ xs) = insert_by key x (order_by key xs)

  -- A statement that selects no row changes nothing.
  pub update_none :
      (p : A → Bool) (f : A → A) (xs : List A) → count_where p xs ≡ 0 → update_where p f xs ≡ xs
  unfolding update_where count_where
  update_none p f [] h = refl
  update_none p f (x ∷ xs) h = ground (arith, update_none p f xs)

  -- What holds of every row, and is kept by the change where the row is selected, holds after it.
  pub All-update {κ} :
      (P Q : A → Type κ) (p : A → Bool) (f : A → A) (xs : List A)
      → ((x : A) → P x → p x ≡ true → Q (f x))
      → ((x : A) → P x → p x ≡ false → Q x)
      → All P xs
      → All Q (update_where p f xs)
  unfolding update_where
  All-update P Q p f [] hit miss h = tt
  All-update P Q p f (x ∷ xs) hit miss h = elim (Bool-cases (p x)) [
    | inl e ↦ rw e (hit x h.0 e, All-update P Q p f xs hit miss h.1)
    | inr e ↦ rw e (miss x h.0 e, All-update P Q p f xs hit miss h.1)
  ]

  pub All-delete {κ} :
      (P : A → Type κ) (p : A → Bool) (xs : List A) → All P xs → All P (delete_where p xs)
  unfolding delete_where
  All-delete P p [] h = tt
  All-delete P p (x ∷ xs) h = elim (Bool-cases (p x)) [
    | inl e ↦ rw e (All-delete P p xs h.1)
    | inr e ↦ rw e (h.0, All-delete P p xs h.1)
  ]

  pub All-filter {κ} :
      (P : A → Type κ) (p : A → Bool) (xs : List A)
      → All P xs
      → All (λ x. P x × (p x ≡ true)) (filter p xs)
  unfolding filter
  All-filter P p [] h = tt
  All-filter P p (x ∷ xs) h = elim (Bool-cases (p x)) [
    | inl e ↦ rw e ((h.0, e), All-filter P p xs h.1)
    | inr e ↦ rw e (All-filter P p xs h.1)
  ]

  pub All-insert_by {κ} :
      (P : A → Type κ) (key : A → ℕ) (x : A) (ys : List A)
      → P x
      → All P ys
      → All P (insert_by key x ys)
  unfolding insert_by
  All-insert_by P key x [] px h = (px, tt)
  All-insert_by P key x (y ∷ ys) px h = elim (Bool-cases (leb (key x) (key y))) [
    | inl e ↦ rw e (px, h)
    | inr e ↦ rw e (h.0, All-insert_by P key x ys px h.1)
  ]

  pub All-order_by {κ} :
      (P : A → Type κ) (key : A → ℕ) (xs : List A) → All P xs → All P (order_by key xs)
  unfolding order_by
  All-order_by P key [] h = tt
  All-order_by P key (x ∷ xs) h =
      All-insert_by P key x (order_by key xs) h.0 (All-order_by P key xs h.1)

  -- A row that is found is a row of the table, and passes the test.
  pub find-Memᴰ :
      (p : A → Bool) (xs : List A) {x : A} → find p xs ≡ some x → Memᴰ x xs × (p x ≡ true)
  unfolding find
  find-Memᴰ p [] h = cc
  find-Memᴰ p (y ∷ ys) {x} h = elim (Bool-cases (p y)) [
    | inl e ↦
        let q : some y ≡ some x = rw e at h in
        let same = some-injective y x q in (Memᴰ.head (sym same), subst (λ z. p z ≡ true) same e)
    | inr e ↦ let (m, t) = find-Memᴰ p ys (rw e at h) in (Memᴰ.tail m, t)
  ]

  -- A test finds a row exactly if it selects some row.
  pub find-count : (p : A → Bool) (xs : List A) → is_some (find p xs) ≡ not (count_where p xs == 0)
  unfolding find count_where
  find-count p [] = refl
  find-count p (x ∷ xs) = ground (arith, find-count p xs)

  -- The selected row, after an update that leaves it selected.
  pub find-update :
      (p : A → Bool) (f : A → A) (xs : List A)
      → ((x : A) → p x ≡ true → p (f x) ≡ true)
      → {x : A} → find p xs ≡ some x
      → find p (update_where p f xs) ≡ some (f x)
  unfolding find update_where
  find-update p f [] keeps h = cc
  find-update p f (y ∷ ys) keeps {x} h = elim (Bool-cases (p y)) [
    | inl e ↦ let q : some y ≡ some x = rw e at h in rw (e, keeps y e, some-injective y x q) refl
    | inr e ↦ rw (e, e) (find-update p f ys keeps (rw e at h))
  ]

  -- A count of no row is a count of rows that all fail the test.
  pub count-none :
      (p : A → Bool) (xs : List A) → (count_where p xs == 0) ≡ true → All (λ x. p x ≡ false) xs
  unfolding count_where
  count-none p [] h = tt
  count-none p (x ∷ xs) h = elim (Bool-cases (p x)) [
    | inl e ↦ absurd (let clash = rw e at h in ground arith)
    | inr e ↦ (e, count-none p xs (ground (arith, e)))
  ]

  -- A change that keeps the test on every row keeps the number of rows that pass it.
  pub count-update :
      (p q : A → Bool) (f : A → A) (xs : List A)
      → ((x : A) → p (f x) ≡ p x)
      → count_where p (update_where q f xs) ≡ count_where p xs
  unfolding count_where update_where
  count-update p q f [] keeps = refl
  count-update p q f (x ∷ xs) keeps = elim (Bool-cases (q x)) [
    | inl e ↦ rw (e, keeps x, count-update p q f xs keeps) refl
    | inr e ↦ rw (e, count-update p q f xs keeps) refl
  ]
