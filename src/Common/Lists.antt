-- ===== src/Common/Lists.antt =====
-- Lists over the native numbers: lengths, Boolean quantifiers, membership of an id, subsequences.
use Prim.Native.Nat.{suc, ℕ, ◌+◌}
use mathlib.Core.Logic.{inl, inr}
use mathlib.Core.Path.{refl, subst, sym, ◌≡◌}
use mathlib.Core.Bool.{Bool, false, true, ◌&&◌, ◌||◌}
use mathlib.Core.Option.{Option, none, some}
use mathlib.Core.List.{List, Memᴰ, [], ◌++◌, ◌∷◌}
use native.Mathlib.Omega.{arith}
use auwsx.Common.Tests.{Bool-cases, if◌then◌else◌, ◌==◌}

module _ {ℓ} {A : Type ℓ} where
  abbrev pub length : List A → ℕ
  length [] = 0
  length (x ∷ xs) = suc (length xs)

  -- `Iterator::any`, `all`, `filter`, `find`
  unfoldable pub any : (A → Bool) → List A → Bool
  any p [] = false
  any p (x ∷ xs) = p x || any p xs

  unfoldable pub all : (A → Bool) → List A → Bool
  all p [] = true
  all p (x ∷ xs) = p x && all p xs

  unfoldable pub filter : (A → Bool) → List A → List A
  filter p [] = []
  filter p (x ∷ xs) = let rest = filter p xs in if p x then x ∷ rest else rest

  unfoldable pub find : (A → Bool) → List A → Option A
  find p [] = none
  find p (x ∷ xs) = let rest = find p xs in if p x then some x else rest

  pub length-append : (xs ys : List A) → length (xs ++ ys) ≡ length xs + length ys
  length-append [] ys = omega arith
  length-append (x ∷ xs) ys = omega (arith, length-append xs ys)

-- `contains` of a set of ids that is kept as a list
unfoldable pub contains : List ℕ → ℕ → Bool
unfolding any
contains ids id = any (λ x. x == id) ids

-- The first list is a subsequence of the second.
pub data Subseq {ℓ} {A : Type ℓ} : List A → List A → Type ℓ where
  stop : {ys : List A} → Subseq [] ys
  keep : {x : A} {xs ys : List A} → Subseq xs ys → Subseq (x ∷ xs) (x ∷ ys)
  skip : {y : A} {xs ys : List A} → Subseq xs ys → Subseq xs (y ∷ ys)

pub Subseq-tail {ℓ} : {A : Type ℓ} {x : A} {xs ys : List A} → Subseq (x ∷ xs) ys → Subseq xs ys
Subseq-tail (keep s) = skip s
Subseq-tail (skip s) = skip (Subseq-tail s)

-- Every member of the list has the property.
abbrev pub All {ℓ κ} : {A : Type ℓ} → (A → Type κ) → List A → Type κ
All P [] = Unit
All P (x ∷ xs) = P x × All P xs

pub All-append {ℓ κ} :
    {A : Type ℓ} (P : A → Type κ) (xs ys : List A) → All P xs → All P ys → All P (xs ++ ys)
All-append P [] ys hx hy = hy
All-append P (x ∷ xs) ys hx hy = (hx.0, All-append P xs ys hx.1 hy)

pub All-map {ℓ κ μ} :
    {A : Type ℓ} (P : A → Type κ) (Q : A → Type μ) (xs : List A)
    → ((x : A) → P x → Q x)
    → All P xs
    → All Q xs
All-map P Q [] f h = tt
All-map P Q (x ∷ xs) f h = (f x h.0, All-map P Q xs f h.1)

-- Membership in the list, and what holds of all members.
pub All-Memᴰ {ℓ κ} :
    {A : Type ℓ} (P : A → Type κ) (xs : List A) → ((x : A) → Memᴰ x xs → P x) → All P xs
All-Memᴰ P [] f = tt
All-Memᴰ P (x ∷ xs) f = (f x (Memᴰ.head refl), All-Memᴰ P xs (λ y m. f y (Memᴰ.tail m)))

pub All-at {ℓ κ} : {A : Type ℓ} (P : A → Type κ) (xs : List A) {x : A} → All P xs → Memᴰ x xs → P x
All-at P [] h m = elim m [ ]
All-at P (y ∷ ys) h (Memᴰ.head e) = subst P (sym e) h.0
All-at P (y ∷ ys) h (Memᴰ.tail m) = All-at P ys h.1 m

-- The test `any` passes exactly if some member passes.
pub any_at {ℓ} :
    {A : Type ℓ} (p : A → Bool) (xs : List A) {x : A} → Memᴰ x xs → p x ≡ true → any p xs ≡ true
unfolding any
any_at p [] m h = elim m [ ]
any_at p (y ∷ ys) {x} (Memᴰ.head e) h = rw (← e, h) refl
any_at p (y ∷ ys) {x} (Memᴰ.tail m) h = ground (arith, any_at p ys m h)

pub any_none {ℓ} :
    {A : Type ℓ} (p : A → Bool) (xs : List A) {x : A} → Memᴰ x xs → any p xs ≡ false → p x ≡ false
any_none p xs {x} m h = elim (Bool-cases (p x)) [ inl e ↦ cc (any_at p xs m e) | inr e ↦ e ]
