-- ===== src/Store/Exec.antt =====
-- A function of the code that runs statements and may return an error. What was written before an
-- error stays written, so the state comes back beside the error; `transaction` undoes it.
use auwsx.Common.{Bool, Result, ap, arith, err, false, is_ok, ok, refl, true, ◌≡◌}

abbrev pub Exec {ℓ κ μ} : Type ℓ → Type κ → Type μ → Type (ℓ ⊔ κ ⊔ μ)
Exec S E A = S → Result E A × S

module _ {ℓ κ μ} {S : Type ℓ} {E : Type κ} {A : Type μ} where
  abbrev pub pure : A → Exec S E A
  pure a s = (ok a, s)

  -- `bail!`
  abbrev pub raise : E → Exec S E A
  raise e s = (err e, s)

  abbrev pub lift : Result E A → Exec S E A
  lift r s = (r, s)

  abbrev pub gets : (S → A) → Exec S E A
  gets f s = (ok (f s), s)

  abbrev pub commit : S → Result E A → S → Result E A × S
  commit s (ok a) s' = (ok a, s')
  commit s (err e) s' = (err e, s)

  -- `pool.begin()` … `tx.commit()`: an error drops the transaction, which rolls it back
  abbrev pub transaction : Exec S E A → Exec S E A
  transaction m s = let (r, s') = m s in commit s r s'

  commit-err :
      (s s' : S) (r : Result E A)
      → is_ok r ≡ false
      → (is_ok (commit s r s').0 ≡ false) × ((commit s r s').1 ≡ s)
  commit-err s s' (ok a) h = ground arith
  commit-err s s' (err e) h = (refl, refl)

  commit-ok :
      (s s' : S) (r : Result E A)
      → is_ok (commit s r s').0 ≡ true
      → (is_ok r ≡ true) × ((commit s r s').1 ≡ s')
  commit-ok s s' (ok a) h = (refl, refl)
  commit-ok s s' (err e) h = ground arith

  -- A transaction that fails changes nothing, and one that succeeds is the body.
  pub transaction-err :
      (m : Exec S E A) (s : S)
      → is_ok (m s).0 ≡ false
      → (is_ok (transaction m s).0 ≡ false) × ((transaction m s).1 ≡ s)
  transaction-err m s h = commit-err s (m s).1 (m s).0 h

  pub transaction-ok :
      (m : Exec S E A) (s : S)
      → is_ok (transaction m s).0 ≡ true
      → (is_ok (m s).0 ≡ true) × ((transaction m s).1 ≡ (m s).1)
  transaction-ok m s h = commit-ok s (m s).1 (m s).0 h

module _ {ℓ κ μ ι} {S : Type ℓ} {E : Type κ} {A : Type μ} where
  commit-keeps : (P : S → Type ι) (s s' : S) (r : Result E A) → P s → P s' → P (commit s r s').1
  commit-keeps P s s' (ok a) h h' = h'
  commit-keeps P s s' (err e) h h' = h

  -- What holds before a transaction and is kept by its body holds after it.
  pub transaction-keeps :
      (P : S → Type ι) (m : Exec S E A) (s : S) → P s → P (m s).1 → P (transaction m s).1
  transaction-keeps P m s h h' = commit-keeps P s (m s).1 (m s).0 h h'

module _ {ℓ κ μ ν} {S : Type ℓ} {E : Type κ} {A : Type μ} {B : Type ν} where
  abbrev pub continue : Result E A → (A → Exec S E B) → Exec S E B
  continue (ok a) f s = f a s
  continue (err e) f s = (err e, s)

  infixl 5 ◌>>=◌
  abbrev pub ◌>>=◌ : Exec S E A → (A → Exec S E B) → Exec S E B
  ◌>>=◌ m f s = let (r, s') = m s in continue r f s'

  continue-pure :
      (f : A → B) (r : Result E A) (s : S)
      → (is_ok (continue r (λ a. pure (f a)) s).0 ≡ is_ok r)
        × ((continue r (λ a. pure (f a)) s).1 ≡ s)
  continue-pure f (ok a) s = (refl, refl)
  continue-pure f (err e) s = (refl, refl)

  -- Changing the value that is returned changes neither the success nor the state.
  pub >>=-pure :
      (f : A → B) (m : Exec S E A) (s : S)
      → (is_ok ((m >>= λ a. pure (f a)) s).0 ≡ is_ok (m s).0)
        × (((m >>= λ a. pure (f a)) s).1 ≡ (m s).1)
  >>=-pure f m s = continue-pure f (m s).0 (m s).1

module _ {ℓ κ μ ν ι} {S : Type ℓ} {E : Type κ} {A : Type μ} {B : Type ν} where
  continue-keeps :
      (P : S → Type ι) (r : Result E A) (f : A → Exec S E B) (s : S)
      → P s
      → ((a : A) → P (f a s).1)
      → P (continue r f s).1
  continue-keeps P (ok a) f s h k = k a
  continue-keeps P (err e) f s h k = h

  -- What holds of the state after the first part, and is kept by the second, holds after both.
  pub >>=-keeps :
      (P : S → Type ι) (m : Exec S E A) (f : A → Exec S E B) (s : S)
      → P (m s).1
      → ((a : A) → P (f a (m s).1).1)
      → P ((m >>= f) s).1
  >>=-keeps P m f s h k = continue-keeps P (m s).0 f (m s).1 h k

module _ {ℓ κ μ ν} {S : Type ℓ} {E : Type κ} {A : Type μ} {B : Type ν} where
  -- A part that succeeds hands on its value and its state.
  pub >>=-ok :
      (m : Exec S E A) (f : A → Exec S E B) {a : A} {s s' : S}
      → m s ≡ (ok a, s')
      → (m >>= f) s ≡ f a s'
  >>=-ok m f e = ap (λ (p : Result E A × S). continue p.0 f p.1) e

module _ {ℓ κ ν} {S : Type ℓ} {E : Type κ} {B : Type ν} where
  infixl 5 ◌>>◌
  abbrev pub ◌>>◌ : Exec S E (Unit {0}) → Exec S E B → Exec S E B
  m >> k = m >>= λ _. k

  -- A step that succeeds hands its state on.
  pub >>-ok :
      (m : Exec S E (Unit {0})) (k : Exec S E B) (s s' : S) → m s ≡ (ok tt, s') → (m >> k) s ≡ k s'
  >>-ok m k s s' e = ap (λ (p : Result E (Unit {0}) × S). continue p.0 (λ _. k) p.1) e

module _ {ℓ κ} {S : Type ℓ} {E : Type κ} where
  abbrev pub modify : (S → S) → Exec S E (Unit {0})
  modify f s = (ok tt, f s)

  -- `if !b { bail!(e) }`
  abbrev pub ensure : Bool → E → Exec S E (Unit {0})
  ensure true e s = (ok tt, s)
  ensure false e s = (err e, s)

-- The operation succeeds, and leaves a state with the property.
abbrev pub Goes {ℓ κ μ ι} :
    {S : Type ℓ} {E : Type κ} {A : Type μ} → (S → Type ι) → Exec S E A → S → Type ι
Goes Q m s = (is_ok (m s).0 ≡ true) × Q (m s).1

module _ {ℓ κ μ ν ι} {S : Type ℓ} {E : Type κ} {A : Type μ} {B : Type ν} where
  continue-Goes :
      (P Q : S → Type ι) (r : Result E A) (f : A → Exec S E B) (s : S)
      → is_ok r ≡ true
      → P s
      → ((a : A) (s' : S) → P s' → Goes Q (f a) s')
      → (is_ok (continue r f s).0 ≡ true) × Q (continue r f s).1
  continue-Goes P Q (ok a) f s h p k = k a s p
  continue-Goes P Q (err e) f s h p k = absurd (ground arith)

  -- A part that goes, before one that goes from whatever it leaves.
  pub >>=-Goes :
      (P Q : S → Type ι) (m : Exec S E A) (f : A → Exec S E B) (s : S)
      → Goes P m s
      → ((a : A) (s' : S) → P s' → Goes Q (f a) s')
      → Goes Q (m >>= f) s
  >>=-Goes P Q m f s (h, p) k = continue-Goes P Q (m s).0 f (m s).1 h p k

  continue-after :
      (P Q : S → Type ι) (r : Result E A) (f : A → Exec S E B) (s : S)
      → is_ok r ≡ true
      → P s
      → ((a : A) (s' : S) → P s' → Q (f a s').1)
      → Q (continue r f s).1
  continue-after P Q (ok a) f s h p k = k a s p
  continue-after P Q (err e) f s h p k = absurd (ground arith)

  -- A part that goes, before one that leaves a state with the property, whether it succeeds or not.
  pub >>=-after :
      (P Q : S → Type ι) (m : Exec S E A) (f : A → Exec S E B) (s : S)
      → Goes P m s
      → ((a : A) (s' : S) → P s' → Q (f a s').1)
      → Q ((m >>= f) s).1
  >>=-after P Q m f s (h, p) k = continue-after P Q (m s).0 f (m s).1 h p k
