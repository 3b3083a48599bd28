-- ===== src/Base/Ensures.antt =====
-- What holds after a method that has not raised.
use mathlib.Core.Path.{◌≡◌, refl}
use mathlib.Core.Option.{Option, none, some}
use mathlib.Core.Bool.{Bool, true, false}
use py_de.Base.Tests.{if◌then◌else◌}
use py_de.Base.Errors.{Error, Result, ok, err, Method, assign, raise, continue, ◌>>◌, ◌>>=◌}

-- From a state with `P`, a method that does not raise leaves one with `Q`.
pub record Ensures {ℓ κ} {S : Type ℓ} (P : S → Type κ) (m : Method S) (Q : S → Type κ)
    : Type (ℓ ⊔ κ) where
  pub after : (s : S) → P s → (m s).1 ≡ none → Q (m s).0

module _ {ℓ κ} {S : Type ℓ} where
  pub Ensures-assign :
      {P Q : S → Type κ} (f : S → S) → ((s : S) → P s → Q (f s)) → Ensures P (assign f) Q
  Ensures-assign f h = record { after = λ s p e. h s p }

  pub Ensures-raise : {P Q : S → Type κ} (x : Error) → Ensures P (raise x) Q
  Ensures-raise x = record { after = λ s p e. absurd (let h : some x ≡ none = e in cc) }

  pub Ensures-then :
      {P R : S → Type κ} (Q : S → Type κ) (m n : Method S)
      → Ensures P m Q
      → Ensures Q n R
      → Ensures P (m >> n) R
  Ensures-then {P} {R} Q m n hm hn = record { after = λ s p e. go (m s) (hm.after s p) e }
    where
      go :
          (r : S × Option Error)
          → (r.1 ≡ none → Q r.0)
          → (continue r.1 n r.0).1 ≡ none
          → R (continue r.1 n r.0).0
      go (t, none) q e = hn.after t (q refl) e
      go (t, some x) q e = absurd (let h : some x ≡ none = e in cc)

  pub Ensures-if :
      {P Q : S → Type κ} (b : Bool) (m n : Method S)
      → Ensures P m Q
      → Ensures P n Q
      → Ensures P (if b then m else n) Q
  Ensures-if true m n hm hn = hm
  Ensures-if false m n hm hn = hn

module _ {ℓ κ μ} {S : Type ℓ} {A : Type μ} where
  pub Ensures-bind :
      {P Q : S → Type κ} (r : Result A) (f : A → Method S)
      → ((a : A) → r ≡ ok a → Ensures P (f a) Q)
      → Ensures P (r >>= f) Q
  Ensures-bind (ok a) f h = h a refl
  Ensures-bind (err x) f h = Ensures-raise x
