-- ===== src/Base/Errors.antt =====
-- The exceptions that the modelled code raises (src/pyDE1/exceptions.py and Python's own), calls
-- that return a value or raise, and methods that change their object and may raise.
use mathlib.Core.Path.{◌≡◌, refl, subst}
use mathlib.Core.Logic.{◌⊎◌, inl, inr}
use mathlib.Core.Option.{Option, none, some}
use mathlib.Core.List.{List, [], ◌∷◌}
use py_de.Base.Lists.{All}

pub data Error : Type 0 where
  struct_error value_error type_error attribute_error not_implemented_error key_error : Error
  unicode_decode_error index_error zero_division_error statistics_error : Error
  de1_api_value_error de1_api_type_error de1_api_too_many_frames_error : Error
  profile_validation_error profile_validation_error_json de1_api_attribute_error : Error
  mmr_type_error mmr_value_error mmr_data_too_long_error de1_value_error : Error

pub data Result {ℓ} (A : Type ℓ) : Type ℓ where
  ok : A → Result A
  err : Error → Result A

-- `f` is applied to the value, if there is one.
abbrev pub and_then {ℓ κ} : {A : Type ℓ} {B : Type κ} → Result A → (A → Result B) → Result B
and_then (ok a) f = f a
and_then (err e) f = err e

-- A method of an object with state `S`: the state that it leaves behind, also where it raises, and
-- the exception that it raises.
abbrev pub Method {ℓ} : Type ℓ → Type ℓ
Method S = S → S × Option Error

module _ {ℓ} {S : Type ℓ} where
  abbrev pub assign : (S → S) → Method S
  assign f s = (f s, none)

  abbrev pub raise : Error → Method S
  raise e s = (s, some e)

  abbrev pub continue : Option Error → Method S → Method S
  continue none m s = m s
  continue (some e) m s = (s, some e)

  infixl 5 ◌>>◌
  -- The statements of a body, one after the other, up to the first that raises.
  abbrev pub ◌>>◌ : Method S → Method S → Method S
  ◌>>◌ m n s = let (s', e) = m s in continue e n s'

  -- `cls()`: the object that `__init__` leaves behind, if it does not raise.
  abbrev pub finish : S × Option Error → Result S
  finish (s, none) = ok s
  finish (s, some e) = err e

infixl 5 ◌>>=◌
-- A value that the rest of the body uses.
abbrev pub ◌>>=◌ {ℓ κ} : {A : Type ℓ} {S : Type κ} → Result A → (A → Method S) → Method S
ok a >>= f = f a
err e >>= f = raise e

-- Inversion of a successful step.
pub and_then-eq-ok {ℓ κ} :
    {A : Type ℓ} {B : Type κ} (m : Result A) (f : A → Result B) {b : B}
    → and_then m f ≡ ok b
    → (a : A) × (m ≡ ok a) × (f a ≡ ok b)
and_then-eq-ok (ok a) f h = (a, refl, h)
and_then-eq-ok (err e) f h = cc

pub Result-cases {ℓ} :
    {A : Type ℓ} (r : Result A) → ((a : A) × (r ≡ ok a)) ⊎ ((e : Error) × (r ≡ err e))
Result-cases (ok a) = inl (a, refl)
Result-cases (err e) = inr (e, refl)

pub ok-injective {ℓ} : {A : Type ℓ} {a b : A} → ok a ≡ ok b → a ≡ b
ok-injective h = cc

-- A method keeps `P`, whether it raises or not.
abbrev pub Keeps {ℓ κ} : {S : Type ℓ} → (S → Type κ) → Method S → Type (ℓ ⊔ κ)
Keeps P m = (s : _) → P s → P (m s).0

module _ {ℓ κ} {S : Type ℓ} (P : S → Type κ) where
  Keeps-continue : (e : Option Error) (n : Method S) → Keeps P n → Keeps P (continue e n)
  Keeps-continue none n k = k
  Keeps-continue (some e) n k = λ s p. p

module _ {ℓ κ} {S : Type ℓ} (P : S → Type κ) where
  pub Keeps-then : (m n : Method S) → Keeps P m → Keeps P n → Keeps P (m >> n)
  Keeps-then m n km kn s p = Keeps-continue P (m s).1 n kn (m s).0 (km s p)

  pub Keeps-finish : (m : Method S) (s s' : S) → Keeps P m → P s → finish (m s) ≡ ok s' → P s'
  Keeps-finish m s s' k p e = go (m s) (k s p) e
    where
      go : (r : S × Option Error) → P r.0 → finish r ≡ ok s' → P s'
      go (r, none) q f = subst P (ok-injective f) q
      go (r, some x) q f = absurd (cc)

module _ {ℓ} {F V S : Type ℓ} (set : F → V → Method S) where
  -- `self.f = v` for each pair, in order, up to the first that raises.
  abbrev pub set_all : List (F × V) → Method S
  set_all [] s = (s, none)
  set_all ((f, v) ∷ r) s = (set f v >> set_all r) s

module _ {ℓ κ} {F V S : Type ℓ} (set : F → V → Method S) (P : S → Type κ) (Q : F → V → Type κ) where
  pub Keeps-set_all :
      ((f : F) (v : V) → Q f v → Keeps P (set f v))
      → (r : List (F × V)) → All (λ p. Q p.0 p.1) r
      → Keeps P (set_all set r)
  Keeps-set_all k [] q s p = p
  Keeps-set_all k ((f, v) ∷ r) q s p =
      Keeps-then P (set f v) (set_all set r) (k f v q.0) (Keeps-set_all k r q.1) s p
