-- ===== src/Base/Fallible.antt =====
-- What a fallible call gives: a value, an error value `E`, or a run-time panic.
use mathlib.Core.Path.{◌≡◌, refl, ap}
use mathlib.Core.Option.{Option, none, some}

pub data Result {ℓ κ} (E : Type κ) (A : Type ℓ) : Type (ℓ ⊔ κ) where
  ok : A → Result E A
  err : E → Result E A
  panic : Result E A

infixl 5 ◌>>=◌
abbrev pub ◌>>=◌ {ℓ κ μ} :
    {E : Type κ} {A : Type ℓ} {B : Type μ} → Result E A → (A → Result E B) → Result E B
panic >>= next = panic
err why >>= next = err why
ok value >>= next = next value

abbrev pub or_err {ℓ κ} : {E : Type κ} {A : Type ℓ} → Option A → E → Result E A
or_err none e = err e
or_err (some a) e = ok a

module _ {ℓ κ μ} {E : Type κ} {A : Type ℓ} {B : Type μ} where
  -- A chain that gave a value gave one at its first call.
  pub >>=-eq-ok :
      (call : Result E A) (next : A → Result E B) {result : B}
      → (call >>= next) ≡ ok result
      → (value : A) × (call ≡ ok value) × (next value ≡ ok result)
  >>=-eq-ok panic next h = cc
  >>=-eq-ok (err why) next h = cc
  >>=-eq-ok (ok value) next h = (value, refl, h)

abbrev value_or {ℓ κ} : {E : Type κ} {A : Type ℓ} → A → Result E A → A
value_or d (ok a) = a
value_or d (err e) = d
value_or d panic = d

pub ok-injective {ℓ κ} :
    {E : Type κ} {A : Type ℓ} {a b : A} → ◌≡◌ {A = Result E A} (ok a) (ok b) → a ≡ b
ok-injective {a} h = ap (value_or a) h

-- What holds of the value of a call, if it gives one.
abbrev pub Holds {ℓ κ μ} : {E : Type κ} {A : Type ℓ} → (A → Type μ) → Result E A → Type μ
Holds P (ok a) = P a
Holds P (err e) = Unit
Holds P panic = Unit

module _ {ℓ κ μ} {E : Type κ} {A : Type ℓ} (P : A → Type μ) where
  pub Holds-ok : (m : Result E A) {a : A} → Holds P m → m ≡ ok a → P a
  Holds-ok m h e = rw e at h

  pub Holds-of : (m : Result E A) → ((a : A) → m ≡ ok a → P a) → Holds P m
  Holds-of (ok a) h = h a refl
  Holds-of (err e) h = tt
  Holds-of panic h = tt

pub Holds->>= {ℓ κ μ ν π} :
    {E : Type κ} {A : Type ℓ} {B : Type μ} (P : A → Type ν) (Q : B → Type π) (m : Result E A)
    (f : A → Result E B)
    → Holds P m
    → ((a : A) → P a → Holds Q (f a))
    → Holds Q (m >>= f)
Holds->>= P Q (ok a) f h k = k a h
Holds->>= P Q (err e) f h k = tt
Holds->>= P Q panic f h k = tt

pub Holds-× {ℓ κ μ ν} :
    {E : Type κ} {A : Type ℓ} (P : A → Type μ) (Q : A → Type ν) (m : Result E A)
    → Holds P m
    → Holds Q m
    → Holds (λ a. P a × Q a) m
Holds-× P Q (ok a) h k = (h, k)
Holds-× P Q (err e) h k = tt
Holds-× P Q panic h k = tt

-- A call that gives a value or an error.
abbrev pub Returns {ℓ κ} : {E : Type κ} {A : Type ℓ} → Result E A → Type 0
Returns (ok a) = Unit
Returns (err e) = Unit
Returns panic = ⊥

pub Returns->>= {ℓ κ μ ν} :
    {E : Type κ} {A : Type ℓ} {B : Type μ} (P : A → Type ν) (m : Result E A) (f : A → Result E B)
    → Returns m
    → Holds P m
    → ((a : A) → P a → Returns (f a))
    → Returns (m >>= f)
Returns->>= P (ok a) f r h k = k a h
Returns->>= P (err e) f r h k = tt
Returns->>= P panic f r h k = r
