-- ===== src/Base/Result.antt =====
-- A function that may raise: the value, or the exception.
use mathlib.Core.Path.{◌≡◌, refl, subst}
use mathlib.Core.Bool.{Bool, true, false}
use native.Mathlib.Omega.{arith}

pub data Result {ℓ} (E : Type 0) (A : Type ℓ) : Type ℓ where
  ok : A → Result E A
  err : E → Result E A

infixl 5 ◌>>=◌
abbrev pub ◌>>=◌ {ℓ κ} :
    {E : Type 0} {A : Type ℓ} {B : Type κ} → Result E A → (A → Result E B) → Result E B
ok a >>= k = k a
err e >>= k = err e

-- Inversion of a successful bind, for proofs where the parts stay shut.
pub >>=-eq-ok {ℓ κ} :
    {E : Type 0} {A : Type ℓ} {B : Type κ} (m : Result E A) (k : A → Result E B) {b : B}
    → (m >>= k) ≡ ok b
    → (a : A) × (m ≡ ok a) × (k a ≡ ok b)
>>=-eq-ok (ok a) k h = (a, refl, h)
>>=-eq-ok (err e) k h = cc

abbrev pub is_ok {ℓ} : {E : Type 0} {A : Type ℓ} → Result E A → Bool
is_ok (ok a) = true
is_ok (err e) = false

pub value_of_ok {ℓ} :
    {E : Type 0} {A : Type ℓ} (r : Result E A) → is_ok r ≡ true → (a : A) × (r ≡ ok a)
value_of_ok (ok a) h = (a, refl)
value_of_ok (err e) h = ground arith

pub bind_ext {ℓ κ} :
    {E : Type 0} {A : Type ℓ} {B : Type κ} (m : Result E A) (f g : A → Result E B)
    → ((a : A) → f a ≡ g a)
    → (m >>= f) ≡ (m >>= g)
bind_ext (ok a) f g h = h a
bind_ext (err e) f g h = refl

-- What a function returns has a property; nothing is said of an exception.
abbrev pub Ensures {ℓ κ} : {E : Type 0} {A : Type ℓ} → (A → Type κ) → Result E A → Type κ
Ensures P (ok a) = P a
Ensures P (err e) = Unit

pub Ensures-bind {ℓ κ ι} :
    {E : Type 0} {A : Type ℓ} {B : Type κ} (P : B → Type ι) (m : Result E A) (k : A → Result E B)
    → ((a : A) → m ≡ ok a → Ensures P (k a))
    → Ensures P (m >>= k)
Ensures-bind P (ok a) k h = h a refl
Ensures-bind P (err e) k h = tt

pub Ensures-returned {ℓ κ} :
    {E : Type 0} {A : Type ℓ} (P : A → Type κ) (r : Result E A) (a : A)
    → Ensures P r
    → r ≡ ok a
    → P a
Ensures-returned P r a h e = subst (Ensures P) e h

pub Ensures-then {ℓ κ ι} :
    {E : Type 0} {A : Type ℓ} {B : Type κ} (P : A → Type ι) (Q : B → Type ι) (m : Result E A)
    (k : A → Result E B)
    → Ensures P m
    → ((a : A) → P a → Ensures Q (k a))
    → Ensures Q (m >>= k)
Ensures-then P Q (ok a) k h n = n a h
Ensures-then P Q (err e) k h n = tt

-- What is returned has a property, and the state that a raise leaves has an invariant.
abbrev pub Leaves {ℓ} :
    {X S : Type 0} {A : Type ℓ} → (S → Type 0) → (A → Type 0) → Result (X × S) A → Type 0
Leaves I P (ok a) = P a
Leaves I P (err (e, s)) = I s

pub Leaves-bind {ℓ κ} :
    {X S : Type 0} {A : Type ℓ} {B : Type κ} (I : S → Type 0) (P : A → Type 0) (Q : B → Type 0)
    (m : Result (X × S) A) (k : A → Result (X × S) B)
    → Leaves I P m
    → ((a : A) → P a → Leaves I Q (k a))
    → Leaves I Q (m >>= k)
Leaves-bind I P Q (ok a) k h n = n a h
Leaves-bind I P Q (err (e, s)) k h n = h
