-- ===== src/Prelude/Except.antt =====
-- A function that may throw: its value, or the text of the exception.
use mathlib.Core.Bool.{Bool, true, false}
use spy_socket.Prelude.Tests.{if◌then◌else◌}
use mathlib.Core.Path.{◌≡◌, subst}
use spy_socket.Prelude.Text.{Bytes}

pub data Except {ℓ} (A : Type ℓ) : Type ℓ where
  ok : A → Except A
  throw : Bytes → Except A

infixl 5 ◌>>=◌ ◌>>◌
abbrev pub ◌>>=◌ {ℓ κ} : {A : Type ℓ} {B : Type κ} → Except A → (A → Except B) → Except B
ok a >>= f = f a
throw e >>= f = throw e

abbrev pub ◌>>◌ {ℓ} : {B : Type ℓ} → Except (Unit {0}) → Except B → Except B
m >> k = m >>= λ _. k

-- The value, if there is one, has the property.
abbrev pub Ensures {ℓ κ} : {A : Type ℓ} → (A → Type κ) → Except A → Type κ
Ensures P (ok a) = P a
Ensures P (throw e) = Unit

pub Ensures-bind {ℓ κ λ₁ λ₂} :
    {A : Type ℓ} {B : Type κ} (P : A → Type λ₁) (Q : B → Type λ₂) (m : Except A) (f : A → Except B)
    → Ensures P m
    → ((a : A) → P a → Ensures Q (f a))
    → Ensures Q (m >>= f)
Ensures-bind P Q (ok a) f h k = k a h
Ensures-bind P Q (throw e) f h k = tt

pub Ensures-ok {ℓ κ} :
    {A : Type ℓ} (P : A → Type κ) (m : Except A) (a : A) → Ensures P m → m ≡ ok a → P a
Ensures-ok P m a h e = subst (Ensures P) e h

pub Ensures-if {ℓ κ} :
    {A : Type ℓ} (P : A → Type κ) (b : Bool) (m k : Except A)
    → Ensures P m
    → Ensures P k
    → Ensures P (if b then m else k)
Ensures-if P true m k h g = h
Ensures-if P false m k h g = g
