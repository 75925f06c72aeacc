-- ===== src/Prelude/Results.antt =====
-- How a call of C code ends: it returns, it ends the process through `fatal_handler`, or its
-- behaviour is undefined.
use mathlib.Core.Path.{◌≡◌, refl, ap}

pub data Fault : Type 0 where
  null_dereference use_after_free out_of_bounds signed_overflow division_by_zero : Fault
  uninitialised_read : Fault

pub data Outcome {ℓ} (A : Type ℓ) : Type ℓ where
  done : A → Outcome A
  fatal : Outcome A
  undefined : Fault → Outcome A

infixl 5 ◌>>=◌
abbrev pub ◌>>=◌ {ℓ κ} : {A : Type ℓ} {B : Type κ} → Outcome A → (A → Outcome B) → Outcome B
done a >>= f = f a
fatal >>= f = fatal
undefined u >>= f = undefined u

pub >>=-eq-done {ℓ κ} :
    {A : Type ℓ} {B : Type κ} (m : Outcome A) (f : A → Outcome B) {b : B}
    → (m >>= f) ≡ done b
    → (a : A) × (m ≡ done a) × (f a ≡ done b)
>>=-eq-done (done a) f h = (a, refl, h)
>>=-eq-done fatal f h = cc
>>=-eq-done (undefined u) f h = cc

-- `P` holds of the value of a run that ends with one.
abbrev pub Always {ℓ} : {A : Type ℓ} → (A → Type 0) → Outcome A → Type 0
Always P (done a) = P a
Always P fatal = Unit
Always P (undefined u) = Unit

pub Always->>= {ℓ κ} :
    {A : Type ℓ} {B : Type κ} (P : A → Type 0) (Q : B → Type 0) (m : Outcome A) (f : A → Outcome B)
    → Always P m
    → ((a : A) → P a → Always Q (f a))
    → Always Q (m >>= f)
Always->>= P Q (done a) f h k = k a h
Always->>= P Q fatal f h k = h
Always->>= P Q (undefined u) f h k = h

pub Always-map {ℓ} :
    {A : Type ℓ} (P Q : A → Type 0) (m : Outcome A)
    → Always P m
    → ((a : A) → P a → Q a)
    → Always Q m
Always-map P Q (done a) h k = k a h
Always-map P Q fatal h k = h
Always-map P Q (undefined u) h k = h

pub done_inj {ℓ} : {A : Type ℓ} {a b : A} → done a ≡ done b → a ≡ b
done_inj {A = A} {a = a} e = ap (value a) e
  where
    value : A → Outcome A → A
    value d (done x) = x
    value d fatal = d
    value d (undefined u) = d

-- Two ways to go on that agree on what a step returns.
pub same_bind {ℓ} :
    {A : Type ℓ} {B : Type 0} (m : Outcome A) (f g : A → Outcome B)
    → Always (λ a. f a ≡ g a) m
    → (m >>= f) ≡ (m >>= g)
same_bind (done a) f g h = h
same_bind fatal f g h = refl
same_bind (undefined u) f g h = refl

-- What holds of everything holds of what a step returns.
pub Always-all {ℓ} : {A : Type ℓ} (P : A → Type 0) (m : Outcome A) → ((a : A) → P a) → Always P m
Always-all P (done a) h = h a
Always-all P fatal h = tt
Always-all P (undefined u) h = tt

-- Nothing is asked of what a step returns.
pub any_outcome {ℓ} : {A : Type ℓ} (m : Outcome A) → Always (λ a. Unit) m
any_outcome m = Always-all (λ a. Unit) m (λ a. tt)
