-- ===== src/Common/Runs.antt =====
-- What a piece of C++ code does: it returns a value, or goes wrong in one of three ways.
use mathlib.Core.Path.{◌≡◌, refl, ap}
use mathlib.Core.Logic.{◌≢◌}

-- `fault` is undefined behaviour (an access outside a buffer), `abort` is a failed `assert`, and
-- `out_of_fuel` says that a loop of the model used up its fuel.
pub data Exec {ℓ} (A : Type ℓ) : Type ℓ where
  done : A → Exec A
  fault abort out_of_fuel : Exec A

infixl 5 ◌>>=◌
abbrev pub ◌>>=◌ {ℓ κ} : {A : Type ℓ} {B : Type κ} → Exec A → (A → Exec B) → Exec B
done a >>= f = f a
fault >>= f = fault
abort >>= f = abort
out_of_fuel >>= f = out_of_fuel

pub >>=_assoc {ℓ κ μ} :
    {A : Type ℓ} {B : Type κ} {C : Type μ} (m : Exec A) (f : A → Exec B) (g : B → Exec C)
    → ((m >>= f) >>= g) ≡ (m >>= λ a. f a >>= g)
>>=_assoc (done a) f g = refl
>>=_assoc _ f g = refl

-- Inversion of a run that returns.
pub >>=-eq-done {ℓ κ} :
    {A : Type ℓ} {B : Type κ} (m : Exec A) (f : A → Exec B) {b : B}
    → (m >>= f) ≡ done b
    → (a : A) × (m ≡ done a) × (f a ≡ done b)
>>=-eq-done (done a) f h = (a, refl, h)
>>=-eq-done fault f h = cc
>>=-eq-done abort f h = cc
>>=-eq-done out_of_fuel f h = cc

pub >>=_cong {ℓ κ} :
    {A : Type ℓ} {B : Type κ} (m : Exec A) (f g : A → Exec B)
    → ((a : A) → f a ≡ g a)
    → (m >>= f) ≡ (m >>= g)
>>=_cong (done a) f g h = h a
>>=_cong fault f g h = refl
>>=_cong abort f g h = refl
>>=_cong out_of_fuel f g h = refl

-- A run ends if its first part does, and the rest after each result of it.
pub >>=-ends {ℓ κ} :
    {A : Type ℓ} {B : Type κ} (m : Exec A) (f : A → Exec B)
    → m ≢ out_of_fuel
    → ((a : A) → m ≡ done a → f a ≢ out_of_fuel)
    → (m >>= f) ≢ out_of_fuel
>>=-ends (done a) f h k = k a refl
>>=-ends fault f h k = λ e. cc
>>=-ends abort f h k = λ e. cc
>>=-ends out_of_fuel f h k = λ e. h refl

pub >>=_cong_done {ℓ κ} :
    {A : Type ℓ} {B : Type κ} (m : Exec A) (f g : A → Exec B)
    → ((a : A) → m ≡ done a → f a ≡ g a)
    → (m >>= f) ≡ (m >>= g)
>>=_cong_done (done a) f g h = h a refl
>>=_cong_done fault f g h = refl
>>=_cong_done abort f g h = refl
>>=_cong_done out_of_fuel f g h = refl

pub done_inj {ℓ} : {A : Type ℓ} (a b : A) → done a ≡ done b → a ≡ b
done_inj a b e = ap (λ m. elim m [ done x ↦ x | fault ↦ a | abort ↦ a | out_of_fuel ↦ a ]) e

pub >>=_done {ℓ} : {A : Type ℓ} (m : Exec A) → (m >>= done) ≡ m
>>=_done (done a) = refl
>>=_done fault = refl
>>=_done abort = refl
>>=_done out_of_fuel = refl
