-- ===== src/Common/Outcomes.antt =====
-- What holds of every result of a run.
use mqtt_broker.Common.Runs.{Exec, done, fault, done_inj, ◌>>=◌, >>=-eq-done}
use mqtt_broker.Common.Tests.{if◌then◌else◌}
use mathlib.Core.Path.{◌≡◌, refl, subst}
use mathlib.Core.Bool.{Bool, true, false}
use mathlib.Core.Option.{Option, none, some}

-- Every result of a run has a property.
abbrev pub Leaves : {A : Type 0} → (A → Type 0) → Exec A → Type 0
Leaves {A} P m = (a : A) → m ≡ done a → P a

pub Leaves-done : {A : Type 0} (P : A → Type 0) (a : A) → P a → Leaves P (done a)
Leaves-done P a h b e = subst P (done_inj a b e) h

pub Leaves-bind :
    {A B : Type 0} (Q : A → Type 0) (P : B → Type 0) (m : Exec A) (k : A → Exec B)
    → Leaves Q m
    → ((a : A) → Q a → Leaves P (k a))
    → Leaves P (m >>= k)
Leaves-bind Q P m k h hk b e = let (a, p, q) = >>=-eq-done m k e in hk a (h a p) b q

-- A run of which nothing is known but that it returned.
pub Leaves-then :
    {A B : Type 0} (P : B → Type 0) (m : Exec A) (k : A → Exec B)
    → ((a : A) → Leaves P (k a))
    → Leaves P (m >>= k)
Leaves-then P m k hk b e = let (a, p, q) = >>=-eq-done m k e in hk a b q

pub Leaves-if :
    {A : Type 0} (P : A → Type 0) (c : Bool) (x y : Exec A)
    → Leaves P x
    → Leaves P y
    → Leaves P (if c then x else y)
Leaves-if P true x y h k = h
Leaves-if P false x y h k = k

pub Leaves-fault : {A : Type 0} (P : A → Type 0) → Leaves P fault
Leaves-fault P a e = cc

pub Leaves-if-eq :
    {A : Type 0} (P : A → Type 0) (c : Bool) (x y : Exec A)
    → (c ≡ true → Leaves P x)
    → (c ≡ false → Leaves P y)
    → Leaves P (if c then x else y)
Leaves-if-eq P true x y h k = h refl
Leaves-if-eq P false x y h k = k refl

pub Leaves-option-eq :
    {X A : Type 0} (P : A → Type 0) (o : Option X) (x : Exec A) (k : X → Exec A)
    → (o ≡ none → Leaves P x)
    → ((v : X) → o ≡ some v → Leaves P (k v))
    → Leaves P (elim o [ none ↦ x | some v ↦ k v ])
Leaves-option-eq P none x k h hk = h refl
Leaves-option-eq P (some v) x k h hk = hk v refl

pub Leaves-option :
    {X A : Type 0} (P : A → Type 0) (o : Option X) (x : Exec A) (k : X → Exec A)
    → Leaves P x
    → ((v : X) → Leaves P (k v))
    → Leaves P (elim o [ none ↦ x | some v ↦ k v ])
Leaves-option P o x k h hk = Leaves-option-eq P o x k (λ e. h) (λ v e. hk v)
