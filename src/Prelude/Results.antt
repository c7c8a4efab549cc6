-- ===== src/Prelude/Results.antt =====
-- A chain of steps that may be refused, with the reason.
use newsintel.Prelude.{Bool, true, false, if◌then◌else◌, subst}
use mathlib.Core.Path.{◌≡◌, refl}

pub data Verdict {ℓ κ} (Reason : Type ℓ) (Value : Type κ) : Type (ℓ ⊔ κ) where
  granted : Value → Verdict Reason Value
  refused : Reason → Verdict Reason Value

-- The first refusal ends the chain.
infixl 5 ◌>>=◌
abbrev pub ◌>>=◌ {ℓ κ κ'} :
    {Reason : Type ℓ} {Value : Type κ} {Next : Type κ'}
    → Verdict Reason Value
    → (Value → Verdict Reason Next)
    → Verdict Reason Next
granted v >>= step = step v
refused why >>= step = refused why

-- What holds of the value, if there is one.
abbrev pub Ensures {ℓ κ κ'} : {E : Type ℓ} {A : Type κ} → (A → Type κ') → Verdict E A → Type κ'
Ensures P (granted a) = P a
Ensures P (refused e) = Unit

pub Ensures->>= {ℓ κ κ' ι ι'} :
    {E : Type ℓ} {A : Type κ} {B : Type κ'} (P : A → Type ι) (Q : B → Type ι') (m : Verdict E A)
    (f : A → Verdict E B)
    → Ensures P m
    → ((a : A) → P a → Ensures Q (f a))
    → Ensures Q (m >>= f)
Ensures->>= P Q (granted a) f h k = k a h
Ensures->>= P Q (refused e) f h k = tt

pub Ensures-if {ℓ κ ι} :
    {E : Type ℓ} {A : Type κ} (P : A → Type ι) (b : Bool) (m n : Verdict E A)
    → (b ≡ true → Ensures P m)
    → (b ≡ false → Ensures P n)
    → Ensures P (if b then m else n)
Ensures-if P true m n h k = h refl
Ensures-if P false m n h k = k refl

pub Ensures-map {ℓ κ ι ι'} :
    {E : Type ℓ} {A : Type κ} (P : A → Type ι) (Q : A → Type ι') (m : Verdict E A)
    → ((a : A) → P a → Q a)
    → Ensures P m
    → Ensures Q m
Ensures-map P Q (granted a) f h = f a h
Ensures-map P Q (refused e) f h = tt

pub Ensures-granted {ℓ κ ι} :
    {E : Type ℓ} {A : Type κ} (P : A → Type ι) (m : Verdict E A) (a : A)
    → Ensures P m
    → m ≡ granted a
    → P a
Ensures-granted P m a h e = subst (Ensures P) e h

pub Ensures-then {ℓ κ κ' ι} :
    {E : Type ℓ} {A : Type κ} {B : Type κ'} (Q : B → Type ι) (m : Verdict E A) (f : A → Verdict E B)
    → ((a : A) → Ensures Q (f a))
    → Ensures Q (m >>= f)
Ensures-then Q (granted a) f k = k a
Ensures-then Q (refused e) f k = tt
