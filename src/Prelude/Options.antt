-- ===== src/Prelude/Options.antt =====
-- `do` blocks on options: `none` is an exception that has been raised.
use mathlib.Core.Bool.{Bool, true, false}
use mathlib.Core.Option.{Option, none, some}

infixl 5 ◌>>=◌
abbrev pub ◌>>=◌ {ℓ κ} : {A : Type ℓ} {B : Type κ} → Option A → (A → Option B) → Option B
none >>= f = none
some a >>= f = f a

-- whether an exception is allowed for
abbrev pub Fails : (strict : Bool) → Type 0
Fails true = ⊥
Fails false = Unit

-- If a value is there it has the property, and with `strict` a value is there.
abbrev pub Post {ℓ} : {A : Type ℓ} → (strict : Bool) → (A → Type 0) → Option A → Type 0
Post strict P none = Fails strict
Post strict P (some a) = P a

abbrev pub Returns {ℓ} : {A : Type ℓ} → (A → Type 0) → Option A → Type 0
Returns = Post true

abbrev pub Keeps {ℓ} : {A : Type ℓ} → (A → Type 0) → Option A → Type 0
Keeps = Post false

-- A value that is there, and nothing said of it.
abbrev pub Defined {ℓ} : {A : Type ℓ} → (strict : Bool) → Option A → Type 0
Defined strict m = Post strict (λ _. Unit) m

pub >>=-Post {ℓ κ} :
    {A : Type ℓ} {B : Type κ} (strict : Bool) (P : A → Type 0) (Q : B → Type 0) (m : Option A)
    (f : A → Option B)
    → Post strict P m
    → ((a : A) → P a → Post strict Q (f a))
    → Post strict Q (m >>= f)
>>=-Post true P Q none f h k = absurd h
>>=-Post false P Q none f h k = tt
>>=-Post strict P Q (some a) f h k = k a h

pub Post-Keeps {ℓ} :
    {A : Type ℓ} (strict : Bool) (P : A → Type 0) (m : Option A)
    → Defined strict m
    → Keeps P m
    → Post strict P m
Post-Keeps strict P none h k = h
Post-Keeps strict P (some a) h k = k

pub Defined-lax {ℓ} : {A : Type ℓ} (m : Option A) → Defined false m
Defined-lax none = tt
Defined-lax (some a) = tt

pub Post-map {ℓ} :
    {A : Type ℓ} (strict : Bool) (P Q : A → Type 0) (m : Option A)
    → ((a : A) → P a → Q a)
    → Post strict P m
    → Post strict Q m
Post-map strict P Q none f h = h
Post-map strict P Q (some a) f h = f a h
