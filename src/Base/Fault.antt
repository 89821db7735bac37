-- ===== src/Base/Fault.antt =====
-- Code that may fault (a null dereference, a throwing `at`, a division by 0): `none` is the fault.
use mathlib.Core.Path.{◌≡◌, refl}
use mathlib.Core.Option.{Option, none, some}
use mathlib.Core.Bool.{Bool, true, false}
use bifrost_sdk.Base.Tests.{if◌then◌else◌}

infixl 5 ◌>>=◌
abbrev pub ◌>>=◌ {ℓ κ} : {A : Type ℓ} {B : Type κ} → Option A → (A → Option B) → Option B
none >>= f = none
some a >>= f = f a

-- The run does not fault, and its result has the property.
abbrev pub Returns {ℓ} : {A : Type ℓ} → Option A → (A → Type 0) → Type 0
Returns none P = ⊥
Returns (some a) P = P a

pub Returns-bind {ℓ κ} :
    {A : Type ℓ} {B : Type κ} (m : Option A) (f : A → Option B) (P : A → Type 0) (Q : B → Type 0)
    → Returns m P
    → ((a : A) → m ≡ some a → P a → Returns (f a) Q)
    → Returns (m >>= f) Q
Returns-bind none f P Q h k = absurd h
Returns-bind (some a) f P Q h k = k a refl h

pub Returns-map {ℓ} :
    {A : Type ℓ} (m : Option A) (P Q : A → Type 0)
    → Returns m P
    → ((a : A) → P a → Q a)
    → Returns m Q
Returns-map none P Q h k = absurd h
Returns-map (some a) P Q h k = k a h

pub Returns-some {ℓ} :
    {A : Type ℓ} (m : Option A) (P : A → Type 0) → Returns m P → (a : A) × (m ≡ some a) × P a
Returns-some none P h = absurd h
Returns-some (some a) P h = (a, refl, h)

pub Returns-eq {ℓ} :
    {A : Type ℓ} {m : Option A} {a : A} → m ≡ some a → (P : A → Type 0) → Returns m P → P a
Returns-eq e P h = rw e at h

pub Returns-both {ℓ} :
    {A : Type ℓ} (m : Option A) (P Q : A → Type 0)
    → Returns m P
    → Returns m Q
    → Returns m (λ a. P a × Q a)
Returns-both none P Q h k = h
Returns-both (some a) P Q h k = (h, k)

-- Unless the run faults, its result has the property.
abbrev pub Ensures {ℓ} : {A : Type ℓ} → Option A → (A → Type 0) → Type 0
Ensures none P = Unit {0}
Ensures (some a) P = P a

pub Ensures-bind {ℓ κ} :
    {A : Type ℓ} {B : Type κ} (m : Option A) (f : A → Option B) (Q : B → Type 0)
    → Ensures m (λ a. Ensures (f a) Q)
    → Ensures (m >>= f) Q
Ensures-bind none f Q h = tt
Ensures-bind (some a) f Q h = h

pub Ensures-Returns {ℓ} : {A : Type ℓ} (m : Option A) (P : A → Type 0) → Returns m P → Ensures m P
Ensures-Returns none P h = absurd h
Ensures-Returns (some a) P h = h

pub Ensures-map {ℓ} :
    {A : Type ℓ} (m : Option A) (P Q : A → Type 0)
    → Ensures m P
    → ((a : A) → m ≡ some a → P a → Q a)
    → Ensures m Q
Ensures-map none P Q h k = tt
Ensures-map (some a) P Q h k = k a refl h

pub Ensures-eq {ℓ} :
    {A : Type ℓ} {m : Option A} {a : A} → m ≡ some a → (P : A → Type 0) → Ensures m P → P a
Ensures-eq e P h = rw e at h

pub Ensures-all {ℓ} : {A : Type ℓ} (m : Option A) (P : A → Type 0) → ((a : A) → P a) → Ensures m P
Ensures-all none P h = tt
Ensures-all (some a) P h = h a

pub Ensures-if {ℓ} :
    {A : Type ℓ} (b : Bool) (m n : Option A) (P : A → Type 0)
    → (b ≡ true → Ensures m P)
    → (b ≡ false → Ensures n P)
    → Ensures (if b then m else n) P
Ensures-if true m n P h k = h refl
Ensures-if false m n P h k = k refl
