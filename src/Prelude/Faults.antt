-- ===== src/Prelude/Faults.antt =====
-- Operations that can fault: what holds of the result, the absence of a fault included.
use Prim.Native.Nat.{ℕ, zero, suc, ◌<◌}
use mathlib.Core.Path.{◌≡◌, refl, ap}
use mathlib.Core.Option
use mathlib.Core.Option.{Option, none, some}
use mathlib.Core.List.{List, [], ◌∷◌}
use mathlib.Core.Bool.{Bool, true, false}
use native.Mathlib.Omega.{arith}
use external_servo.Prelude.Tests.{◌>>=◌, if◌then◌else◌}
use external_servo.Prelude.Lists.{length, get_elem?, set?}

-- The operation yields a value, and `P` holds of it.
pub data Holds {ℓ κ} {A : Type ℓ} (P : A → Type κ) : Option A → Type (ℓ ⊔ κ) where
  yields : {a : A} → P a → Holds P (some a)

pub Holds-bind {ℓ κ ν μ} :
    {A : Type ℓ} {B : Type ν} {P : A → Type κ} {Q : B → Type μ} {o : Option A} {f : A → Option B}
    → Holds P o
    → ((a : A) → P a → Holds Q (f a))
    → Holds Q (o >>= f)
Holds-bind (yields p) next = next _ p

pub Holds-if {ℓ κ} :
    {A : Type ℓ} {P : A → Type κ} (b : Bool) {o o' : Option A}
    → Holds P o
    → Holds P o'
    → Holds P (if b then o else o')
Holds-if true h h' = h
Holds-if false h h' = h'

pub Holds-weaken {ℓ κ ν} :
    {A : Type ℓ} {P : A → Type κ} {Q : A → Type ν} {o : Option A}
    → Holds P o
    → ((a : A) → P a → Q a)
    → Holds Q o
Holds-weaken (yields p) f = yields (f _ p)

pub Holds-map {ℓ κ ν μ} :
    {A : Type ℓ} {B : Type ν} {P : A → Type κ} {Q : B → Type μ} {o : Option A} (f : A → B)
    → Holds P o
    → ((a : A) → P a → Q (f a))
    → Holds Q (Option.map f o)
Holds-map f (yields p) g = yields (g _ p)

pub read_in {ℓ} :
    {A : Type ℓ} (xs : List A) (i : ℕ)
    → i < length xs
    → Holds (λ a. get_elem? xs i ≡ some a) (get_elem? xs i)
read_in [] i h = absurd (omega arith)
read_in (x ∷ xs) zero h = yields refl
read_in (x ∷ xs) (suc i) h = read_in xs i (omega arith)

pub write_in {ℓ} :
    {A : Type ℓ} (xs : List A) (i : ℕ) (v : A)
    → i < length xs
    → Holds (λ ys. length ys ≡ length xs) (set? xs i v)
write_in [] i v h = absurd (omega arith)
write_in (x ∷ xs) zero v h = yields refl
write_in (x ∷ xs) (suc i) v h = Holds-map (◌∷◌ x) (write_in xs i v (omega arith)) (λ ys e. ap suc e)

pub result {ℓ κ} :
    {A : Type ℓ} {P : A → Type κ} {o : Option A} → Holds P o → (a : A) × (o ≡ some a) × P a
result (yields p) = (_, refl, p)

pub Holds-both {ℓ κ ν} :
    {A : Type ℓ} {P : A → Type κ} {Q : A → Type ν} {o : Option A}
    → Holds P o
    → Holds Q o
    → Holds (λ a. P a × Q a) o
Holds-both (yields p) (yields q) = yields (p, q)

-- `P` holds of the value, if there is one.
pub data Every {ℓ κ} {A : Type ℓ} (P : A → Type κ) : Option A → Type (ℓ ⊔ κ) where
  missing : Every P none
  there : {a : A} → P a → Every P (some a)

pub Every-bind {ℓ κ ν μ} :
    {A : Type ℓ} {B : Type ν} {P : A → Type κ} {Q : B → Type μ} {o : Option A} {f : A → Option B}
    → Every P o
    → ((a : A) → P a → Every Q (f a))
    → Every Q (o >>= f)
Every-bind missing next = missing
Every-bind (there p) next = next _ p

pub Holds-Every {ℓ κ} : {A : Type ℓ} {P : A → Type κ} {o : Option A} → Holds P o → Every P o
Holds-Every (yields p) = there p

pub always {ℓ} : {A : Type ℓ} (o : Option A) → Every (λ a. Unit {0}) o
always none = missing
always (some a) = there tt
