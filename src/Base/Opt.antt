-- ===== src/Base/Opt.antt =====
-- `do` blocks over `Option`: `none` is a fault (a read past a buffer, a null pointer, an abort).
use mathlib.Core.Path.{◌≡◌, refl, ap, ◌∙◌, subst}
use mathlib.Core.Bool.{Bool, true, false}
use mathlib.Core.Option.{Option, none, some}
use so_2c_2023_no_me_queme.Base.Tests.{if◌then◌else◌}

infixl 5 ◌>>=◌ ◌>>◌
abbrev pub ◌>>=◌ {ℓ κ} : {A : Type ℓ} {B : Type κ} → Option A → (A → Option B) → Option B
none >>= f = none
some a >>= f = f a

abbrev pub ◌>>◌ {ℓ} : {B : Type ℓ} → Option (Unit {0}) → Option B → Option B
m >> k = m >>= λ _. k

abbrev pub guard : Bool → Option (Unit {0})
guard true = some tt
guard false = none

pub >>=-eq-some {ℓ κ} :
    {A : Type ℓ} {B : Type κ} (m : Option A) (f : A → Option B) {b : B}
    → (m >>= f) ≡ some b
    → (a : A) × (m ≡ some a) × (f a ≡ some b)
>>=-eq-some none f h = cc
>>=-eq-some (some a) f h = (a, refl, h)

-- Every result there is has a property.
abbrev pub Todo {ℓ κ} : {A : Type ℓ} → (A → Type κ) → Option A → Type κ
Todo P none = Unit
Todo P (some a) = P a

pub Todo->>= {ℓ κ μ} :
    {A : Type ℓ} {B : Type κ} (P : B → Type μ) (o : Option A) (f : A → Option B)
    → ((a : A) → o ≡ some a → Todo P (f a))
    → Todo P (o >>= f)
Todo->>= P none f h = tt
Todo->>= P (some a) f h = h a refl

pub Todo-some {ℓ κ} :
    {A : Type ℓ} (P : A → Type κ) (o : Option A) {a : A} → o ≡ some a → Todo P o → P a
Todo-some P o e t = subst (Todo P) e t

pub Todo-map {ℓ κ μ} :
    {A : Type ℓ} (P : A → Type κ) (Q : A → Type μ) (o : Option A)
    → ((a : A) → P a → Q a)
    → Todo P o
    → Todo Q o
Todo-map P Q none h t = tt
Todo-map P Q (some a) h t = h a t

pub si-Todo {ℓ κ} :
    {A : Type ℓ} (P : A → Type κ) (b : Bool) (x y : Option A)
    → Todo P x
    → Todo P y
    → Todo P (if b then x else y)
si-Todo P true x y hx hy = hx
si-Todo P false x y hx hy = hy

pub Todo-todos {ℓ κ} :
    {A : Type ℓ} (P : A → Type κ) (o : Option A) → ((a : A) → o ≡ some a → P a) → Todo P o
Todo-todos P none h = tt
Todo-todos P (some a) h = h a refl

-- A bind whose first part has a result goes on with it.
pub some->>= {ℓ κ} :
    {A : Type ℓ} {B : Type κ} (m : Option A) (f : A → Option B) {a : A} {r : Option B}
    → m ≡ some a
    → f a ≡ r
    → (m >>= f) ≡ r
some->>= m f e h = ap (λ o. o >>= f) e ∙ h
