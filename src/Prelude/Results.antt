-- ===== src/Prelude/Results.antt =====
-- Rust's `Result`, with a third outcome for what a run must never reach: a panic (an index that is
-- not there, an arithmetic underflow) or a loop that has used up its fuel.
use mathlib.Core.Path.{◌≡◌, refl, ap}
use mathlib.Core.Logic.{◌≢◌}
use mathlib.Core.Bool.{Bool, true, false}

pub data Outcome {ℓ κ} (E : Type ℓ) (A : Type κ) : Type (ℓ ⊔ κ) where
  ok : A → Outcome E A
  err : E → Outcome E A
  fault : Outcome E A

infixl 5 ◌>>=◌ ◌>>◌
-- The operator `?` of Rust.
abbrev pub ◌>>=◌ {ℓ κ μ} :
    {E : Type ℓ} {A : Type κ} {B : Type μ} → Outcome E A → (A → Outcome E B) → Outcome E B
ok a >>= f = f a
err e >>= f = err e
fault >>= f = fault

abbrev pub ◌>>◌ {ℓ μ} : {E : Type ℓ} {B : Type μ} → Outcome E (Unit {0}) → Outcome E B → Outcome E B
m >> k = m >>= λ _. k

-- `if !b { return Err(e) }`
abbrev pub require {ℓ} : {E : Type ℓ} → Bool → E → Outcome E (Unit {0})
require true e = ok tt
require false e = err e

-- `map_err`
abbrev pub map_err {ℓ κ μ} :
    {E : Type ℓ} {F : Type κ} {A : Type μ} → (E → F) → Outcome E A → Outcome F A
map_err f (ok a) = ok a
map_err f (err e) = err (f e)
map_err f fault = fault

-- What a successful run went through: the value that the first part handed on.
pub ok_parts {ℓ κ μ} :
    {E : Type ℓ} {A : Type κ} {B : Type μ} (first : Outcome E A) (next : A → Outcome E B)
    {result : B}
    → first >>= next ≡ ok result
    → (value : A) × (first ≡ ok value) × (next value ≡ ok result)
ok_parts (err e) next h = cc
ok_parts fault next h = cc
ok_parts (ok value) next h = (value, refl, h)

-- A run that reaches no fault: its value satisfies `P`, or its error `Q`.
pub data Ensures {ℓ κ μ ν} {E : Type ℓ} {A : Type κ} (Q : E → Type μ) (P : A → Type ν)
    : Outcome E A → Type (ℓ ⊔ κ ⊔ μ ⊔ ν) where
  returns : {a : A} → P a → Ensures Q P (ok a)
  raises : {e : E} → Q e → Ensures Q P (err e)

module _ {ℓ κ μ ν} {E : Type ℓ} {A : Type κ} {Q : E → Type μ} {P : A → Type ν} where
  pub Ensures-ok : {a : A} → Ensures Q P (ok a) → P a
  Ensures-ok (returns p) = p

  pub Ensures-err : {e : E} → Ensures Q P (err e) → Q e
  Ensures-err (raises q) = q

  pub Ensures-ne-fault : (m : Outcome E A) → Ensures Q P m → m ≢ fault
  Ensures-ne-fault (ok a) h = λ e. cc
  Ensures-ne-fault (err x) h = λ e. cc
  Ensures-ne-fault fault h = elim h [ ]

  pub Ensures-bind {ρ τ} :
      {B : Type ρ} {R : B → Type τ} (m : Outcome E A) (f : A → Outcome E B)
      → Ensures Q P m
      → ((a : A) → m ≡ ok a → P a → Ensures Q R (f a))
      → Ensures Q R (m >>= f)
  Ensures-bind (ok a) f (returns p) h = h a refl p
  Ensures-bind (err e) f (raises q) h = raises q
  Ensures-bind fault f h k = elim h [ ]

pub Ensures-require {ℓ μ} :
    {E : Type ℓ} {Q : E → Type μ} (b : Bool) (e : E)
    → (b ≡ false → Q e)
    → Ensures Q (λ (u : Unit {0}). b ≡ true) (require b e)
Ensures-require true e h = returns refl
Ensures-require false e h = raises (h refl)

-- `Result::map`
abbrev pub map_ok {ℓ κ μ} :
    {E : Type ℓ} {A : Type κ} {B : Type μ} → (A → B) → Outcome E A → Outcome E B
map_ok f (ok a) = ok (f a)
map_ok f (err e) = err e
map_ok f fault = fault

module _ {ℓ κ κ' μ μ'} {E : Type ℓ} {A : Type κ} {A' : Type κ'} {B : Type μ} {B' : Type μ'}
    (g : B → B') where
  -- Two runs whose parts agree after a translation of the values.
  pub bind_translated :
      (m : Outcome E A) (h : A → A') (k : A' → Outcome E B') (l : A → Outcome E B)
      → ((a : A) → k (h a) ≡ map_ok g (l a))
      → (map_ok h m >>= k) ≡ map_ok g (m >>= l)
  bind_translated (ok a) h k l agree = agree a
  bind_translated (err e) h k l agree = refl
  bind_translated fault h k l agree = refl

module _ {ℓ κ μ μ'} {E : Type ℓ} {A : Type κ} {B : Type μ} {B' : Type μ'} (g : B → B') where
  pub bind_same :
      (m : Outcome E A) (k : A → Outcome E B') (l : A → Outcome E B)
      → ((a : A) → k a ≡ map_ok g (l a))
      → (m >>= k) ≡ map_ok g (m >>= l)
  bind_same (ok a) k l agree = agree a
  bind_same (err e) k l agree = refl
  bind_same fault k l agree = refl

-- Runs along known values.
pub require_passes {ℓ κ} :
    {E : Type ℓ} {B : Type κ} {b : Bool} (e : E) (k : Outcome E B)
    → b ≡ true
    → (require b e >> k) ≡ k
require_passes e k h = ap (λ b. require b e >> k) h

pub ok_injective {ℓ κ} :
    {E : Type ℓ} {A : Type κ} {a b : A} → ◌≡◌ {A = Outcome E A} (ok a) (ok b) → a ≡ b
ok_injective h = cc

pub bind_value {ℓ κ μ} :
    {E : Type ℓ} {A : Type κ} {B : Type μ} {m : Outcome E A} (k : A → Outcome E B) {a : A}
    → m ≡ ok a
    → (m >>= k) ≡ k a
bind_value k h = ap (λ o. o >>= k) h

pub require_passed {ℓ} :
    {E : Type ℓ} (b : Bool) (e : E) {u : Unit {0}} → require b e ≡ ok u → b ≡ true
require_passed true e h = refl
require_passed false e h = cc

pub map_err-ok {ℓ κ μ} :
    {E : Type ℓ} {F : Type κ} {A : Type μ} (f : E → F) (m : Outcome E A) {a : A}
    → map_err f m ≡ ok a
    → m ≡ ok a
map_err-ok f (ok b) h = cc
map_err-ok f (err e) h = cc
map_err-ok f fault h = cc
