-- ===== src/Base/Outcome.antt =====
-- The result of code that may panic (a failed `assert!`, an `unwrap` of `None`, an index out of
-- range).
use mathlib.Core.Path.{◌≡◌, refl}
use mathlib.Core.Bool.{Bool, true, false}
use mathlib.Core.Option.{Option, none, some}

pub data Outcome {ℓ} (A : Type ℓ) : Type ℓ where
  done : A → Outcome A
  panic : Outcome A

infixl 5 ◌>>=◌ ◌>>◌
abbrev pub ◌>>=◌ {ℓ κ} : {A : Type ℓ} {B : Type κ} → Outcome A → (A → Outcome B) → Outcome B
done a >>= f = f a
panic >>= f = panic

abbrev pub ◌>>◌ {ℓ} : {B : Type ℓ} → Outcome (Unit {0}) → Outcome B → Outcome B
m >> k = m >>= λ _. k

abbrev pub assert : Bool → Outcome (Unit {0})
assert true = done tt
assert false = panic

abbrev pub unwrap {ℓ} : {A : Type ℓ} → Option A → Outcome A
unwrap none = panic
unwrap (some a) = done a

-- Inversion of a block that ends normally.
pub >>=-eq-done {ℓ κ} :
    {A : Type ℓ} {B : Type κ} (m : Outcome A) (f : A → Outcome B) {b : B}
    → (m >>= f) ≡ done b
    → (a : A) × (m ≡ done a) × (f a ≡ done b)
>>=-eq-done (done a) f h = (a, refl, h)
>>=-eq-done panic f h = cc

-- What an outcome meets: `P` at its value, and an excuse `E` where it panics.
abbrev pub Meets {ℓ κ} : {A : Type ℓ} → Type κ → (A → Type κ) → Outcome A → Type κ
Meets E P (done a) = P a
Meets E P panic = E

pub Meets->>= {ℓ μ κ} :
    {A : Type ℓ} {B : Type μ} {E E' : Type κ} {P : A → Type κ} (Q : B → Type κ) (m : Outcome A)
    (f : A → Outcome B)
    → Meets E P m
    → (E → E')
    → ((a : A) → P a → Meets E' Q (f a))
    → Meets E' Q (m >>= f)
Meets->>= Q (done a) f h e k = k a h
Meets->>= Q panic f h e k = e h

pub Meets-mono {ℓ κ} :
    {A : Type ℓ} {E E' : Type κ} {P : A → Type κ} (Q : A → Type κ) (m : Outcome A)
    → Meets E P m
    → (E → E')
    → ((a : A) → P a → Q a)
    → Meets E' Q m
Meets-mono Q (done a) h e k = k a h
Meets-mono Q panic h e k = e h

pub Meets-any {ℓ κ} : {A : Type ℓ} (m : Outcome A) → Meets (Unit {κ}) (λ _. Unit {κ}) m
Meets-any (done a) = tt
Meets-any panic = tt

pub Meets-and {ℓ κ} :
    {A : Type ℓ} (E E' : Type κ) (P Q : A → Type κ) (m : Outcome A)
    → Meets E P m
    → Meets E' Q m
    → Meets E (λ a. P a × Q a) m
Meets-and E E' P Q (done a) h k = (h, k)
Meets-and E E' P Q panic h k = h

-- An outcome meets what holds of the value that it has; the excuse is its panic.
pub Meets-self {ℓ} :
    {A : Type ℓ} (P : A → Type ℓ) (m : Outcome A)
    → ((a : A) → m ≡ done a → P a)
    → Meets (m ≡ panic) P m
Meets-self P (done a) h = h a refl
Meets-self P panic h = refl

-- The excuse of an outcome can always be its panic.
pub Meets-panic {ℓ} :
    {A : Type ℓ} (E : Type ℓ) (P : A → Type ℓ) (m : Outcome A) → Meets E P m → Meets (m ≡ panic) P m
Meets-panic E P (done a) h = h
Meets-panic E P panic h = refl

-- A block ends normally where the excuse is refuted.
pub Meets-done {ℓ κ} :
    {A : Type ℓ} {E : Type κ} {P : A → Type κ} (m : Outcome A)
    → Meets E P m
    → ¬ E
    → (a : A) × (m ≡ done a) × P a
Meets-done (done a) h refuted = (a, refl, h)
Meets-done panic h refuted = elim (refuted h) [ ]
