-- ===== src/Prelude/Outcomes.antt =====
-- The result of C++ code that may leave the defined behaviour.
use mathlib.Core.Path.{◌≡◌, refl, subst}
use mathlib.Core.Logic.{◌≢◌}
use mathlib.Core.Bool.{Bool, true, false}
use mathlib.Core.Option.{Option, none, some}
use dowow_network.Prelude.Tests.{if◌then◌else◌}

-- `fault`: a read or write outside a buffer, or through a null pointer.
-- `stuck`: no C++ outcome; a recursion of the model ran out of fuel.
pub data Outcome {ℓ} (A : Type ℓ) : Type ℓ where
  done : A → Outcome A
  fault : Outcome A
  stuck : Outcome A

-- `abbrev`, so that `done a >>= f` computes wherever it stands.
infixl 5 ◌>>=◌ ◌>>◌
abbrev pub ◌>>=◌ {ℓ κ} : {A : Type ℓ} {B : Type κ} → Outcome A → (A → Outcome B) → Outcome B
done a >>= f = f a
fault >>= f = fault
stuck >>= f = stuck

abbrev pub ◌>>◌ {ℓ} : {B : Type ℓ} → Outcome (Unit {0}) → Outcome B → Outcome B
m >> k = m >>= λ _. k

-- A bind is stuck only where one of its parts is.
pub >>=-ne-stuck {ℓ κ} :
    {A : Type ℓ} {B : Type κ} (m : Outcome A) (f : A → Outcome B)
    → m ≢ stuck
    → ((a : A) → m ≡ done a → f a ≢ stuck)
    → (m >>= f) ≢ stuck
>>=-ne-stuck (done a) f h k = k a refl
>>=-ne-stuck fault f h k = λ e. cc
>>=-ne-stuck stuck f h k = λ e. h refl

pub if-ne-stuck {ℓ} :
    {A : Type ℓ} (b : Bool) (x y : Outcome A) → x ≢ stuck → y ≢ stuck → (if b then x else y) ≢ stuck
if-ne-stuck true x y hx hy = hx
if-ne-stuck false x y hx hy = hy

pub done-ne-stuck {ℓ} : {A : Type ℓ} (a : A) → done a ≢ stuck
done-ne-stuck a e = cc

-- What holds of the result, where there is one.
abbrev pub IfDone {ℓ κ} : {A : Type ℓ} → (A → Type κ) → Outcome A → Type κ
IfDone P (done a) = P a
IfDone P fault = Unit
IfDone P stuck = Unit

pub IfDone->>= {ℓ κ μ} :
    {A : Type ℓ} {B : Type κ} (P : B → Type μ) (m : Outcome A) (f : A → Outcome B)
    → ((a : A) → m ≡ done a → IfDone P (f a))
    → IfDone P (m >>= f)
IfDone->>= P (done a) f h = h a refl
IfDone->>= P fault f h = tt
IfDone->>= P stuck f h = tt

pub IfDone-if {ℓ κ} :
    {A : Type ℓ} (P : A → Type κ) (b : Bool) (x y : Outcome A)
    → (b ≡ true → IfDone P x)
    → (b ≡ false → IfDone P y)
    → IfDone P (if b then x else y)
IfDone-if P true x y h k = h refl
IfDone-if P false x y h k = k refl

pub IfDone-done {ℓ κ} :
    {A : Type ℓ} (P : A → Type κ) (m : Outcome A) {a : A} → IfDone P m → m ≡ done a → P a
IfDone-done {A = A} P (done b) {a} h e = subst P (done_inj e) h
  where
    done_inj : {b' a' : A} → done b' ≡ done a' → b' ≡ a'
    done_inj e' = cc
IfDone-done P fault h e = cc
IfDone-done P stuck h e = cc

pub IfDone-option {ℓ κ μ} :
    {A : Type ℓ} {B : Type κ} (P : A → Type μ) (o : Option B) (x : Outcome A) (f : B → Outcome A)
    → (o ≡ none → IfDone P x)
    → ((b : B) → o ≡ some b → IfDone P (f b))
    → IfDone P (elim o [ none ↦ x | some b ↦ f b ])
IfDone-option P none x f h k = h refl
IfDone-option P (some b) x f h k = k b refl

pub IfDone-of {ℓ κ} :
    {A : Type ℓ} (P : A → Type κ) (m : Outcome A) → ((a : A) → m ≡ done a → P a) → IfDone P m
IfDone-of P (done a) h = h a refl
IfDone-of P fault h = tt
IfDone-of P stuck h = tt

pub IfDone-then {ℓ κ μ ν} :
    {A : Type ℓ} {B : Type κ} (Q : A → Type ν) (P : B → Type μ) (m : Outcome A) (f : A → Outcome B)
    → IfDone Q m
    → ((a : A) → Q a → IfDone P (f a))
    → IfDone P (m >>= f)
IfDone-then Q P m f h k = IfDone->>= P m f (λ a ran. k a (IfDone-done Q m h ran))

pub IfDone-map {ℓ κ μ} :
    {A : Type ℓ} (Q : A → Type κ) (P : A → Type μ) (m : Outcome A)
    → IfDone Q m
    → ((a : A) → Q a → P a)
    → IfDone P m
IfDone-map Q P m h k = IfDone-of P m (λ a ran. k a (IfDone-done Q m h ran))

-- The code ends with a result.
abbrev pub Ends {ℓ} : {A : Type ℓ} → Outcome A → Type ℓ
Ends {A = A} o = (a : A) × (o ≡ done a)

pub Ends->>= {ℓ κ} :
    {A : Type ℓ} {B : Type κ} (m : Outcome A) (f : A → Outcome B)
    → Ends m
    → ((a : A) → m ≡ done a → Ends (f a))
    → Ends (m >>= f)
Ends->>= m f (a, ran) k = let (b, last) = k a ran in (b, rw ran last)
