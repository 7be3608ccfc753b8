-- ===== src/Prelude/Result.antt =====
-- Python's exceptions as values: what a call returns, or the class of what it raises.
use mathlib.Core.Path.{◌≡◌, refl, ap}
use mathlib.Core.Logic.{◌⊎◌, inl, inr}
use mathlib.Core.Bool.{Bool, true, false}
use mathlib.Core.Option.{Option, none, some}
use native.Mathlib.Omega.{arith}

pub data Exn : Type 0 where
  value_error zero_division_error key_error index_error type_error attribute_error : Exn
  os_error database_error : Exn

pub data Result {ℓ} (A : Type ℓ) : Type ℓ where
  ok : A → Result A
  raises : Exn → Result A

infixl 5 ◌>>=◌ ◌>>◌
abbrev pub ◌>>=◌ {ℓ κ} : {A : Type ℓ} {B : Type κ} → Result A → (A → Result B) → Result B
ok a >>= f = f a
raises e >>= f = raises e

abbrev pub ◌>>◌ {ℓ κ} : {A : Type ℓ} {B : Type κ} → Result A → Result B → Result B
m >> k = m >>= λ _. k

abbrev pub or_raise {ℓ} : {A : Type ℓ} → Option A → Exn → Result A
or_raise none e = raises e
or_raise (some a) e = ok a

abbrev pub raise_if : Bool → Exn → Result (Unit {0})
raise_if true e = raises e
raise_if false e = ok tt

-- Whether a call returned.
abbrev pub returned {ℓ} : {A : Type ℓ} → Result A → Bool
returned (ok a) = true
returned (raises e) = false

pub Result-cases {ℓ} :
    {A : Type ℓ} (r : Result A) → ((a : A) × (r ≡ ok a)) ⊎ ((e : Exn) × (r ≡ raises e))
Result-cases (ok a) = inl (a, refl)
Result-cases (raises e) = inr (e, refl)

-- A method that may raise, with the object's state after it: what it wrote before stays written.
abbrev pub Attempt {ℓ κ} : Type ℓ → Type κ → Type (ℓ ⊔ κ)
Attempt S A = Result A × S

unfoldable pub and_then {ℓ κ} :
    {S : Type ℓ} {A : Type κ} → Attempt S (Unit {0}) → (S → Attempt S A) → Attempt S A
and_then (ok _, s) next = next s
and_then (raises e, s) next = (raises e, s)

-- What a call returned is one value.
pub ok-injective {ℓ} : {A : Type ℓ} {a b : A} → ok a ≡ ok b → a ≡ b
ok-injective {a = a} e = ap (λ r. elim r [ ok x ↦ x | raises _ ↦ a ]) e

-- What the first step raises is what both raise.
pub and_then-raises {ℓ κ} :
    {S : Type ℓ} {A : Type κ} (m : Attempt S (Unit {0})) (next : S → Attempt S A) (e : Exn)
    → m.0 ≡ raises e
    → (and_then m next).0 ≡ raises e
unfolding and_then
and_then-raises (ok _, s) next e h = absurd (ground arith)
and_then-raises (raises x, s) next e h =
    ap (λ r. elim r [ raises y ↦ raises y | ok _ ↦ raises x ]) h

-- The first step raised, or the next one ran.
pub and_then_cases {ℓ κ ι} :
    {S : Type ℓ} {A : Type κ} (P : Attempt S A → Type ι) (m : Attempt S (Unit {0}))
    (next : S → Attempt S A)
    → ((e : Exn) → P (raises e, m.1))
    → P (next m.1)
    → P (and_then m next)
unfolding and_then
and_then_cases P (ok _, s) next stop go = go
and_then_cases P (raises e, s) next stop go = stop e
