-- ===== src/Strategies/Verdict.antt =====
-- How an `evaluate` of core/strategies ends: with a value, with `return None`, or with an exception.
use pypoc.Prelude.{Bool, true, false, Option, none, some, ◌≡◌, refl, subst}
use pypoc.Prelude.Result.{Exn, Result, ok, raises}

pub data Verdict (A : Type 0) : Type 0 where
  value : A → Verdict A
  nothing : Verdict A
  fails : Exn → Verdict A

infixl 5 ◌>>=◌ ◌>>◌
unfoldable pub ◌>>=◌ : {A B : Type 0} → Verdict A → (A → Verdict B) → Verdict B
value a >>= f = f a
nothing >>= f = nothing
fails e >>= f = fails e

abbrev pub ◌>>◌ : {B : Type 0} → Verdict (Unit {0}) → Verdict B → Verdict B
m >> k = m >>= λ _. k

-- `if test: return None`
unfoldable pub skip_if : Bool → Verdict (Unit {0})
skip_if true = nothing
skip_if false = value tt

abbrev pub result_of : {A : Type 0} → Verdict A → Result (Option A)
result_of (value a) = ok (some a)
result_of nothing = ok none
result_of (fails e) = raises e

-- The value, if there is one, has the property.
pub data Gives {A : Type 0} (P : A → Type 0) : Verdict A → Type 0 where
  gives : (a : A) → P a → Gives P (value a)
  gives_nothing : Gives P nothing
  gives_failure : (e : Exn) → Gives P (fails e)

module _ {A B : Type 0} {P : B → Type 0} where
  pub Gives-bind :
      (m : Verdict A) (f : A → Verdict B) → ((a : A) → Gives P (f a)) → Gives P (m >>= f)
  unfolding ◌>>=◌
  Gives-bind (value a) f h = h a
  Gives-bind nothing f h = gives_nothing
  Gives-bind (fails e) f h = gives_failure e

module _ {B : Type 0} {P : B → Type 0} where
  -- After a test that did not return.
  pub Gives-skip : (b : Bool) (k : Verdict B) → (b ≡ false → Gives P k) → Gives P (skip_if b >> k)
  unfolding ◌>>=◌ skip_if
  Gives-skip true k h = gives_nothing
  Gives-skip false k h = h refl

-- The same, read off the verdict.
abbrev Holds : {A : Type 0} → (A → Type 0) → Verdict A → Type 0
Holds P (value a) = P a
Holds P nothing = Unit
Holds P (fails e) = Unit

Holds-Gives : {A : Type 0} {P : A → Type 0} {m : Verdict A} → Gives P m → Holds P m
Holds-Gives (gives a h) = h
Holds-Gives gives_nothing = tt
Holds-Gives (gives_failure e) = tt

pub Gives-value :
    {A : Type 0} {P : A → Type 0} {m : Verdict A} (a : A) → Gives P m → m ≡ value a → P a
Gives-value {P} a g e = subst (Holds P) e (Holds-Gives g)

pub Gives-weaken :
    {A : Type 0} {P Q : A → Type 0} {m : Verdict A} → ((a : A) → P a → Q a) → Gives P m → Gives Q m
Gives-weaken h (gives a p) = gives a (h a p)
Gives-weaken h gives_nothing = gives_nothing
Gives-weaken h (gives_failure e) = gives_failure e
