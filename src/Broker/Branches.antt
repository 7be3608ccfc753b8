-- ===== src/Broker/Branches.antt =====
-- The branches of a step that may raise, and of the checks of stop and target, in
-- core/broker/paper.py.
use pypoc.Prelude.{String, ◌≡◌, refl, inl, inr, arith, string_eq, Bool-cases, Option-cases, ap}
use pypoc.Prelude.Result.{ok, raises, Exn}
use pypoc.Numbers.{Float}
use pypoc.Types.{Position}
use pypoc.Broker.State.{PaperBroker, Outcome, then_do}
use pypoc.Broker.Prices.{auto_exit, auto_exit_short, maybe_exit, maybe_exit_short}

module _ {F : Type 0} ⦃f : Float F⦄ where
  pub then_do-raises :
      {A : Type 0} (m : Outcome F (Unit {0})) (next : PaperBroker F → Outcome F A) (x : Exn)
      (b : PaperBroker F)
      → m ≡ (raises x, b)
      → then_do m next ≡ (raises x, b)
  unfolding then_do
  then_do-raises m next x b e = ap (λ r. then_do r next) e

  pub then_do-ok :
      {A : Type 0} (m : Outcome F (Unit {0})) (next : PaperBroker F → Outcome F A)
      → m.0 ≡ ok tt
      → then_do m next ≡ next m.1
  unfolding then_do
  then_do-ok (ok u, b) next e = refl
  then_do-ok (raises x, b) next e = absurd (ground arith)

  -- A price check leaves the state alone, or exits the position.
  pub maybe_exit_cases :
      (P : Outcome F (Unit {0}) → Type 0) (p : Position F) (b : PaperBroker F)
      → P (ok tt, b)
      → ((price : F) (why : String) → P (auto_exit p price why b))
      → P (maybe_exit p b)
  unfolding maybe_exit
  maybe_exit_cases P p b stay leave = elim (Bool-cases (f.le p.last_price p.stop_loss)) [
    | inl hit ↦ rw hit (leave p.stop_loss "stop_loss")
    | inr clear ↦ elim (Option-cases p.target) [
      | inl e ↦ rw (clear, e) stay
      | inr (t, e) ↦ elim (Bool-cases (f.le t p.last_price)) [
        | inl hit ↦ rw (clear, e, maybe_exit, hit) (leave t "target")
        | inr free ↦ rw (clear, e, maybe_exit, free) stay
      ]
    ]
  ]

  pub maybe_exit_short_cases :
      (P : Outcome F (Unit {0}) → Type 0) (p : Position F) (b : PaperBroker F)
      → P (ok tt, b)
      → ((price : F) (why : String) → P (auto_exit_short p price why b))
      → P (maybe_exit_short p b)
  unfolding maybe_exit_short
  maybe_exit_short_cases P p b stay leave = elim (Bool-cases (f.le p.stop_loss p.last_price)) [
    | inl hit ↦ rw hit (leave p.stop_loss "stop_loss")
    | inr clear ↦ elim (Option-cases p.target) [
      | inl e ↦ rw (clear, e) stay
      | inr (t, e) ↦ elim (Bool-cases (f.le p.last_price t)) [
        | inl hit ↦ rw (clear, e, maybe_exit_short, hit) (leave t "target")
        | inr free ↦ rw (clear, e, maybe_exit_short, free) stay
      ]
    ]
  ]
