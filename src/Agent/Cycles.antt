-- ===== src/Agent/Cycles.antt =====
-- What a cycle of core/execution/orchestrator.py guarantees, and when the loop of cli.py ends.
use pypoc.Prelude.{
  ◌≡◌, refl, ◌⊎◌, inl, inr, Bool, true, false, List, [], ◌∷◌, ◌++◌, string_eq, arith, if◌then◌else◌,
}
use pypoc.Prelude.Result.{Attempt, Exn, ok, raises, and_then}
use pypoc.Numbers.{Float}
use pypoc.Agent.Lifecycle.{Pulse, Session, tick_lifecycle, run_cycles}

module _ {F : Type 0} ⦃f : Float F⦄ where
  -- The loop ended before its cycles did: the agent is halted, or a cycle raised.
  abbrev pub IsEnded : Attempt (Session F) (Unit {0}) → Type 0
  IsEnded m = (m.1.agent.halted ≡ true) ⊎ ((e : Exn) × (m.0 ≡ raises e))

  ok_or_raises : (s : Session F) → IsEnded (ok tt, s) → s.agent.halted ≡ true
  ok_or_raises s (inl h) = h
  ok_or_raises s (inr (e, h)) = absurd (ground arith)

  ended_first :
      (m : Attempt (Session F) (Unit {0})) (next later : Session F → Attempt (Session F) (Unit {0}))
      → (IsEnded (next m.1) → later m.1 ≡ next m.1)
      → IsEnded (and_then m next)
      → and_then m later ≡ and_then m next
  unfolding and_then
  ended_first (ok u, s) next later same h = same h
  ended_first (raises e, s) next later same h = refl

  unless_stops :
      (b : Bool) (x m n : Attempt (Session F) (Unit {0}))
      → (IsEnded m → n ≡ m)
      → IsEnded (if b then x else m)
      → (if b then x else n) ≡ (if b then x else m)
  unless_stops true x m n same h = refl
  unless_stops false x m n same h = same h

  -- Once a cycle has left the agent halted or has raised, the loop of the command `run` does nothing
  -- in any further cycle: no command of the queue is read, also not one to resume.
  pub run_cycles-stops :
      (ps qs : List (Pulse F)) (s : Session F)
      → IsEnded (run_cycles ps s)
      → run_cycles (ps ++ qs) s ≡ run_cycles ps s
  unfolding run_cycles
  run_cycles-stops [] [] s h = refl
  run_cycles-stops [] (q ∷ qs) s h = rw (ok_or_raises s h, run_cycles) refl
  run_cycles-stops (p ∷ ps) qs s h =
      unless_stops s.agent.halted (ok tt, s) (and_then (tick_lifecycle p s) (run_cycles ps))
        (and_then (tick_lifecycle p s) (run_cycles (ps ++ qs)))
        (ended_first (tick_lifecycle p s) (run_cycles ps) (run_cycles (ps ++ qs))
          (run_cycles-stops ps qs (tick_lifecycle p s).1))
        h
