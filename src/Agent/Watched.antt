-- ===== src/Agent/Watched.antt =====
-- A cycle of core/execution/orchestrator.py ends with the circuits and the snapshot, if the square-off
-- does not raise.
use pypoc.Prelude.{
  ◌≡◌, refl, ◌⊎◌, inl, inr, true, false, Bool-cases, [], some, ltb, arith, ◌∙◌, string_eq, ap,
}
use pypoc.Prelude.Result.{ok, and_then}
use pypoc.Numbers.{Float}
use pypoc.Types.{DateTime}
use pypoc.Risk.Clock.{parse_time, time_of_day}
use pypoc.Broker.Invariant.{IsValid}
use pypoc.Agent.State.{Orchestrator, execute}
use pypoc.Agent.Close.{maybe_squareoff_eod}
use pypoc.Agent.Squared.{maybe_squareoff_eod-closes, closing}
use pypoc.Agent.Lifecycle.{
  Pulse, Session, RuntimeSnapshot, settle, publish_snapshot, record_equity, runtime_snapshot,
  equity_row,
}

module _ {F : Type 0} ⦃f : Float F⦄ (p : Pulse F) where
  -- The agent once the row of the equity is written.
  abbrev pub recorded : F → Orchestrator F → Orchestrator F
  recorded current a = record a { store = (record_equity p.utc (equity_row current a) a.store).1 }

  pub settle-up :
      (current : F) (a : Orchestrator F)
      → a.store.up ≡ true
      → settle p current a ≡ maybe_squareoff_eod p.now (recorded current a)
  unfolding settle record_equity execute and_then
  settle-up current a up = rw (settle, up) refl

  maybe_squareoff_eod-early :
      (squareoff : DateTime) (a : Orchestrator F)
      → parse_time a.guardrails.m.intraday_squareoff_at ≡ ok squareoff
      → ltb (time_of_day p.now) squareoff ≡ true
      → (maybe_squareoff_eod p.now a).0 ≡ ok tt
  unfolding maybe_squareoff_eod
  maybe_squareoff_eod-early squareoff a parsed early = rw (maybe_squareoff_eod, parsed, early) refl

  -- No short position waits for the square-off.
  abbrev pub IsClear : DateTime → Orchestrator F → Type 0
  IsClear squareoff a = (ltb (time_of_day p.now) squareoff ≡ true) ⊎ (a.broker.short_positions ≡ [])

  pub maybe_squareoff_eod-returns :
      (squareoff : DateTime) (a : Orchestrator F)
      → parse_time a.guardrails.m.intraday_squareoff_at ≡ ok squareoff
      → IsValid a.broker
      → IsClear squareoff a
      → (maybe_squareoff_eod p.now a).0 ≡ ok tt
  maybe_squareoff_eod-returns squareoff a parsed v clear =
      elim (Bool-cases (ltb (time_of_day p.now) squareoff)) [
        | inl early ↦ maybe_squareoff_eod-early squareoff a parsed early
        | inr late ↦ elim clear [
          | inl early ↦ absurd (ground arith)
          | inr no_shorts ↦
              (maybe_squareoff_eod-closes p.now squareoff a parsed (ground arith) v).0
              ∙ ap closing no_shorts
        ]
      ]

  -- What the file of the snapshot says after a cycle.
  abbrev pub IsShown : Session F → Type 0
  IsShown s =
      (p.writes ≡ false)
      ⊎ ((snap : RuntimeSnapshot F) × (s.snapshot ≡ some snap)
          × (snap.halted ≡ s.agent.halted)
          × (snap.halt_reason ≡ s.agent.halt_reason))

  pub publish_snapshot-IsShown :
      (current : F) (s : Session F) → IsShown (publish_snapshot p current s)
  unfolding publish_snapshot runtime_snapshot
  publish_snapshot-IsShown current s = elim (Bool-cases p.writes) [
    | inr fails ↦ inl fails
    | inl writes ↦ rw (publish_snapshot, writes) (inr (_, refl, refl, refl))
  ]

  pub publish_snapshot-agent :
      (current : F) (s : Session F) → (publish_snapshot p current s).agent ≡ s.agent
  unfolding publish_snapshot
  publish_snapshot-agent current s = elim (Bool-cases p.writes) [
    | inr fails ↦ rw (publish_snapshot, fails) refl
    | inl writes ↦ rw (publish_snapshot, writes) refl
  ]
