-- ===== src/Agent/Cycled.antt =====
-- A cycle of core/execution/orchestrator.py as a whole: how it ends when the square-off returns, and
-- how when it raises.
use pypoc.Prelude.{
  ◌≡◌, refl, ◌⊎◌, inl, inr, true, Bool-cases, [], ◌∷◌, ltb, arith, ◌≤◌, ◌∙◌, sym, subst, String, ap,
}
use pypoc.Prelude.Dict.{Dict}
use pypoc.Prelude.Result.{Result-cases, Attempt, ok, raises, key_error}
use pypoc.Numbers.{Float}
use pypoc.Types.{DateTime, Position}
use pypoc.Risk.Clock.{parse_time, time_of_day}
use pypoc.Broker.Invariant.{IsValid}
use pypoc.Broker.Reach.{IsValid-Kept}
use pypoc.Broker.Positions.{equity}
use pypoc.Agent.State.{Orchestrator}
use pypoc.Agent.Halts.{check_global_halts}
use pypoc.Agent.Circuits.{IsWithin, check_global_halts-IsWithin}
use pypoc.Agent.Close.{maybe_squareoff_eod}
use pypoc.Agent.Squared.{maybe_squareoff_eod-closes, closing}
use pypoc.Agent.Framed.{process_command_queue-IsFramed}
use pypoc.Agent.Kept.{process_command_queue-keeps}
use pypoc.Agent.Renewed.{IsRenewed, renewed-IsRenewed}
use pypoc.Agent.Watched.{
  recorded, settle-up, IsClear, maybe_squareoff_eod-returns, IsShown, publish_snapshot-IsShown,
  publish_snapshot-agent,
}
use pypoc.Agent.Lifecycle.{Pulse, Session, tick_lifecycle, housekeep, finish, renewed, commanded}

module _ {F : Type 0} ⦃f : Float F⦄ (p : Pulse F) where
  -- The agent that the square-off finds.
  abbrev pub before : Session F → Orchestrator F
  before s = let current = equity s.agent.broker in recorded p current (renewed p current s.agent)

  before-IsRenewed : (s : Session F) → IsRenewed s.agent (renewed p (equity s.agent.broker) s.agent)
  before-IsRenewed s = renewed-IsRenewed s.agent p (equity s.agent.broker)

  -- The cycle after its commands, by the outcome of the square-off.
  housekeep-up :
      (s : Session F)
      → s.agent.store.up ≡ true
      → housekeep p s ≡ finish p (equity s.agent.broker) s (maybe_squareoff_eod p.now (before s))
  unfolding housekeep
  housekeep-up s up =
      ap (finish p (equity s.agent.broker) s)
        (settle-up p (equity s.agent.broker) _ ((before-IsRenewed s).same_up ∙ up))

  -- What a cycle that returns leaves.
  abbrev pub IsWatched : Attempt (Session F) (Unit {0}) → Type 0
  IsWatched m = (m.0 ≡ ok tt) × ((m.1.agent.halted ≡ true) ⊎ IsWithin m.1.agent) × IsShown p m.1

  finish-IsWatched :
      (current : F) (s : Session F) (m : Attempt (Orchestrator F) (Unit {0}))
      → m.0 ≡ ok tt
      → IsWatched (finish p current s m)
  unfolding finish
  finish-IsWatched current s (raises e, a) h = absurd (ground arith)
  finish-IsWatched current s (ok u, a) h =
      let final = record s { agent = check_global_halts a } in
      (
        refl,
        subst (λ b. (b.halted ≡ true) ⊎ IsWithin b) (sym (publish_snapshot-agent p current final))
            (check_global_halts-IsWithin a),
        publish_snapshot-IsShown p current final,
      )

  housekeep-IsWatched :
      (squareoff : DateTime) (s : Session F)
      → s.agent.store.up ≡ true
      → parse_time s.agent.guardrails.m.intraday_squareoff_at ≡ ok squareoff
      → IsValid s.agent.broker
      → IsClear p squareoff s.agent
      → IsWatched (housekeep p s)
  housekeep-IsWatched squareoff s up parsed v clear =
      let same = before-IsRenewed s in
      subst IsWatched (sym (housekeep-up s up)) (
        finish-IsWatched (equity s.agent.broker) s (maybe_squareoff_eod p.now (before s)) (
          maybe_squareoff_eod-returns p squareoff (before s)
            (subst (λ m. parse_time m.intraday_squareoff_at ≡ ok squareoff) (sym same.same_hours)
              parsed)
            (subst IsValid (sym same.same_broker) v)
            (subst (λ b. (ltb (time_of_day p.now) squareoff ≡ true) ⊎ (b.short_positions ≡ []))
              (sym same.same_broker) clear)))

  -- A cycle of a valid agent whose database answers returns, if after the commands no position is
  -- short or the time of the square-off is not yet come. At its end the agent is halted or neither
  -- circuit is hit, and a snapshot that can be written shows whether it is halted and why.
  pub tick_lifecycle-IsWatched :
      (squareoff : DateTime) (s : Session F)
      → s.agent.store.up ≡ true
      → parse_time s.agent.guardrails.m.intraday_squareoff_at ≡ ok squareoff
      → IsValid s.agent.broker
      → IsClear p squareoff (commanded p s).agent
      → IsWatched (tick_lifecycle p s)
  unfolding tick_lifecycle
  tick_lifecycle-IsWatched squareoff s up parsed v clear =
      let same = process_command_queue-IsFramed p.desk p.signer s.agent s.queue in
      housekeep-IsWatched squareoff (commanded p s)
        (subst (λ t. t.up ≡ true) (sym same.same_store) up)
        (subst (λ m. parse_time m.intraday_squareoff_at ≡ ok squareoff) (sym same.same_hours)
          parsed)
        (process_command_queue-keeps IsValid IsValid-Kept p.desk p.signer s.agent s.queue v) clear

  -- What a cycle that dies in the square-off leaves, from the session after its commands.
  abbrev pub IsDead : Session F → Attempt (Session F) (Unit {0}) → Type 0
  IsDead s m =
      (m.0 ≡ raises key_error)
      × (m.1.agent.halted ≡ s.agent.halted)
      × (m.1.snapshot ≡ s.snapshot)
      × (m.1.agent.broker.positions ≡ [])
      × (m.1.agent.broker.short_positions ≡ s.agent.broker.short_positions)

  maybe_squareoff_eod-halted :
      (now : DateTime) (a : Orchestrator F) → (maybe_squareoff_eod now a).1.halted ≡ a.halted
  unfolding maybe_squareoff_eod
  maybe_squareoff_eod-halted now a =
      elim (Result-cases (parse_time a.guardrails.m.intraday_squareoff_at)) [
        | inr (x, e) ↦ rw (maybe_squareoff_eod, e) refl
        | inl (squareoff, e) ↦ elim (Bool-cases (ltb (time_of_day now) squareoff)) [
          | inl early ↦ rw (maybe_squareoff_eod, e, early) refl
          | inr late ↦ rw (maybe_squareoff_eod, e, late) refl
        ]
      ]

  finish-raises :
      (current : F) (s : Session F) (m : Attempt (Orchestrator F) (Unit {0}))
      → m.0 ≡ raises key_error
      → finish p current s m ≡ (raises key_error, record s { agent = m.1 })
  unfolding finish
  finish-raises current s (raises e, a) h = rw h refl
  finish-raises current s (ok u, a) h = absurd (ground arith)

  housekeep-IsDead :
      (squareoff : DateTime) (short : String × Position F) (shorts : Dict String (Position F))
      (s : Session F)
      → s.agent.store.up ≡ true
      → parse_time s.agent.guardrails.m.intraday_squareoff_at ≡ ok squareoff
      → squareoff ≤ time_of_day p.now
      → IsValid s.agent.broker
      → s.agent.broker.short_positions ≡ short ∷ shorts
      → IsDead s (housekeep p s)
  housekeep-IsDead squareoff short shorts s up parsed late v open_short =
      let same = before-IsRenewed s in
      let current = equity s.agent.broker in
      let (ends, none_long, kept) =
        maybe_squareoff_eod-closes p.now squareoff (before s)
          (subst (λ m. parse_time m.intraday_squareoff_at ≡ ok squareoff) (sym same.same_hours)
            parsed)
          late (subst IsValid (sym same.same_broker) v) in
      let still = ap (λ b. b.short_positions) same.same_broker in
      let dies = ends ∙ ap closing (still ∙ open_short) in
      subst (IsDead s)
        (sym
          (housekeep-up s up ∙ finish-raises current s (maybe_squareoff_eod p.now (before s)) dies))
        (
          refl,
          maybe_squareoff_eod-halted p.now (before s) ∙ same.same_halt,
          refl,
          none_long,
          kept ∙ still,
        )

  -- From the time of the square-off on, a cycle that finds a short position after its commands raises
  -- a `KeyError`, which no caller catches: the long positions are closed, the short ones stay open,
  -- neither circuit is checked, and the snapshot stays the old one.
  pub tick_lifecycle-IsDead :
      (squareoff : DateTime) (short : String × Position F) (shorts : Dict String (Position F))
      (s : Session F)
      → s.agent.store.up ≡ true
      → parse_time s.agent.guardrails.m.intraday_squareoff_at ≡ ok squareoff
      → squareoff ≤ time_of_day p.now
      → IsValid s.agent.broker
      → (commanded p s).agent.broker.short_positions ≡ short ∷ shorts
      → IsDead (commanded p s) (tick_lifecycle p s)
  unfolding tick_lifecycle
  tick_lifecycle-IsDead squareoff short shorts s up parsed late v open_short =
      let same = process_command_queue-IsFramed p.desk p.signer s.agent s.queue in
      housekeep-IsDead squareoff short shorts (commanded p s)
        (subst (λ t. t.up ≡ true) (sym same.same_store) up)
        (subst (λ m. parse_time m.intraday_squareoff_at ≡ ok squareoff) (sym same.same_hours)
          parsed)
        late (process_command_queue-keeps IsValid IsValid-Kept p.desk p.signer s.agent s.queue v)
        open_short
