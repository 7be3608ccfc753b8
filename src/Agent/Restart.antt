-- ===== src/Agent/Restart.antt =====
-- What survives a restart of the agent (core/execution/orchestrator.py, core/persistence/store.py).
use pypoc.Prelude.{
  String, ◌≡◌, refl, true, some, [], ◌∷◌, arith, string_eq, ==-self, ap, ◌∙◌, subst, sym,
}
use pypoc.Prelude.Dict.{Dict, insert, lookup-insert_same, Entries}
use pypoc.Prelude.Result.{ok}
use pypoc.Numbers.{Float, IsOrdered, le-max_left}
use pypoc.Types.{Position}
use pypoc.Broker.State.{PaperBroker, snapshot_state}
use pypoc.Broker.Positions.{equity}
use pypoc.Broker.Snapshot.{restore_state, WellKeyed, restore_state-snapshot_state}
use pypoc.Broker.Invariant.{IsValid, Held}
use pypoc.Agent.State.{Orchestrator, Store, execute, execute-up}
use pypoc.Agent.Days.{
  save_daily_state, load_daily_state, save_broker_state, load_broker_state, persist_daily_state,
  persist_broker_state, baseline, restore_or_init_daily_state, restore_broker_state_if_same_day,
  restart, wired,
}

module _ {F : Type 0} ⦃f : Float F⦄ where
  Held-WellKeyed : (d : Dict String (Position F)) → Entries Held d → WellKeyed d
  Held-WellKeyed [] h = tt
  Held-WellKeyed ((k, p) ∷ d) (h, hs) = (h.0, Held-WellKeyed d hs)

  -- A new agent that finds the database of another one.
  abbrev pub successor : Orchestrator F → Orchestrator F → Orchestrator F
  successor a fresh = record fresh { store = a.store }

  -- The database after both have been persisted.
  abbrev saved_store : String → Orchestrator F → Store F
  saved_store td a = record a.store {
    daily_state =
        insert td
          (record { starting_equity_today = a.starting_equity_today; peak_equity = a.peak_equity })
          a.store.daily_state;
    broker_state = some (td, snapshot_state a.broker);
  }

  -- The two statements that persist.
  abbrev day_saved : String → Orchestrator F → Store F → Store F
  day_saved td a s = record s {
    daily_state =
        insert td
          (record { starting_equity_today = a.starting_equity_today; peak_equity = a.peak_equity })
          s.daily_state;
  }

  abbrev broker_saved : String → Orchestrator F → Store F → Store F
  broker_saved td a s = record s { broker_state = some (td, snapshot_state a.broker) }

  persisted-store :
      (td : String) (a : Orchestrator F)
      → a.store.up ≡ true
      → (persist_broker_state td (persist_daily_state td a)).store ≡ saved_store td a
  unfolding persist_broker_state persist_daily_state save_broker_state save_daily_state
  persisted-store td a up =
      ap (λ m. (execute (broker_saved td a) m.1).1) (execute-up (day_saved td a) a.store up)
      ∙ ap (λ m. m.1) (execute-up (broker_saved td a) (day_saved td a a.store) up)

  load_daily-saved :
      (td : String) (a : Orchestrator F)
      → a.store.up ≡ true
      → load_daily_state td (saved_store td a)
        ≡ ok (
            some (record {
              starting_equity_today = a.starting_equity_today;
              peak_equity = a.peak_equity;
            }))
  unfolding load_daily_state
  load_daily-saved td a up = rw (up, lookup-insert_same) refl

  -- A new agent on a database, after its baselines are set.
  init-frame :
      (td : String) (current : F) (a : Orchestrator F)
      → let b = restore_or_init_daily_state td current a in
        (b.broker ≡ a.broker)
        × (b.store.up ≡ a.store.up)
        × (b.store.broker_state ≡ a.store.broker_state)
        × (b.starting_equity_today
            ≡ (baseline (load_daily_state td a.store) current).starting_equity_today)
        × (b.peak_equity ≡ (baseline (load_daily_state td a.store) current).peak_equity)
  unfolding restore_or_init_daily_state persist_daily_state save_daily_state execute
  init-frame td current a = (refl, ground arith, ground arith, refl, refl)

  load_broker-saved :
      (td : String) (b : Orchestrator F) (old : PaperBroker F)
      → b.store.up ≡ true
      → b.store.broker_state ≡ some (td, snapshot_state old)
      → (restore_broker_state_if_same_day td b).broker
        ≡ (restore_state (snapshot_state old) b.broker).1
  unfolding restore_broker_state_if_same_day load_broker_state snapshot_state
  load_broker-saved td b old up row = rw (up, row, ==-self td) refl

  restore_broker-frame :
      (td : String) (b : Orchestrator F)
      → ((restore_broker_state_if_same_day td b).starting_equity_today ≡ b.starting_equity_today)
        × ((restore_broker_state_if_same_day td b).peak_equity ≡ b.peak_equity)
  unfolding restore_broker_state_if_same_day
  restore_broker-frame td b = (ground arith, ground arith)

  -- What a restart finds in a database that an agent has left.
  record Recovers (a fresh b : Orchestrator F) : Type 0 where
    pub start : b.starting_equity_today ≡ a.starting_equity_today
    pub peak : f.le a.peak_equity b.peak_equity ≡ true
    pub same : b.broker ≡ wired (restore_state (snapshot_state a.broker) fresh.broker).1

  restart-Recovers :
      IsOrdered F
      → (never : F) (td : String) (a fresh : Orchestrator F) → a.store.up ≡ true
      → Recovers a fresh (restart never td (record fresh { store = saved_store td a }))
  unfolding restart baseline
  restart-Recovers o never td a fresh up =
      let found = record fresh { store = saved_store td a } in
      let (broker, still_up, row, start, peak) = init-frame td (equity fresh.broker) found in
      let read = load_daily-saved td a up in
      let (start', peak') = restore_broker-frame td _ in
      record {
        start =
            start'
            ∙ start
            ∙ ap (λ l. (baseline l (equity fresh.broker)).starting_equity_today) read;
        peak = rw (peak', peak, read) (le-max_left o a.peak_equity (equity fresh.broker));
        same = ap wired (
            load_broker-saved td _ a.broker (still_up ∙ up) row
            ∙ ap (λ c. (restore_state (snapshot_state a.broker) c).1) broker);
      }

  -- If the database answers and the positions of the broker are valid, then after the baselines and
  -- the positions have been persisted on a day, an agent that restarts on that day has the same
  -- starting equity, a peak that is at least as high, and a broker with the cash, the realized profit
  -- and exactly the positions of the old one, and with its callbacks set.
  pub restart-recovers :
      IsOrdered F
      → (never : F) (td : String) (a fresh : Orchestrator F) → a.store.up ≡ true
      → IsValid a.broker
      → let saved = persist_broker_state td (persist_daily_state td a) in
        let b = restart never td (successor saved fresh) in
        (b.starting_equity_today ≡ a.starting_equity_today)
        × (f.le a.peak_equity b.peak_equity ≡ true)
        × (b.broker ≡ record fresh.broker {
          cash = a.broker.cash;
          realized_pnl = a.broker.realized_pnl;
          positions = a.broker.positions;
          short_positions = a.broker.short_positions;
          on_exit = true;
          on_state_change = true;
        })
  restart-recovers o never td a fresh up v =
      let r =
        subst (λ s. Recovers a fresh (restart never td (record fresh { store = s })))
          (sym (persisted-store td a up)) (restart-Recovers o never td a fresh up) in
      let sides = v.sides in
      (
        r.start,
        r.peak,
        r.same
            ∙ ap (λ m. wired m.1)
                (restore_state-snapshot_state a.broker fresh.broker
                  (Held-WellKeyed a.broker.positions sides.long_held)
                  (Held-WellKeyed a.broker.short_positions sides.short_held) sides.long_keys
                  sides.short_keys),
      )
