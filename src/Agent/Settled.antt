-- ===== src/Agent/Settled.antt =====
-- Every command that `_process_command_queue` of core/execution/orchestrator.py reads is settled.
use pypoc.Agent.Outcomes.{Ends, run_command-EndsWell}
use pypoc.Prelude.{
  String, true, false, ◌≡◌, ◌⊎◌, List, [], ◌∷◌, none, some, All, map, arith, ◌==◌, string_eq,
  Bool-cases, inl, inr, subst,
}
use pypoc.Numbers.{Float}
use pypoc.Queue.{
  Command, Line, unreadable, entry, QueueFile, Host, is_settled, set_status, update_status, written,
  read_pending,
}
use pypoc.Agent.State.{Orchestrator}
use pypoc.Agent.Commands.{Desk, run_command, process_commands, process_command_queue, outcome_of}

module _ {F : Type 0} where
  -- A line of that id is done or rejected.
  abbrev pub IsSettledAt : String → Line F → Type 0
  IsSettledAt id (unreadable t) = Unit
  IsSettledAt id (entry c) = (c.id == id) ≡ true → is_settled c ≡ true

  abbrev pub AllSettled : String → QueueFile F → Type 0
  AllSettled id none = Unit
  AllSettled id (some ls) = All (IsSettledAt id) ls

  written-All :
      (P : Line F → Type 0) (ls : List (Line F)) → P (unreadable "") → All P ls → All P (written ls)
  written-All P [] blank h = (blank, tt)
  written-All P (l ∷ ls) blank h = h

  set_status-settles :
      (id status result : String) (l : Line F)
      → Ends status
      → IsSettledAt id (set_status id status result l)
  set_status-settles id status result (unreadable t) ends = tt
  set_status-settles id status result (entry c) ends =
      λ same. ground (arith, string_eq.beq_iff status "done", string_eq.beq_iff status "rejected")

  set_status-keeps :
      (k id status result : String) (l : Line F)
      → (Ends status) ⊎ ((id == k) ≡ false)
      → IsSettledAt k l
      → IsSettledAt k (set_status id status result l)
  set_status-keeps k id status result (unreadable t) h settled = tt
  set_status-keeps k id status result (entry c) h settled = λ same. ground (
    arith,
    settled,
    string_eq.beq_iff status "done",
    string_eq.beq_iff status "rejected",
    string_eq.beq_iff c.id id,
    string_eq.beq_iff c.id k,
    string_eq.beq_iff id k,
  )

  map-All :
      (P Q : Line F → Type 0) (g : Line F → Line F) (ls : List (Line F))
      → ((l : Line F) → P l → Q (g l))
      → All P ls
      → All Q (map g ls)
  map-All P Q g [] h hs = tt
  map-All P Q g (l ∷ ls) h (p, ps) = (h l p, map-All P Q g ls h ps)

  anything : (ls : List (Line F)) → All (λ l. Unit {0}) ls
  anything [] = tt
  anything (l ∷ ls) = (tt, anything ls)

  -- A last status settles the lines of the command, and no status of another command, nor a last one,
  -- unsettles a line.
  update_status-settles :
      (id status result : String) (file : QueueFile F)
      → Ends status
      → AllSettled id (update_status id status result file)
  unfolding update_status
  update_status-settles id status result none ends = tt
  update_status-settles id status result (some ls) ends = written-All (IsSettledAt id) _ tt (
      map-All (λ l. Unit {0}) (IsSettledAt id) _ ls
        (λ l h. set_status-settles id status result l ends) (anything ls))

  update_status-keeps :
      (k id status result : String) (file : QueueFile F)
      → (Ends status) ⊎ ((id == k) ≡ false)
      → AllSettled k file
      → AllSettled k (update_status id status result file)
  unfolding update_status
  update_status-keeps k id status result none h settled = tt
  update_status-keeps k id status result (some ls) h settled = written-All (IsSettledAt k) _ tt (
      map-All (IsSettledAt k) (IsSettledAt k) _ ls (λ l. set_status-keeps k id status result l h)
        settled)

module _ {F : Type 0} where
  -- Both status changes of one command.
  one_more :
      (k id status result : String) (file : QueueFile F)
      → Ends status
      → AllSettled k file
      → AllSettled k (update_status id status result (update_status id "processing" "" file))
  one_more k id status result file ends settled = elim (Bool-cases (id == k)) [
    | inl same ↦
        subst
          (λ j.
            AllSettled j (update_status id status result (update_status id "processing" "" file)))
          ((string_eq.beq_iff id k).0 same) (update_status-settles id status result _ ends)
    | inr other ↦
        update_status-keeps k id status result _ (inl ends)
          (update_status-keeps k id "processing" "" file (inr other) settled)
  ]

module _ {F : Type 0} ⦃f : Float F⦄ (d : Desk F) where
  process_commands-settles :
      (cs : List (Command F)) (a : Orchestrator F) (file : QueueFile F)
      → All (λ c. AllSettled c.id (process_commands d cs (a, file)).1) cs
        × ((k : String) → AllSettled k file → AllSettled k (process_commands d cs (a, file)).1)
  unfolding process_commands
  process_commands-settles [] a file = (tt, λ k settled. settled)
  process_commands-settles (c ∷ cs) a file =
      let m = run_command d c a in
      let running = update_status c.id "processing" "" file in
      let after = update_status c.id (outcome_of m.0).0 (outcome_of m.0).1 running in
      let ends = run_command-EndsWell d c a in
      let (all, keeps) = process_commands-settles cs m.1 after in
      (
        (keeps c.id (update_status-settles c.id _ _ running ends), all),
        λ k settled. keeps k (one_more k c.id _ _ file ends settled),
      )

  -- Every command that was read from the file is done or rejected in the file that is left: no line
  -- with its id waits or is in process, whatever the command asked for and whether it raised.
  pub process_command_queue-settles :
      (s : Host F) (a : Orchestrator F) (file : QueueFile F)
      → All (λ c. AllSettled c.id (process_command_queue d s (a, file)).1) (read_pending s file).0
  unfolding process_command_queue
  process_command_queue-settles s a file =
      (process_commands-settles (read_pending s file).0 a (read_pending s file).1).0
