-- ===== src/Examples/QueueRuns.antt =====
-- The command queue with a toy digest: commands that are signed, forged and put in, and what the
-- agent makes of them.
use pypoc.Agent.State.{Orchestrator}
use pypoc.Prelude.{
  arith, ◌≡◌, refl, String, List, [], ◌∷◌, ◌++◌, none, some, true, All, ◌⊎◌, string_eq, keep,
}
use pypoc.Prelude.Json.{Fields, no_fields, field, text, number}
use pypoc.Prelude.Result.{ok, raises, value_error}
use pypoc.Numbers.{Micro, micro_float}
use pypoc.Queue.{
  Command, Line, unreadable, entry, Host, read_pending, enqueue, judge, sign, read_lines,
}
use pypoc.Queue.Pending.{
  read_pending-IsAuthentic, enqueue-read_pending, IsHex, IsAuthentic, IsSteady, NoneRefused,
  is_taken, commands_of,
}
use pypoc.Agent.Commands.{Desk, run_command, process_command_queue}
use pypoc.Agent.Settled.{process_command_queue-settles, AllSettled}
use pypoc.Agent.Commanded.{run_command-IsPlaced, ManualOrder}
use pypoc.Agent.Idle.{process_command_queue-idle}
use pypoc.Examples.Data.{rupees, broker, ten_oclock}
use pypoc.Examples.AgentRuns.{agent}

abbrev pub signer : Host Micro
signer = record { secret = "key"; digest = λ k id kind params at. "ab12"; yields = λ ls. ls }

abbrev command : String → String → Fields Micro → String → Command Micro
command id kind params sig = record {
  id = id;
  kind = kind;
  params = params;
  requested_at = "2026-03-02T10:00:00";
  status = "pending";
  result = none;
  sig = sig;
}

abbrev order_params : Fields Micro
order_params =
    field "symbol" (text "TCS")
      (field "side" (text "BUY") (field "qty" (number (rupees 10)) no_fields))

abbrev pub halt : Command Micro
halt = command "c1" "halt_agent" no_fields "ab12"

abbrev forged : Command Micro
forged = command "c2" "resume_agent" no_fields "00"

abbrev order : Command Micro
order = command "c3" "place_paper_order" order_params "ab12"

abbrev lines : List (Line Micro)
lines = entry halt ∷ unreadable "{" ∷ entry forged ∷ entry order ∷ []

-- The forged command is not read.
reads_two : (read_pending signer (some lines)).0 ≡ halt ∷ order ∷ []
unfolding read_pending read_lines judge sign
reads_two = refl

signer-IsSteady : IsSteady signer
signer-IsSteady = record { yields_lines = λ ls calm. refl }

read_pending-IsAuthentic_example :
    All (IsAuthentic signer) (read_pending signer (some lines)).0
    × ((read_pending signer (some lines)).0 ≡ keep (is_taken signer) (commands_of signer lines))
    × (NoneRefused signer lines
        → (read_pending signer (some lines)).0 ≡ keep (is_taken signer) (commands_of signer lines))
read_pending-IsAuthentic_example = read_pending-IsAuthentic signer lines refl signer-IsSteady

signer-IsHex : IsHex signer
signer-IsHex = record { ascii = λ id kind at params. refl; not_empty = λ id kind at params. refl }

-- A file of which every command is taken.
abbrev signed_lines : List (Line Micro)
signed_lines = entry halt ∷ unreadable "{" ∷ entry order ∷ []

none_refused : NoneRefused signer signed_lines
unfolding judge sign
none_refused = ((λ e. absurd (ground arith)), ((λ e. absurd (ground arith)), tt))

enqueue-read_pending_example :
    (cmd : Command Micro) × (cmd.id ≡ "c4")
    × (cmd.kind ≡ "reload_config")
    × (cmd.params ≡ no_fields)
    × ((enqueue signer "c4" "2026-03-02T10:01:00" "reload_config" no_fields (some signed_lines)).0
        ≡ ok cmd)
    × ((read_pending signer
          (enqueue signer "c4" "2026-03-02T10:01:00" "reload_config" no_fields
            (some signed_lines)).1).0
        ≡ (read_pending signer (some signed_lines)).0 ++ (cmd ∷ []))
enqueue-read_pending_example =
    enqueue-read_pending signer "c4" "2026-03-02T10:01:00" "reload_config" no_fields signed_lines
      signer-IsHex signer-IsSteady none_refused refl

abbrev pub desk : Desk Micro
desk = record {
  now = ten_oclock;
  ids = λ id. id;
  str = λ j. "";
  float_of = λ t. raises value_error;
  int_of = λ t. raises value_error;
  reloaded = raises value_error;
  reloaded_at = rupees 0;
}

process_command_queue-settles_example :
    All
      (λ c.
        AllSettled c.id (process_command_queue desk signer (agent (broker [] []), some lines)).1)
      (read_pending signer (some lines)).0
process_command_queue-settles_example =
    process_command_queue-settles desk signer (agent (broker [] [])) (some lines)

run_command-IsPlaced_example :
    ((run_command desk order (agent (broker [] []))).1.broker ≡ broker [] [])
    ⊎ ManualOrder desk "c3" order_params
        (agent (broker [] []))
        (run_command desk order (agent (broker [] []))).1.broker
run_command-IsPlaced_example = run_command-IsPlaced desk order (agent (broker [] []))

abbrev halted_agent : Orchestrator Micro
halted_agent = record (agent (broker [] [])) { halted = true }

process_command_queue-idle_example :
    ((process_command_queue desk signer (halted_agent, some lines)).0.broker ≡ broker [] [])
    × ((process_command_queue desk signer (halted_agent, some lines)).0.halted ≡ true)
process_command_queue-idle_example =
    process_command_queue-idle desk signer halted_agent (some lines)
      (rw reads_two (refl, (refl, tt))) refl
