-- ===== src/Queue.antt =====
-- core/command_queue.py: the file of commands, line by line. A line is what `json.loads` makes of it:
-- a command with the fields that `enqueue` writes, or unreadable. Reading and writing the file do not
-- fail. `read_pending` iterates over the open file, which a rejection rewrites meanwhile, so what the
-- iteration yields is an argument (`Host`).
pub mod Pending
use Prim.Native.Char.{code}
use pypoc.Prelude.{
  String, Bool, true, false, not, Option, none, some, List, [], ◌∷◌, ◌++◌, map, any, keep, ltb,
  if◌then◌else◌, ◌==◌, string_eq, ◌&&◌, ◌||◌,
}
use pypoc.Prelude.Result.{Result, ok, raises, value_error}
use pypoc.Prelude.Json.{Fields}

pub record Command (F : Type 0) : Type 0 where
  pub id : String
  pub kind : String
  pub params : Fields F
  pub requested_at : String
  pub status : String
  pub result : Option String
  pub sig : String

pub data Line (F : Type 0) : Type 0 where
  unreadable : String → Line F
  entry : Command F → Line F

-- The file, if there is one.
abbrev pub QueueFile : Type 0 → Type 0
QueueFile F = Option (List (Line F))

-- What the process brings: `COMMAND_QUEUE_SECRET`, the hex digest of HMAC-SHA256 of the four fields in
-- canonical JSON, and the lines that the iteration over the file yields in a reading, by the lines
-- that the file has when it is opened. Text is read in blocks, so that lines of a file that is
-- rewritten meanwhile may be skipped, torn or yielded twice.
pub record Host (F : Type 0) : Type 0 where
  pub secret : String
  pub digest : String → String → String → Fields F → String → String
  pub yields : List (Line F) → List (Line F)

abbrev pub allowed_types : List String
allowed_types =
    "halt_agent" ∷ "resume_agent" ∷ "update_risk_param" ∷ "place_paper_order" ∷ "reload_config" ∷ []

abbrev pub is_allowed : String → Bool
is_allowed kind = any (λ t. t == kind) allowed_types

-- What `compare_digest` accepts of a text.
abbrev pub is_ascii : String → Bool
is_ascii String.[] = true
is_ascii (String.◌∷◌ c s) = ltb (code c) 128 && is_ascii s

-- What `read_pending` does with a line.
pub data Judgement : Type 0 where
  taken refused ignored : Judgement

module _ {F : Type 0} where
  unfoldable pub sign : Host F → String → String → Fields F → String → String
  sign s id kind params requested_at =
      if s.secret == "" then "" else s.digest s.secret id kind params requested_at

  abbrev pub own_signature : Host F → Command F → String
  own_signature s c = sign s c.id c.kind c.params c.requested_at

  unfoldable pub enqueue :
      Host F → String → String → String → Fields F → QueueFile F → Result (Command F) × QueueFile F
  enqueue s id requested_at kind params file =
      let cmd : Command F = record {
        id = id;
        kind = kind;
        params = params;
        requested_at = requested_at;
        status = "pending";
        result = none;
        sig = sign s id kind params requested_at;
      } in
      let lines : List (Line F) = elim file [ none ↦ [] | some ls ↦ ls ] in
      if not (is_allowed kind)
      then (raises value_error, file)
      else (ok cmd, some (lines ++ (entry cmd ∷ [])))

  abbrev pub set_status : String → String → String → Line F → Line F
  set_status id status result (unreadable t) = unreadable t
  set_status id status result (entry c) =
      entry (if c.id == id then record c { status = status; result = some result } else c)

  -- Lines that are joined and end in a line break: no line at all is read back as a blank one.
  abbrev pub written : List (Line F) → List (Line F)
  written [] = unreadable "" ∷ []
  written (l ∷ ls) = l ∷ ls

  unfoldable pub update_status : String → String → String → QueueFile F → QueueFile F
  update_status id status result none = none
  update_status id status result (some lines) =
      some (written (map (set_status id status result) lines))

  unfoldable pub judge : Host F → Command F → Judgement
  judge s c =
      if not (c.status == "pending")
      then ignored
      else if s.secret == ""
      then taken
      else if c.sig == ""
      then refused
      else if not (is_ascii c.sig)
      then ignored
      else if own_signature s c == c.sig
      then taken
      else refused

  -- The loop of `read_pending` over the lines that are yielded, with the file that it changes.
  unfoldable pub read_lines : Host F → List (Line F) → QueueFile F → List (Command F) × QueueFile F
  read_lines s [] file = ([], file)
  read_lines s (unreadable t ∷ ls) file = read_lines s ls file
  read_lines s (entry c ∷ ls) file =
      let verdict = judge s c in
      let rest = read_lines s ls (elim verdict [
        | refused ↦ update_status c.id "rejected" "bad signature" file
        | _ ↦ file
      ]) in
      (elim verdict [ taken ↦ c ∷ rest.0 | _ ↦ rest.0 ], rest.1)

  unfoldable pub read_pending : Host F → QueueFile F → List (Command F) × QueueFile F
  read_pending s none = ([], none)
  read_pending s (some lines) = read_lines s (s.yields lines) (some lines)

  abbrev pub is_settled : Command F → Bool
  is_settled c = c.status == "done" || c.status == "rejected"

  -- The lines that stay, if every line can be read.
  abbrev pub unsettled : List (Line F) → Result (List (Line F))
  unsettled [] = ok []
  unsettled (unreadable t ∷ ls) = raises value_error
  unsettled (entry c ∷ ls) = elim (unsettled ls) [
    | raises e ↦ raises e
    | ok rest ↦ ok (if is_settled c then rest else entry c ∷ rest)
  ]

  unfoldable pub clear_done : QueueFile F → Result (Unit {0}) × QueueFile F
  clear_done none = (ok tt, none)
  clear_done (some lines) = elim (unsettled lines) [
    | raises e ↦ (raises e, some lines)
    | ok rest ↦ (ok tt, some rest)
  ]
