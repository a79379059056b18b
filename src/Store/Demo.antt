-- ===== src/Store/Demo.antt =====
-- A small store as test data: a journal with its first event, and a session on it.
use eoduksini.Base.Result.{ok}
use eoduksini.Base.Path.{equal_codes}
use eoduksini.Base.Text.{codes, byte_length}
use eoduksini.Controller.Demo.{
  running_state, lax, hash, sample_request, sample_project, sample_policy, sample_approval, clear,
}
use eoduksini.Store.Encode.{line_of, event_body}
use eoduksini.Store.{Meta, Runtime, Disk, Session, directory, newline}
use eoduksini.Controller.Types.{Event, State, Payload, init, approved}
use eoduksini.Base.{ℕ, List, none, some, true, [], ◌∷◌, if◌then◌else◌, ◌++◌}

abbrev pub init_payload : Payload
init_payload = init "/repo" sample_project sample_policy none

abbrev pub no_files : Runtime
no_files = record {
  resolve = λ p. p;
  is_absolute = λ p. true;
  join = λ s p. s;
  relative = λ a b. codes "../x";
  real_path = λ p. "/repo";
  parse = λ line. none;
  head = λ repo project. "h";
  policy_contract = λ _. ok tt;
  print_memory = λ n. "0.5";
}

abbrev pub init_event : Event
init_event = record {
  seq = 1;
  prev_digest = none;
  control_epoch = 1;
  payload = init_payload;
  digest = hash;
  body = event_body no_files 1 none 1 init_payload;
}

abbrev pub approved_payload : Payload
approved_payload = approved sample_request sample_approval (some clear)

abbrev pub approved_event : Event
approved_event = record {
  seq = 2;
  prev_digest = some hash;
  control_epoch = 1;
  payload = approved_payload;
  digest = hash;
  body = event_body no_files 2 (some hash) 1 approved_payload;
}

-- `JSON.parse` on the two lines.
abbrev pub demo : Runtime
demo = record no_files {
  parse = λ line.
      if equal_codes line (line_of lax init_event)
      then some init_event
      else if equal_codes line (line_of lax approved_event)
      then some approved_event
      else none;
}

abbrev pub first_state : State
first_state = record running_state {
  approvals = [];
  attempts = [];
  semantic_assessments = [];
  reservation = none;
}

abbrev pub first_line : List ℕ
first_line = line_of lax init_event ++ newline ∷ []

abbrev pub first_meta : Meta
first_meta = record {
  state = first_state;
  seq = 1;
  last_digest = hash;
  bytes = byte_length first_line;
}

abbrev pub first_session : Session
first_session = record {
  token = "t";
  valid = true;
  journal_identity = 5;
  meta = first_meta;
  prepared_here = [];
}

abbrev pub disk_with : List ℕ → Disk
disk_with content = record {
  owner = some (some "t");
  journal = some (record { identity = 5; links = 1; content = content });
  kind_of = λ p. some directory;
}

abbrev pub first_disk : Disk
first_disk = disk_with first_line

abbrev pub approved_state : State
approved_state = record running_state { attempts = []; reservation = none }
