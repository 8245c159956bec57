-- ===== src/Network/HttpMessage/Tests.antt =====
-- The state machine on concrete inputs.
use myblob.Base.{◌≡◌, ◌≢◌, refl, true, false, none, some, [], ◌∷◌, ◌++◌, arith, length}
use myblob.Base.Text.{Bytes, codes, eq_bytes, find, starts_with, find_byte}
use myblob.Base.Map.{emplace, compare_bytes}
use myblob.Utils.DataVector.{owned, reserve, resize}
use myblob.Network.HttpResponse.{
  check_success, deserialize, read_lines, status_line, header_line, without_content, match_code,
  response_type, get_response_type, get_response_code,
}
use myblob.Network.HttpHelper.{
  finished, known_info, finished_info, detect, detect_headers, detect_header, from_chars,
  read_digits, head_length,
}
use myblob.Network.ConnectionManager.{Manager, init}
use myblob.Network.ConnectionManager.Tests.{all_well, new_one, host}
use myblob.Network.HttpMessage.Task.{
  MessageState, Failures, bytes, try_again, Task, Env, Outcome, continues, returns, throws, success,
}
use myblob.Network.HttpMessage.Receiving.{receive_stage, examine, judge, complete}
use myblob.Network.HttpMessage.Resets.{Fresh, FreshIn}
use myblob.Network.HttpMessage.Loop.{round, execute}
use myblob.Network.HttpMessage.Ends.{IsOver, execute_ends}
use myblob.Network.HttpMessage.Failed.{execute-failed}
use myblob.Network.HttpMessage.Finished.{IsWhole, execute-finished}
use myblob.Network.HttpMessage.Borrowed.{try_again_throws}

abbrev env : Env
env = record { answers = λ n. all_well; recv_submitted = true }

abbrev no_failure : Failures
no_failure = record {
  socket = false;
  empty = false;
  timeout = false;
  send = false;
  recv = false;
  http = false;
  tls = false;
}

abbrev answer : Bytes
answer =
    codes "HTTP/1.1 200 OK" ++ 13 ∷ 10 ∷ codes "Content-Length: 2" ++ 13 ∷ 10 ∷ 13 ∷ 10 ∷ codes "hi"

-- The whole answer has been received by one request.
abbrev at_end : Task
at_end = record {
  address = host;
  port = 80;
  https = false;
  message = codes "GET";
  put_length = 0;
  state = MessageState.receiving;
  failure_code = record no_failure { timeout = true };
  data_vector = record {
    capacity = length answer;
    size = length answer;
    data_owned = true;
    memory = some answer;
  };
  response = none;
  request = some (record { length = bytes (length answer); fd = some 5 });
  send_buffer_offset = 3;
  receive_buffer_offset = 0;
  chunk_size = 100;
  failures = 1;
  info = none;
  connection = some new_one;
}

abbrev ending : Outcome → Task
ending (continues t m) = t
ending (returns t m) = t
ending throws = at_end

abbrev pool : Outcome → Manager
pool (continues t m) = m
pool (returns t m) = m
pool throws = init 2 300

abbrev last : Outcome
last = execute none 8 env at_end (init 2 300)

last_state : (ending last).state ≡ MessageState.finished
unfolding execute round receive_stage resize reserve examine judge complete finished known_info
    finished_info detect detect_headers detect_header from_chars read_digits head_length deserialize
    read_lines status_line header_line match_code response_type emplace compare_bytes find
    starts_with find_byte eq_bytes without_content check_success get_response_type get_response_code
last_state = refl

last_returns : last ≡ returns (ending last) (pool last)
unfolding execute round receive_stage resize reserve examine judge complete finished known_info
    finished_info detect detect_headers detect_header from_chars read_digits head_length deserialize
    read_lines status_line header_line match_code response_type emplace compare_bytes find
    starts_with find_byte eq_bytes without_content check_success get_response_type get_response_code
last_returns = refl

execute_ends_example : IsOver last
execute_ends_example = execute_ends none 8 env at_end (init 2 300) (omega arith)

execute-failed_example : success (ending last) ≡ false
execute-failed_example =
    execute-failed none 8 env at_end (ending last) (init 2 300) (pool last) refl last_returns

not_at_end : at_end.state ≢ MessageState.finished
not_at_end = λ e. cc

execute-finished_example :
    Fresh (ending last) × ((ending last).state ≡ MessageState.finished → IsWhole none (ending last))
unfolding FreshIn
execute-finished_example =
    execute-finished none 7 env at_end (ending last) (init 2 300) (pool last) (λ z. refl) not_at_end
      last_returns

-- Memory of ten bytes is lent, and the request for all of it has not been served yet.
abbrev lent : Task
lent = record at_end {
  data_vector = record {
    capacity = 10;
    size = 10;
    data_owned = false;
    memory = some (0 ∷ 0 ∷ 0 ∷ 0 ∷ 0 ∷ 0 ∷ 0 ∷ 0 ∷ 0 ∷ 0 ∷ []);
  };
  request = some (record { length = try_again; fd = some 5 });
}

try_again_throws_example : execute none 8 env lent (init 2 300) ≡ throws
unfolding owned
try_again_throws_example =
    try_again_throws none 7 env lent (init 2 300) (some 5) refl refl refl refl (omega arith)
      (omega arith)
