-- ===== src/Network/HttpsMessage/Tests.antt =====
-- The state machine over TLS on concrete inputs.
use myblob.Base.{◌≡◌, refl, true, false, none, some, ◌∷◌, ◌++◌, length}
use myblob.Base.Text.{Bytes, codes, eq_bytes, find, starts_with, find_byte}
use myblob.Base.Map.{emplace, compare_bytes}
use myblob.Utils.DataVector.{reserve, resize}
use myblob.Network.HttpResponse.{
  check_success, deserialize, read_lines, status_line, header_line, without_content, match_code,
  response_type, get_response_type, get_response_code,
}
use myblob.Network.HttpHelper.{
  finished, known_info, finished_info, detect, detect_headers, detect_header, from_chars,
  read_digits, head_length,
}
use myblob.Network.ConnectionManager.{Manager, init}
use myblob.Network.ConnectionManager.Tests.{all_well, new_one, host}
use myblob.Network.HttpMessage.Task.{MessageState, Failures, Env}
use myblob.Network.HttpsMessage.Task.{
  Progress, TlsAnswers, TlsTask, TlsOutcome, continues, tries, returns, throws, crashes, write_at,
}
use myblob.Network.HttpsMessage.Stages.{
  complete_tls, judge_tls, received_piece, tls_recv_stage, recv_into, recv_room, shutdown_stage,
}
use myblob.Network.HttpsMessage.Loop.{tls_round, execute_tls}
use myblob.Network.HttpsMessage.Answered.Carried.{Answered}

abbrev env : Env
env = record { answers = λ n. all_well; recv_submitted = true }

abbrev answer : Bytes
answer =
    codes "HTTP/1.1 200 OK" ++ 13 ∷ 10 ∷ codes "Content-Length: 2" ++ 13 ∷ 10 ∷ 13 ∷ 10 ∷ codes "hi"

abbrev no_failure : Failures
no_failure = record {
  socket = false;
  empty = false;
  timeout = false;
  send = false;
  recv = false;
  http = false;
  tls = false;
}

-- The layer receives the whole answer in one piece.
abbrev layer : TlsAnswers
layer = record {
  set_up = λ n. true;
  connect = λ n. Progress.finished;
  send = λ n l. (Progress.finished, l);
  recv = λ n l. (Progress.finished, answer);
  shutdown = λ n. Progress.finished;
}

abbrev to_receive : TlsTask
to_receive = record {
  base = record {
    address = host;
    port = 443;
    https = true;
    message = codes "GET";
    put_length = 0;
    state = MessageState.receiving;
    failure_code = no_failure;
    data_vector = record {
      capacity = length answer;
      size = length answer;
      data_owned = true;
      memory = some answer;
    };
    response = none;
    request = none;
    send_buffer_offset = 3;
    receive_buffer_offset = 0;
    chunk_size = 100;
    failures = 0;
    info = none;
    connection = some new_one;
  };
  tls_layer = true;
  fd = some 5;
  calls = 2;
}

abbrev last : TlsOutcome
last = execute_tls none layer 3 env to_receive (init 2 300)

abbrev ending : TlsOutcome → TlsTask
ending (continues t m) = t
ending (tries t m) = t
ending (returns t m) = t
ending (throws t m) = t
ending crashes = to_receive

abbrev pool : TlsOutcome → Manager
pool (continues t m) = m
pool (tries t m) = m
pool (returns t m) = m
pool (throws t m) = m
pool crashes = init 2 300

last_state : (ending last).base.state ≡ MessageState.finished
unfolding execute_tls tls_round recv_room recv_into tls_recv_stage received_piece write_at judge_tls
    complete_tls shutdown_stage resize reserve finished known_info finished_info detect
    detect_headers detect_header from_chars read_digits head_length deserialize read_lines
    status_line header_line match_code response_type emplace compare_bytes find starts_with
    find_byte eq_bytes without_content check_success get_response_type get_response_code
last_state = refl
