-- ===== src/MgServer/Tests/Serving.antt =====
-- Runs of `recv_run`, `do_response` and `SendBuf`, and of the loop over the events.
use mg_raffle.Base.{ℕ, ◌≡◌, refl, true, false, none, some, List, [], ◌∷◌, arith}
use mg_raffle.Base.Int.{pos}
use mg_raffle.Base.Run.{fault, ◌>>◌}
use mg_raffle.MgServer.Buffers.{MBuffer, MBufferGuard, new_buffer, allocate, give_back}
use mg_raffle.MgServer.Parser.{MRequest, new_request, new_connection}
use mg_raffle.MgServer.Table.{
  Server, sent, send_failed, got, recv_failed, get_conn, create_conn, close_conn,
}
use mg_raffle.MgServer.Sending.{response_bytes, send_loop, do_response}
use mg_raffle.MgServer.Receiving.{
  Protobuf, release_request, recv_run, on_data, Event, accepted, accept_failed, ready, event_loop,
}
use mg_raffle.MgServer.Frame.{start, decode}
use mg_raffle.MgServer.Refine.Feed.{new_connection-Expects}
use mg_raffle.MgServer.Serving.Closing.{get_conn-after, Gone, send_loop_fails}
use mg_raffle.MgServer.Serving.Responses.{Queues, do_response-Queues}
use mg_raffle.MgServer.Serving.Buffering.{release_request_lem, recv_run_overruns}
use mg_raffle.MgServer.Serving.Answering.{Sends, reply_to, on_data-Sends}
use mg_raffle.MgServer.Serving.Watching.{Serves}
use mg_raffle.MgServer.Serving.Events.{event_loop-Serves}
use mg_raffle.MgServer.Serving.Taking.{received, bytes_in, TakesIn, on_data-TakesIn}
use mg_raffle.MgServer.Tests.{garbage, head, body, message, connection, one_response}

-- Buffers of 24 bytes.
abbrev empty_bytes : List ℕ
empty_bytes =
    0 ∷ 0 ∷ 0 ∷ 0 ∷ 0 ∷ 0 ∷ 0 ∷ 0 ∷ 0 ∷ 0 ∷ 0 ∷ 0 ∷ 0 ∷ 0 ∷ 0 ∷ 0 ∷ 0 ∷ 0 ∷ 0 ∷ 0 ∷ 0 ∷ 0 ∷ 0 ∷ 0
    ∷ []

abbrev buffer_behind : ℕ → MBuffer
buffer_behind k = record {
  buf = empty_bytes;
  capacity = pos 24;
  cur_index = pos k;
  remain = pos 24;
}

abbrev a_guard : MBufferGuard
a_guard = record { buf = 3; buf_free = false; size = pos 2; index = pos 0 }

-- Two buffers in the pool, at the position `k`, and one connection with a queued part.
abbrev server_with : ℕ → Server
server_with k = record {
  memory = record { buffers = λ i. buffer_behind k; pool = 0 ∷ 1 ∷ [] };
  objects = λ c. record connection {
    send_buf = record (connection.send_buf) { buf_list = a_guard ∷ []; total_bytes = pos 2 };
  };
  made = 1;
  conns = (pos 6, 0) ∷ [];
  opened = pos 6 ∷ [];
  watched = pos 6 ∷ [];
  recvs = got (1 ∷ 2 ∷ 3 ∷ []) ∷ [];
  sends = sent 4 ∷ [];
  offered = [];
}

get_conn-after_example :
    (get_conn (pos 6) (close_conn (pos 6) (server_with 0)) ≡ none)
    × (get_conn (pos 6) (create_conn (pos 6) [] (pos 9) (server_with 0)) ≡ some 0)
unfolding get_conn
get_conn-after_example = get_conn-after (pos 6) (pos 6) [] (pos 9) (server_with 0)

-- The socket is full.
send_loop_fails_example :
    Gone
      (pos 6)
      (send_loop 3 (pos 6) 0 (record (server_with 0) { sends = send_failed 11 ∷ sent 2 ∷ [] }))
unfolding new_connection
send_loop_fails_example =
    send_loop_fails 2 (pos 6) 0 11 (record (server_with 0) { sends = send_failed 11 ∷ sent 2 ∷ [] })
      a_guard (sent 2 ∷ []) refl refl (omega arith)

do_response-Queues_example :
    Queues 0
      (a_guard ∷ [])
      (response_bytes head body)
      (1 ∷ [])
      4
      (do_response (pos 6) 0 head body (server_with 5))
unfolding new_connection
do_response-Queues_example =
    do_response-Queues (pos 6) 0 0 5 head body (server_with 5) (1 ∷ []) refl refl 3 10 []
      (omega arith) refl refl

-- Both parts of the request stand in one buffer.
abbrev request : MRequest
request = record (new_request garbage) {
  rpc_header_buf = record (connection.send_buf) { buf_list = a_guard ∷ [] };
  rpc_body_buf = record (connection.send_buf) { buf_list = a_guard ∷ [] };
}

release_request_lem_example :
    release_request request ((server_with 0).memory)
    ≡ record ((server_with 0).memory) { pool = 0 ∷ 1 ∷ 3 ∷ 3 ∷ [] }
release_request_lem_example =
    release_request_lem request ((server_with 0).memory) (refl, tt) (refl, tt)

abbrev proto : Protobuf
proto = record {
  RpcHeader = List ℕ;
  HelloReq = List ℕ;
  HelloRes = List ℕ;
  parse_header = λ bytes. bytes;
  is_hello = λ h. true;
  set_response = λ h. h;
  serialize_header = λ h. h;
  parse_req = λ bytes. bytes;
  new_res = [];
  set_name = λ name res. name;
  serialize_res = λ res. res;
}

-- One new buffer of 24 bytes, for a response of 15; then a client sends ten.
abbrev fresh : Server
fresh = record (server_with 0) {
  memory = record { buffers = λ i. new_buffer (some empty_bytes) (pos 24); pool = 0 ∷ [] };
  sends = sent 15 ∷ [];
  recvs = got (1 ∷ 2 ∷ 3 ∷ 4 ∷ 5 ∷ 6 ∷ 7 ∷ 8 ∷ 9 ∷ 10 ∷ []) ∷ [];
}

recv_run_overruns_example :
    (do_response (pos 6) 0 head body >> recv_run proto garbage (pos 0) (pos 6)) fresh ≡ fault
unfolding get_conn
recv_run_overruns_example =
    recv_run_overruns proto garbage (pos 0) (pos 6) (pos 6) 0 0 0 14 1 head body
      (2 ∷ 3 ∷ 4 ∷ 5 ∷ 6 ∷ 7 ∷ 8 ∷ 9 ∷ 10 ∷ []) empty_bytes [] [] fresh refl refl refl refl refl
      (omega arith) refl (omega arith) (omega arith)

abbrev waiting : Server
waiting = record (server_with 5) { objects = λ c. connection }

-- The first two bytes of a magic number.
on_data-TakesIn_example :
    TakesIn proto garbage
      (pos 0)
      0
      0
      5
      (112 ∷ 101 ∷ [])
      (start 2)
      waiting
      (on_data proto garbage (pos 0) (pos 6) 0 0 (112 ∷ 101 ∷ []) waiting)
unfolding decode
on_data-TakesIn_example =
    on_data-TakesIn proto garbage (pos 0) refl (pos 6) 0 0 5 (112 ∷ 101 ∷ []) waiting (start 4)
      (start 2) refl (omega arith)
      (new_connection-Expects
        (bytes_in proto garbage (pos 0)
          (received proto garbage (pos 0) 0 5 (112 ∷ 101 ∷ []) waiting))
        garbage (pos 0) (pos 0) (pos 0) refl (pos 6) (1 ∷ []) (pos 80))
      refl

-- A request, and the buffer 1 for the answer.
abbrev asked : Server
asked = record waiting {
  memory = record (waiting.memory) { pool = 1 ∷ [] };
  sends = sent 18 ∷ send_failed 11 ∷ [];
}

on_data-Sends_example :
    Sends
      (pos 6)
      (reply_to proto garbage (pos 0) message)
      (send_failed 11 ∷ [])
      asked
      (on_data proto garbage (pos 0) (pos 6) 0 0 (response_bytes head body) asked)
on_data-Sends_example =
    on_data-Sends proto garbage (pos 0) refl (pos 6) 0 0 5 (response_bytes head body) asked
      (start 4) (start 0) message 1 5 17 [] (send_failed 11 ∷ []) refl (omega arith)
      (new_connection-Expects
        (bytes_in proto garbage (pos 0)
          (received proto garbage (pos 0) 0 5 (response_bytes head body) asked))
        garbage (pos 0) (pos 0) (pos 0) refl (pos 6) (1 ∷ []) (pos 80))
      one_response refl refl (λ e. omega arith) refl (omega arith) refl refl

-- A byte of a request and a full socket, between two clients.
abbrev busy : Server
busy = record (server_with 0) { recvs = got (112 ∷ []) ∷ recv_failed 11 ∷ []; sends = sent 2 ∷ [] }

abbrev reports : List Event
reports =
    accepted true (pos 7) (2 ∷ []) (pos 81)
    ∷ ready 3 (pos 6) true true
    ∷ accept_failed
    ∷ accepted false (pos 8) (3 ∷ []) (pos 82)
    ∷ []

event_loop-Serves_example : Serves (event_loop proto garbage (pos 0) reports busy)
event_loop-Serves_example =
    event_loop-Serves proto garbage (pos 0) reports busy ((refl, tt), (refl, tt))

-- The buffer that came back is the next one handed out of an empty pool.
first_again : (allocate (give_back 7 (record { buffers = buffer_behind; pool = [] }))).0 ≡ some 7
unfolding allocate give_back
first_again = refl
