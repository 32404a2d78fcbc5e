-- ===== src/MgServer/Tests.antt =====
-- The data of the runs of gencode/mg_server/server at concrete inputs.
mod Parsing
mod Serving
use mg_raffle.Base.{
  ℕ, ◌≡◌, ◌≢◌, refl, true, false, none, some, List, [], ◌∷◌, ◌++◌, arith, if◌then◌else◌, ◌==◌,
}
use mg_raffle.Base.Int.{pos}
use mg_raffle.Base.Run.{Run, fault, out_of_fuel}
use mg_raffle.MgServer.Buffers.{MBuffer, MBufferGuard, allocate, give_back}
use mg_raffle.MgServer.Parser.{
  MRequest, MConnection, new_request, new_connection, m_rpc_header, parse_connection,
}
use mg_raffle.MgServer.Table.{
  Server, sent, send_failed, got, recv_failed, get_conn, create_conn, close_conn,
}
use mg_raffle.MgServer.Sending.{int_bytes, response_bytes, send_loop, do_response}
use mg_raffle.MgServer.Receiving.{
  Protobuf, release_request, recv_run, on_data, Event, accepted, accept_failed, ready, event_loop,
}
use mg_raffle.MgServer.Frame.{Message, frame, start, decode}
use mg_raffle.MgServer.Frame.RoundTrip.{decode-response_bytes, misread}
use mg_raffle.MgServer.Refine.Connection.{Expects}
use mg_raffle.MgServer.Refine.Loop.{Reaches, session}
use mg_raffle.MgServer.Refine.Rounds.{parser_with}
use mg_raffle.MgServer.Refine.Rewinds.{minus_8, parse_connection_never_ends}
use mg_raffle.MgServer.Refine.Stream.{parse_connection-Parses}
use mg_raffle.MgServer.Refine.Feed.{
  receive_each, Delivers, new_connection-Expects, receive_each-Delivers, receive_each-response,
  receive_each-second,
}
use mg_raffle.MgServer.Serving.Closing.{get_conn-after, Gone, send_loop_fails}
use mg_raffle.MgServer.Serving.Responses.{Queues, do_response-Queues}
use mg_raffle.MgServer.Serving.Buffering.{release_request_lem, recv_run_overruns}
use mg_raffle.MgServer.Serving.Answering.{Sends, reply_to, on_data-Sends}
use mg_raffle.MgServer.Serving.Watching.{Serves}
use mg_raffle.MgServer.Serving.Events.{event_loop-Serves}
use mg_raffle.MgServer.Serving.Taking.{received, bytes_in, TakesIn, on_data-TakesIn}

abbrev pub garbage : List ℕ
garbage = 255 ∷ 255 ∷ 255 ∷ 255 ∷ 255 ∷ 255 ∷ 255 ∷ 255 ∷ []

abbrev pub head : List ℕ
head = 5 ∷ []

abbrev pub body : List ℕ
body = 7 ∷ 9 ∷ []

abbrev pub message : Message
message = record { head = head; body = body }

abbrev pub connection : MConnection
connection = new_connection (pos 6) (1 ∷ []) (pos 80)

pub some_body : body ≢ []
some_body e = cc

pub one_response : decode (response_bytes head body) (start 4) ≡ some (start 0, message ∷ [])
one_response = decode-response_bytes head body (omega arith) (omega arith) some_body
