-- ===== src/MgServer/Tests/Parsing.antt =====
-- Runs of `parse_connection` and what surrounds it.
use mg_raffle.Base.{ℕ, ◌≡◌, refl, some, List, [], ◌∷◌, ◌++◌, arith, if◌then◌else◌, ◌==◌}
use mg_raffle.Base.Int.{pos}
use mg_raffle.Base.Run.{Run, out_of_fuel}
use mg_raffle.MgServer.Parser.{
  MRequest, MConnection, new_request, new_connection, m_rpc_header, parse_connection,
}
use mg_raffle.MgServer.Sending.{int_bytes, response_bytes}
use mg_raffle.MgServer.Frame.{frame, start}
use mg_raffle.MgServer.Frame.RoundTrip.{misread}
use mg_raffle.MgServer.Refine.Connection.{Expects}
use mg_raffle.MgServer.Refine.Loop.{Reaches, session}
use mg_raffle.MgServer.Refine.Rounds.{parser_with}
use mg_raffle.MgServer.Refine.Rewinds.{minus_8, parse_connection_never_ends}
use mg_raffle.MgServer.Refine.Stream.{parse_connection-Parses}
use mg_raffle.MgServer.Refine.Feed.{
  receive_each, Delivers, new_connection-Expects, receive_each-Delivers, receive_each-response,
  receive_each-second,
}
use mg_raffle.MgServer.Tests.{garbage, head, body, message, connection, some_body, one_response}

-- The response in the middle of a buffer.
abbrev padded : ℕ → List ℕ
padded i = 0 ∷ (response_bytes head body ++ 3 ∷ [])

parse_connection-Parses_example :
    Reaches padded garbage (pos 0) 4 (pos 17) (pos 17) (3 ∷ []) refl (start 0) (message ∷ []) [] (
      parse_connection garbage
        (pos 0)
        4
        48
        (pos 15)
        (session padded garbage (pos 0) 4 (pos 17) (pos 17) (3 ∷ []) refl connection 1))
parse_connection-Parses_example =
    parse_connection-Parses padded garbage (pos 0) 4 (pos 17) (pos 17) (3 ∷ []) refl 48 (0 ∷ [])
      (response_bytes head body) (start 4) (start 0) (message ∷ []) connection refl
      (new_connection-Expects padded garbage (pos 0) (pos 17) (pos 17) refl (pos 6) (1 ∷ [])
        (pos 80))
      one_response (omega arith)

-- The response in three buffers, cut inside the magic number and inside the second length.
abbrev pieces : ℕ → List ℕ
pieces i =
    if i == 0
    then 112 ∷ 101 ∷ 110 ∷ []
    else (if i == 1 then 103 ∷ 1 ∷ 0 ∷ 0 ∷ 0 ∷ 2 ∷ 0 ∷ [] else 0 ∷ 0 ∷ 5 ∷ 7 ∷ 9 ∷ [])

abbrev receive : List ℕ → MConnection → Run MConnection (List MRequest)
receive = receive_each pieces garbage (pos 0) (pos 1024) (pos 1024)

receive_each-Delivers_example :
    Delivers pieces garbage
      (pos 0)
      (pos 1024)
      (pos 1024)
      (start 0)
      (message ∷ [])
      (receive (0 ∷ 1 ∷ 2 ∷ []) connection)
receive_each-Delivers_example =
    receive_each-Delivers pieces garbage (pos 0) (pos 1024) (pos 1024) refl (0 ∷ 1 ∷ 2 ∷ [])
      (start 4) (start 0) (message ∷ []) connection
      (new_connection-Expects pieces garbage (pos 0) (pos 1024) (pos 1024) refl (pos 6) (1 ∷ [])
        (pos 80))
      one_response

receive_each-response_example :
    Delivers pieces garbage
      (pos 0)
      (pos 1024)
      (pos 1024)
      (start 0)
      (message ∷ [])
      (receive (0 ∷ 1 ∷ 2 ∷ []) connection)
receive_each-response_example =
    receive_each-response pieces garbage (pos 0) (pos 1024) (pos 1024) refl (pos 6) (1 ∷ [])
      (pos 80) (0 ∷ 1 ∷ 2 ∷ []) head body (omega arith) (omega arith) some_body refl

-- A connection that has had a message.
abbrev again : MConnection
again = record connection { magic_remain = pos 0 }

again-Expects : Expects pieces garbage (pos 0) (start 0) again
unfolding new_connection
again-Expects = record {
  stage = refl;
  magic_room = refl;
  magic_left = (refl, omega arith);
  reads = (refl, (refl, refl, refl));
}

receive_each-second_example :
    Delivers pieces garbage
      (pos 0)
      (pos 1024)
      (pos 1024)
      (frame m_rpc_header 1735288169 (misread head) (int_bytes 2 ++ (head ++ body)) [])
      []
      (receive (0 ∷ 1 ∷ 2 ∷ []) again)
receive_each-second_example =
    receive_each-second pieces garbage (pos 0) (pos 1024) (pos 1024) refl (0 ∷ 1 ∷ 2 ∷ []) head body
      again (omega arith) again-Expects refl

-- The lengths -8 and 0, and two bytes more.
abbrev hostile : ℕ → List ℕ
hostile i = minus_8 ++ 1 ∷ 2 ∷ []

abbrev served : MConnection
served = record again { parser = some (parser_with (pos 8) (pos 0) (new_request garbage)) }

parse_connection_never_ends_example :
    parse_connection garbage (pos 0) 0 1000 (pos 10) (record {
      conn = served;
      buffer = record { buf = hostile 0; capacity = pos 10; cur_index = pos 0; remain = pos 10 };
    })
    ≡ out_of_fuel
unfolding new_connection
parse_connection_never_ends_example =
    parse_connection_never_ends hostile 0 (pos 10) (pos 10) (pos 0) garbage [] (1 ∷ 2 ∷ []) refl
      refl 1 served 1000 refl refl refl refl
