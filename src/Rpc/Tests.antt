-- ===== src/Rpc/Tests.antt =====
-- Runs of src/buffer.h, src/binary_stream_parser.h and src/stream.h at concrete inputs.
use mg_raffle.Base.{ℕ, ◌≡◌, ◌≢◌, refl, false, none, some, List, [], ◌∷◌, ◌++◌, inl, inr, arith}
use mg_raffle.Base.Int.{ℤ, pos, ◌+ℤ◌, ◌-ℤ◌}
use mg_raffle.Base.Pointers.{null, put}
use mg_raffle.Rpc.Buffer.{malloc_size, SBuffer, new_buffer, usage, new_pool, get_buffer, give_back}
use mg_raffle.Rpc.Buffer.Pooled.{
  IsPool, new_pool-IsPool, Gets, get_buffer-Gets, Keeps, give_back-Keeps,
}
use mg_raffle.Rpc.ReadBuffer.{BufHandle, ReadBuffer, new_read_buffer}
use mg_raffle.Rpc.Parser.{Garbage, new_parser, new_request, parser_msg}
use mg_raffle.Rpc.Parser.Chunks.{IsHeader}
use mg_raffle.Rpc.Parser.Progress.{Progress, in_header, Takes}
use mg_raffle.Rpc.Parser.Reassembly.{parser_msg-Takes}
use mg_raffle.Rpc.Parser.Feed.{feed, Completes, feed_message}
use mg_raffle.Rpc.Parser.Errors.{Conserves, parser_msg-Conserves}
use mg_raffle.Rpc.Stream.{Stream, got, would_block, interrupted, on_bytes}
use mg_raffle.Base.{true}
use mg_raffle.Rpc.Server.{
  Server, Round, Accepted, read_connection, on_listen, on_connection, event_run,
}
use mg_raffle.Rpc.Server.Reads.{read_connection-Reads}
use mg_raffle.Base.Run.{fault}
use mg_raffle.Rpc.Server.Table.{Serves, event_run-Serves, Stops, event_run-Stops}
use mg_raffle.Rpc.Stream.Reads.{Deaf, deaf, Heard, on_bytes-Heard}

abbrev zeros : List ℕ
zeros = 0 ∷ 0 ∷ 0 ∷ 0 ∷ 0 ∷ 0 ∷ 0 ∷ 0 ∷ 0 ∷ 0 ∷ 0 ∷ 0 ∷ []

abbrev garbage : Garbage
garbage = record { header = zeros; total_bytes = pos 0; port = pos 0 }

-- No meta data, and two bytes of data.
abbrev header : List ℕ
header = 0 ∷ 0 ∷ 0 ∷ 0 ∷ 2 ∷ 0 ∷ 0 ∷ 0 ∷ 2 ∷ 0 ∷ 0 ∷ 0 ∷ []

abbrev body : List ℕ
body = 7 ∷ 9 ∷ []

header-IsHeader : IsHeader header 2
unfolding ◌+ℤ◌
header-IsHeader = record { twelve = refl; total = refl; parts = refl }

some_body : body ≢ []
some_body e = cc

-- The header in two parts, the second with the first byte of the body.
feed_message_example :
    Completes header body header-IsHeader some_body (pos 0 ∷ pos 0 ∷ pos 1 ∷ []) (
      feed
        ((0 ∷ 0 ∷ 0 ∷ []) ∷ (0 ∷ 2 ∷ 0 ∷ 0 ∷ 0 ∷ 2 ∷ 0 ∷ 0 ∷ 0 ∷ 7 ∷ []) ∷ (9 ∷ []) ∷ [])
        (new_parser garbage))
feed_message_example =
    feed_message header body header-IsHeader some_body garbage
      ((0 ∷ 0 ∷ 0 ∷ []) ∷ (0 ∷ 2 ∷ 0 ∷ 0 ∷ 0 ∷ 2 ∷ 0 ∷ 0 ∷ 0 ∷ 7 ∷ []) ∷ []) 9 [] refl refl

fresh_parser : Progress header [] (new_parser garbage)
unfolding new_parser
fresh_parser = in_header zeros (new_request garbage) refl (omega arith) refl refl refl

-- A whole message between a byte that has been consumed and one of the next message.
parser_msg-Takes_example :
    Takes header body header-IsHeader
      (1 ∷ [])
      (header ++ body)
      (5 ∷ [])
      []
      []
      (parser_msg ((1 ∷ []) ++ (header ++ body) ++ (5 ∷ [])) (pos 1) (pos 15) (new_parser garbage))
parser_msg-Takes_example =
    parser_msg-Takes header body header-IsHeader (1 ∷ []) (header ++ body) (5 ∷ []) [] []
      (new_parser garbage) some_body (inl refl) refl fresh_parser

parser_msg-Conserves_example :
    Conserves (pos 0) (pos 12) (parser_msg header (pos 0) (pos 12) (new_parser garbage))
parser_msg-Conserves_example = parser_msg-Conserves header (pos 0) (pos 12) (new_parser garbage)

abbrev wrong : List ℕ
wrong = 1 ∷ 0 ∷ 0 ∷ 0 ∷ 2 ∷ 0 ∷ 0 ∷ 0 ∷ 2 ∷ 0 ∷ 0 ∷ 0 ∷ []

wrong_parts : pos 2 ≢ pos 1 +ℤ pos 2
unfolding ◌+ℤ◌
wrong_parts e = cc

abbrev minus_16 : List ℕ
minus_16 = 240 ∷ 255 ∷ 255 ∷ 255 ∷ 0 ∷ 0 ∷ 0 ∷ 0 ∷ 240 ∷ 255 ∷ 255 ∷ 255 ∷ []

abbrev stream : Stream
stream = record {
  parser = none;
  magic_string_recieve_size = pos 2;
  magic_number = 1 ∷ 0 ∷ 5 ∷ 5 ∷ [];
  dst_ip = [];
  dst_port = pos 80;
  stat = record { last_tick_time = 0; recieve_data_size = 0 };
  released = false;
  called = [];
}

-- It has half of its magic number.
stream-Deaf : Deaf [] false (1 ∷ 0 ∷ []) stream
stream-Deaf = deaf stream (1 ∷ 0 ∷ 5 ∷ 5 ∷ []) refl refl refl (omega arith) refl refl

on_bytes-Heard_example :
    Heard [] false (1 ∷ 0 ∷ []) (0 ∷ 0 ∷ 7 ∷ []) (on_bytes 4 garbage 100 (0 ∷ 0 ∷ 7 ∷ []) stream)
on_bytes-Heard_example =
    on_bytes-Heard 3 garbage 100 [] false (1 ∷ 0 ∷ []) (0 ∷ 0 ∷ 7 ∷ []) stream stream-Deaf

abbrev memory : ℤ → List ℕ
memory size = 8 ∷ null ∷ []

get_buffer-Gets_example : Gets 16 (pos 300) (get_buffer 16 (pos 300) (new_pool memory))
get_buffer-Gets_example =
    get_buffer-Gets 16 (pos 300) (new_pool memory) (new_pool-IsPool memory) (omega arith)

new_pool-IsPool_example : IsPool (new_pool memory)
new_pool-IsPool_example = new_pool-IsPool memory

abbrev given : SBuffer
given = record {
  alloc_size = pos 300;
  real_size = pos 512;
  headp = 16;
  remainp = pos 0;
  remain_size = pos 512;
}

give_back-Keeps_example : Keeps (give_back given (new_pool memory))
give_back-Keeps_example =
    give_back-Keeps given (new_pool memory) (new_pool-IsPool memory) (inr (inr (inl refl)))

abbrev starved : SBuffer
starved = record {
  alloc_size = pos 300;
  real_size = pos 0;
  headp = null;
  remainp = pos 0;
  remain_size = pos 0;
}

new_buffer-starved : new_buffer null (pos 300) ≡ some starved
unfolding new_buffer malloc_size
new_buffer-starved = refl

malloc_size_300 : malloc_size (pos 300) ≡ some (pos 512)
unfolding malloc_size
malloc_size_300 = refl

abbrev used : SBuffer
used = record given { remainp = pos 100; remain_size = pos 412 }

usage_100 : usage (pos 100) given ≡ some used
unfolding usage ◌+ℤ◌ ◌-ℤ◌
usage_100 = refl

new_buffer_300 : new_buffer 16 (pos 300) ≡ some given
unfolding new_buffer malloc_size
new_buffer_300 = refl

abbrev large : SBuffer
large = record {
  alloc_size = pos 2000;
  real_size = pos 2048;
  headp = 16;
  remainp = pos 0;
  remain_size = pos 2048;
}

new_buffer_2000 : new_buffer 16 (pos 2000) ≡ some large
unfolding new_buffer malloc_size
new_buffer_2000 = refl

abbrev handle : ℕ → BufHandle
handle n = record { offset = pos 4; size = pos n; bufsp = zeros }

abbrev reader : ReadBuffer
reader = record (new_read_buffer (pos 0)) { buf_list = handle 3 ∷ handle 5 ∷ [] }

-- A server that listens on 3 and has no connection.
abbrev server : Server
server = record {
  conns = λ fd. false;
  streams = λ fd. stream;
  watched = put 3 true (λ fd. false);
  infos = put 3 true (λ fd. false);
  owners = λ fd. 0;
  closed = [];
}

abbrev round : Round
round = record { rounds = 4; garbage = garbage; now = 100; del_ok = true; event = null }

abbrev accepted : Accepted
accepted = record { clientfd = pos 5; address = []; sin_port = 80 }

-- A connection is accepted and has nothing to read yet.
event_run-Serves_example : Serves server (
    event_run
      ((round, on_listen accepted [] true) ∷ (round, on_connection 5 true (would_block ∷ [])) ∷ [])
      3
      server)
event_run-Serves_example =
    event_run-Serves
      ((round, on_listen accepted [] true) ∷ (round, on_connection 5 true (would_block ∷ [])) ∷ [])
      3 server (λ fd. inl refl)

-- One connection, the descriptor 5.
abbrev serving : Server
serving = record server { conns = put 5 true (λ fd. false); owners = λ fd. 2 }

-- The third byte of the magic number, and the fourth with one of the message.
read_connection-Reads_example :
    read_connection round 5 (got (0 ∷ []) ∷ interrupted ∷ got (0 ∷ 7 ∷ []) ∷ []) serving ≡ fault
read_connection-Reads_example =
    read_connection-Reads 3 round 5 [] (1 ∷ 0 ∷ [])
      (got (0 ∷ []) ∷ interrupted ∷ got (0 ∷ 7 ∷ []) ∷ []) serving refl stream-Deaf refl refl

event_run-Stops_example : Stops (
    event_run
      ((round, on_listen accepted [] true) ∷ (round, on_listen accepted [] false) ∷ [])
      3
      server)
event_run-Stops_example =
    event_run-Stops round round (on_listen accepted [] true) (on_listen accepted [] false) [] 3
      server refl
