-- ===== src/MgServer/Serving/Replies.antt =====
-- The table and epoll over `do_request` and `do_response` of main.cpp.
use mg_raffle.Base.{
  ℕ, zero, suc, Option, none, some, List, [], ◌∷◌, ◌==◌, Bool-cases, inl, inr, length,
}
use mg_raffle.Base.Int.{ℤ, pos, ltb_ℤ, ◌-ℤ◌}
use mg_raffle.MgServer.Buffers.{Memory, MBuffer, allocate, consume}
use mg_raffle.MgServer.Parser.{MRequest}
use mg_raffle.MgServer.Table.{Server, Sent, sent, send_failed, set_memory}
use mg_raffle.MgServer.Sending.{
  queue_rest, after_response, send_written, respond_in, do_response, write_response, set_buffer,
  response_bytes,
}
use mg_raffle.MgServer.Receiving.{Protobuf, answer, part_bytes, run_task, do_request}
use mg_raffle.MgServer.Serving.Watching.{IsServed, Serves, and_then-Serves, send-Serves, closed}

queue_rest-IsServed :
    (c id : ℕ) (remain : ℤ) (s : Server) → IsServed s → IsServed (queue_rest c id remain s)
unfolding queue_rest
queue_rest-IsServed c id remain s p = elim (Bool-cases (ltb_ℤ (pos 0) remain)) [
  | inl left ↦ rw left p
  | inr none_left ↦ rw none_left p
]

after_response-IsServed :
    (fd : ℤ) (c id : ℕ) (remain : ℤ) (r : Sent) (s : Server)
    → IsServed s
    → IsServed (after_response fd c id remain r s)
unfolding after_response
after_response-IsServed fd c id remain (sent zero) s p = closed fd s p
after_response-IsServed fd c id remain (sent (suc n)) s p =
    queue_rest-IsServed c id (remain -ℤ pos (suc n))
      (set_buffer id (consume (pos (suc n)) ((s.memory).buffers id)) s) p
after_response-IsServed fd c id remain (send_failed errno) s p = elim (Bool-cases (errno == 11)) [
  | inl full ↦ rw full (queue_rest-IsServed c id remain s p)
  | inr other ↦ rw other (elim (Bool-cases (errno == 4)) [
    | inl again ↦ rw again (queue_rest-IsServed c id remain s p)
    | inr gone ↦ rw gone (closed fd s p)
  ])
]

send_written-Serves :
    (fd : ℤ) (c id : ℕ) (remain : ℤ) (b : Option MBuffer) (s : Server)
    → IsServed s
    → Serves (send_written fd c id remain b s)
unfolding send_written
send_written-Serves fd c id remain none s p = tt
send_written-Serves fd c id remain (some b) s p =
    and_then-Serves _ _ (send-Serves fd _ (set_buffer id b s) p)
      (λ r t q. after_response-IsServed fd c id remain r t q)

respond_in-Serves :
    (fd : ℤ) (c : ℕ) (bytes : List ℕ) (out : Option ℕ × Memory) (s : Server)
    → IsServed s
    → Serves (respond_in fd c bytes out s)
unfolding respond_in
respond_in-Serves fd c bytes (none, m) s p = p
respond_in-Serves fd c bytes (some id, m) s p =
    send_written-Serves fd c id (pos (length bytes)) (write_response bytes (m.buffers id))
      (set_memory m s) p

module _ (proto : Protobuf) where
  open proto use {
    parse_header, is_hello, set_response, serialize_header, parse_req, new_res, serialize_res,
  }

  answer-Serves :
      (fd : ℤ) (c : ℕ) (r : MRequest) (s : Server) → IsServed s → Serves (answer proto fd c r s)
  unfolding answer do_response
  answer-Serves fd c r s p =
      elim (Bool-cases
        (is_hello (parse_header (part_bytes s.memory (r.rpc_header_buf).buf_list)))) [
          | inl hello ↦ rw hello (
              respond_in-Serves fd c
                (response_bytes
                  (serialize_header
                    (set_response (parse_header (part_bytes s.memory (r.rpc_header_buf).buf_list))))
                  (serialize_res (
                    run_task proto (parse_req (part_bytes s.memory (r.rpc_body_buf).buf_list))
                      new_res)))
                (allocate s.memory) s p)
          | inr other ↦ rw other p
        ]

  pub do_request-Serves :
      (fd : ℤ) (c : ℕ) (rs : List MRequest) (s : Server)
      → IsServed s
      → Serves (do_request proto fd c rs s)
  unfolding do_request
  do_request-Serves fd c [] s p = p
  do_request-Serves fd c (r ∷ rs) s p =
      and_then-Serves _ _ (answer-Serves fd c r s p) (λ u t q. do_request-Serves fd c rs t q)
