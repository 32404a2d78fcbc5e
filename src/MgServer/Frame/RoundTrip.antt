-- ===== src/MgServer/Frame/RoundTrip.antt =====
-- What `do_response` of main.cpp sends, against `decode`.
use mathlib.Core.List.{append-nil}
use mg_raffle.Base.{
  length-append, ◌-◌, ℕ, suc, ◌+◌, ◌*◌, ◌/◌, ◌%◌, ◌^◌, ◌≡◌, ◌≢◌, ◌<◌, refl, ap, ◌∙◌, some, true,
  List, [], ◌∷◌, ◌++◌, arith, length, ltb,
}
use mg_raffle.Base.Int.{pos}
use mg_raffle.Rpc.Parser.Bytes.{signed32}
use mg_raffle.MgServer.Parser.{m_header, m_rpc_header, m_rpc_content}
use mg_raffle.MgServer.Frame.{frame, start, more_messages, decode}
use mg_raffle.MgServer.Frame.Blocks.{decode_nil}
use mg_raffle.MgServer.Frame.Parts.{
  decode_short, decode_whole_magic, decode_whole_header, decode_whole_rpc_header,
  decode_whole_content,
}
use mg_raffle.MgServer.Sending.{int_bytes, magic_bytes, response_bytes}

append-ne-nil : (xs ys : List ℕ) → ys ≢ [] → xs ++ ys ≢ []
append-ne-nil [] ys ne e = ne e
append-ne-nil (x ∷ xs) ys ne e = cc

bytes_of_int :
    (n : ℕ)
    → n < 2 ^ 31
    → signed32 (
        n % 256
        + 256 * (n / 256 % 256)
        + 65536 * (n / 65536 % 256)
        + 16777216 * (n / 16777216 % 256))
      ≡ pos n
bytes_of_int n small =
    let e : n % 256
          + 256 * (n / 256 % 256)
          + 65536 * (n / 65536 % 256)
          + 16777216 * (n / 16777216 % 256)
        ≡ n =
      omega arith in
    let t : ltb n (2 ^ 31) ≡ true = ground arith in rw (e, t) refl

module _ (h b : List ℕ) (small_h : length h < 2 ^ 31) (small_b : length b < 2 ^ 31)
    (some_body : b ≢ []) where
  abbrev lengths : List ℕ
  lengths = int_bytes (length h) ++ int_bytes (length b)

  all_body :
      decode b (frame m_rpc_content (length b) lengths h [])
      ≡ some (start 0, record { head = h; body = b } ∷ [])
  all_body = rw append-nil at (
      decode_whole_content b [] lengths h [] (rw append-nil some_body)
      ∙ ap (more_messages (record { head = h; body = b } ∷ [])) (decode_nil (start 0)))

  decode_message :
      decode (lengths ++ (h ++ b)) (frame m_header 8 [] [] [])
      ≡ some (start 0, record { head = h; body = b } ∷ [])
  decode_message =
      decode_whole_header lengths (h ++ b) [] [] [] (length h) (bytes_of_int (length h) small_h)
        (λ e. cc)
      ∙ decode_whole_rpc_header h b lengths [] [] (length b) (bytes_of_int (length b) small_b)
          (append-ne-nil h b some_body)
      ∙ all_body

  -- A response is what a new connection reads as one message with the same two parts.
  pub decode-response_bytes :
      decode (response_bytes h b) (start 4) ≡ some (start 0, record { head = h; body = b } ∷ [])
  decode-response_bytes =
      decode_whole_magic magic_bytes (lengths ++ (h ++ b)) [] [] [] (λ e. cc) ∙ decode_message

-- The lengths that a magic number and the length of the header stand for.
abbrev pub misread : List ℕ → List ℕ
misread h = magic_bytes ++ int_bytes (length h)

-- A connection that has had a message takes the magic number of the next for the length of its
-- header, 1735288176: a message with two parts that are shorter together is not completed, and
-- its bytes are held as a part of that header.
pub decode-second_response :
    (h b : List ℕ)
    → length h + length b < 1735288172
    → decode (response_bytes h b) (start 0)
      ≡ some (
        frame m_rpc_header
            (1735288172 - length h - length b)
            (misread h)
            (int_bytes (length b) ++ (h ++ b))
            [],
        [],
      )
decode-second_response h b short =
    let rest : List ℕ = int_bytes (length b) ++ (h ++ b) in
    let n : length rest ≡ 4 + length h + length b = omega (arith, length-append h b) in
    let m : length rest + suc (1735288172 - length h - length b - 1) ≡ 1735288176 = omega arith in
    decode_whole_magic [] (misread h ++ rest) [] [] [] (λ e. cc)
    ∙ decode_whole_header (misread h) rest [] [] [] 1735288176 refl (λ e. cc)
    ∙ rw (← m) (
        decode_short (length b % 256)
          (length b / 256 % 256 ∷ length b / 65536 % 256 ∷ length b / 16777216 % 256 ∷ (h ++ b))
          m_rpc_header (1735288172 - length h - length b - 1) (misread h) [] []
        ∙ ap (λ (k : ℕ). some (frame m_rpc_header k (misread h) rest [], [])) (omega arith))
