-- ===== src/Rpc/Stream/Reads.antt =====
-- What `on_read_some` does for a connection: its stream never gets a parser.
use mathlib.Core.List.{append-nil}
use mg_raffle.Base.{
  ℕ, suc, ◌+◌, ◌-◌, ◌≡◌, ◌≤◌, ◌<◌, refl, sym, ap, ◌∙◌, Bool, true, false, none, List, [], ◌∷◌, ◌++◌,
  ◌⊎◌, inl, inr, arith, if◌then◌else◌, length, length-append, length-take, take, drop,
  take-append-drop, ltb, leb,
}
use mg_raffle.Base.Int.{pos, ◌-ℤ◌, min_ℤ}
use mg_raffle.Base.Run.{Run, done, fault, out_of_fuel, Cmd, and_then, pure}
use mg_raffle.Rpc.Parser.{Request, Garbage}
use mg_raffle.Rpc.Parser.Slices.{sub_pos, min_left, min_right, take-append_length, length-overwrite}
use mg_raffle.Rpc.Stream.{
  Stream, Recv, got, closed, would_block, interrupted, failed, split_message, on_bytes,
  on_read_some, refresh_stat, call_back,
}
use mg_raffle.Rpc.Stream.Magic.{listening, split_magic}

-- The stream has no parser, has called back with `c` only, holds `pre` of its magic number, and `r`
-- is whether its connection has been released.
pub data Deaf (c : List Request) (r : Bool) (pre : List ℕ) (s : Stream) : Type 0 where
  deaf :
      (base : Stream) (magic : List ℕ)
      → s ≡ listening base magic (length pre)
      → base.called ≡ c
      → base.released ≡ r
      → length pre < 4
      → length magic ≡ 4
      → take (length pre) magic ≡ pre
      → Deaf c r pre s

-- After the bytes `b`: still short of four and to be read again, or released.
abbrev pub Heard : List Request → Bool → List ℕ → List ℕ → Run Stream Bool → Type 0
Heard c r pre b (done true s) = Deaf c r (pre ++ b) s
Heard c r pre b (done false s) =
    (4 ≤ length pre + length b) × (s.called ≡ c) × (s.parser ≡ none) × (s.released ≡ true)
Heard c r pre b _ = ⊥

module _ (k : ℕ) (g : Garbage) (now : ℕ) where
  -- The state that `split_message` starts from.
  abbrev ticked : Stream → List ℕ → Stream
  ticked base b = record base { stat = refresh_stat now (length b) base.stat }

  few-Heard :
      (c : List Request) (r : Bool) (pre b magic : List ℕ) (base : Stream)
      → base.called ≡ c
      → base.released ≡ r
      → length magic ≡ 4
      → take (length pre) magic ≡ pre
      → 0 < length b
      → length pre + length b < 4
      → Heard c r pre b (on_bytes (suc k) g now b (listening base magic (length pre)))
  unfolding on_bytes
  few-Heard c r pre b magic base ec er room front some_bytes few =
      let real : min_ℤ (pos 4 -ℤ pos (length pre)) (pos (length b)) ≡ pos (length b) =
        rw (sub_pos 4 (length pre) (omega arith)) (min_right _ (length b) (omega arith)) in
      let t : ltb (length pre + length b) 4 ≡ true = ground arith in
      let e =
        split_magic (ticked base b) magic pre b [] k (length b) g (pos now) some_bytes front
          (omega arith) (omega arith) real in
      rw (rw (t, append-nil) at e) (
        deaf (call_back [] (ticked base b)) (pre ++ b ++ drop (length pre + length b) magic)
          (ap (listening (call_back [] (ticked base b)) _) (sym (length-append pre b)))
          (append-nil _ ∙ ec) er (omega (arith, length-append pre b))
          (length-overwrite magic pre b (omega arith) ∙ room) (take-append_length (pre ++ b) _))

  enough-Heard :
      (c : List Request) (r : Bool) (pre chunk rest magic : List ℕ) (base : Stream)
      → base.called ≡ c
      → base.released ≡ r
      → length magic ≡ 4
      → take (length pre) magic ≡ pre
      → length pre < 4
      → length pre + length chunk ≡ 4
      → Heard c r pre
          (chunk ++ rest)
          (on_bytes (suc k) g now (chunk ++ rest) (listening base magic (length pre)))
  unfolding on_bytes
  enough-Heard c r pre chunk rest magic base ec er room front few enough =
      let n = length (chunk ++ rest) in
      let d : 4 - length pre ≡ length chunk = omega arith in
      let real : min_ℤ (pos 4 -ℤ pos (length pre)) (pos n) ≡ pos (length chunk) =
        rw (sub_pos 4 (length pre) (omega arith), d)
          (min_left (length chunk) n (omega (arith, length-append chunk rest))) in
      let t : ltb (length pre + length chunk) 4 ≡ false = ground arith in
      let e =
        split_magic (ticked base (chunk ++ rest)) magic pre chunk rest k n g (pos now)
          (omega (arith, length-append chunk rest)) front (omega arith) few real in
      rw (rw t at e) (omega (arith, length-append chunk rest), ec, refl, refl)

  nothing-Heard :
      (c : List Request) (r : Bool) (pre : List ℕ) (s : Stream)
      → Deaf c r pre s
      → Heard c r pre [] (on_bytes (suc k) g now [] s)
  unfolding on_bytes split_message
  nothing-Heard c r pre s (deaf base magic e ec er few room front) = rw e (
      deaf (call_back [] (ticked base [])) magic
        (ap (λ (n : ℕ). listening (call_back [] (ticked base [])) magic n)
          (ap length (sym (append-nil pre))))
        (append-nil _ ∙ ec) er (rw (append-nil pre) few) room (rw (append-nil pre) front))

  -- One `recv` of a stream without a parser: it goes on listening until it has four bytes, and
  -- then asks for the release of its connection, whatever the four bytes are.
  pub on_bytes-Heard :
      (c : List Request) (r : Bool) (pre b : List ℕ) (s : Stream)
      → Deaf c r pre s
      → Heard c r pre b (on_bytes (suc k) g now b s)
  on_bytes-Heard c r pre [] s v = nothing-Heard c r pre s v
  on_bytes-Heard c r pre (x ∷ xs) s (deaf base magic e ec er few room front) =
      rw e (by_room (ground arith))
    where
      by_room :
          (length pre + length (x ∷ xs) < 4) ⊎ (4 ≤ length pre + length (x ∷ xs))
          → Heard c r pre
              (x ∷ xs)
              (on_bytes (suc k) g now (x ∷ xs) (listening base magic (length pre)))
      by_room (inl short) =
          few-Heard c r pre (x ∷ xs) magic base ec er room front (omega arith) short
      by_room (inr enough) =
          let n = 4 - length pre in
          rw (take-append-drop n (x ∷ xs)) at (
            enough-Heard c r pre (take n (x ∷ xs)) (drop n (x ∷ xs)) magic base ec er room front few
              (omega (arith, length-take n (x ∷ xs))))

-- Whether `recv` gives what a stream with `n` bytes of its magic number releases its connection at:
-- its fourth byte, the end, or an error.
abbrev pub gives_up : ℕ → List Recv → Bool
gives_up n [] = false
gives_up n (closed ∷ rest) = true
gives_up n (would_block ∷ rest) = false
gives_up n (interrupted ∷ rest) = gives_up n rest
gives_up n (failed ∷ rest) = true
gives_up n (got b ∷ rest) =
    let later = gives_up (n + length b) rest in if leb 4 (n + length b) then true else later

-- A run has called back with nothing more, made no parser, and not faulted; `r` is whether it asked
-- for the release.
abbrev pub Silent : List Request → Bool → Run Stream (Unit {0}) → Type 0
Silent c r (done _ s) = (s.called ≡ c) × (s.parser ≡ none) × (s.released ≡ r)
Silent c r fault = ⊥
Silent c r out_of_fuel = ⊥

Deaf-Silent :
    (c : List Request) (r : Bool) (pre : List ℕ) (s : Stream)
    → Deaf c r pre s
    → (s.called ≡ c) × (s.parser ≡ none) × (s.released ≡ r)
Deaf-Silent c r pre s (deaf base magic e ec er few room front) = rw e (ec, refl, er)

Deaf-short :
    (c : List Request) (r : Bool) (pre : List ℕ) (s : Stream) → Deaf c r pre s → length pre < 4
Deaf-short c r pre s (deaf base magic e ec er few room front) = few

Heard-done :
    (c : List Request) (pre b : List ℕ) (run : Run Stream Bool) (rest : Cmd Stream (Unit {0}))
    (later : ℕ → Bool)
    → Heard c false pre b run
    → ((s : Stream) → Deaf c false (pre ++ b) s → Silent c (later (length (pre ++ b))) (rest s))
    → Silent c
        (if leb 4 (length pre + length b) then true else later (length pre + length b))
        (and_then run λ again. if again then rest else pure tt)
Heard-done c pre b (done true s) rest later h go =
    let short : leb 4 (length pre + length b) ≡ false =
      ground (arith, length-append pre b, Deaf-short c false (pre ++ b) s h) in
    rw short (rw (length-append pre b) at (go s h))
Heard-done c pre b (done false s) rest later h go =
    let long : leb 4 (length pre + length b) ≡ true = ground (arith, h.0) in rw long (h.1, h.2, h.3)
Heard-done c pre b fault rest later h go = absurd h
Heard-done c pre b out_of_fuel rest later h go = absurd h

-- The reads of a stream without a parser end, they deliver no request and make no parser, and they
-- ask for the release as `gives_up` says.
pub on_read_some-Silent :
    (k : ℕ) (g : Garbage) (now : ℕ) (c : List Request) (pre : List ℕ) (recvs : List Recv)
    (s : Stream)
    → Deaf c false pre s
    → Silent c (gives_up (length pre) recvs) (on_read_some (suc k) g now recvs s)
unfolding on_read_some
on_read_some-Silent k g now c pre [] s v = Deaf-Silent c false pre s v
on_read_some-Silent k g now c pre (closed ∷ rest) s v =
    let (called, none_there, kept) = Deaf-Silent c false pre s v in (called, none_there, refl)
on_read_some-Silent k g now c pre (would_block ∷ rest) s v = Deaf-Silent c false pre s v
on_read_some-Silent k g now c pre (interrupted ∷ rest) s v =
    on_read_some-Silent k g now c pre rest s v
on_read_some-Silent k g now c pre (failed ∷ rest) s v =
    let (called, none_there, kept) = Deaf-Silent c false pre s v in (called, none_there, refl)
on_read_some-Silent k g now c pre (got b ∷ rest) s v =
    Heard-done c pre b _ (on_read_some (suc k) g now rest) (λ n. gives_up n rest)
      (on_bytes-Heard k g now c false pre b s v)
      λ s' v'. on_read_some-Silent k g now c (pre ++ b) rest s' v'
