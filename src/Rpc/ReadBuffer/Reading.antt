-- ===== src/Rpc/ReadBuffer/Reading.antt =====
-- `ReadBuffer` as a stream: what `Skip` reaches, and what `BackUp` leaves behind.
use mg_raffle.Base.{
  ℕ, suc, ◌+◌, ◌-◌, ◌≡◌, ◌≤◌, Bool, true, some, List, [], ◌∷◌, arith, get_elem?, leb, min,
}
use mg_raffle.Base.Int.{ℤ, pos, pos_part, ◌+ℤ◌, ◌-ℤ◌, ◌≤ℤ◌, ltb_ℤ}
use mg_raffle.Base.Run.{Run, done, value, ◌>>◌}
use mg_raffle.Rpc.ReadBuffer.{BufHandle, ReadBuffer, next, step_back, back_up, byte_count}

-- After a block has been read, the next call of `Next` gives the block behind it whole, at its
-- own offset, and counts it.
pub next_next :
    (b : ReadBuffer) (h h2 : BufHandle)
    → get_elem? b.buf_list b.cur_it ≡ some h
    → get_elem? b.buf_list (b.cur_it + 1) ≡ some h2
    → b.cur_pos ≡ pos 0
    → value ((next >> next) b)
      ≡ some (some (record { handle = h2; start = h2.offset +ℤ pos 0; size = h2.size -ℤ pos 0 }))
unfolding next
next_next b h h2 e e2 z = rw (e, next, e2, next, z)

-- After a `BackUp` the position inside the block stays: when the rest of the block has been read,
-- the block behind it is given from that position, not from its start.
pub back_up_stale :
    (b : ReadBuffer) (h h2 : BufHandle) (count : ℤ)
    → get_elem? b.buf_list b.cur_it ≡ some h
    → get_elem? b.buf_list (b.cur_it + 1) ≡ some h2
    → pos 1 ≤ℤ count
    → value ((next >> back_up count >> next >> next) b)
      ≡ some (
          some (record {
            handle = h2;
            start = h2.offset +ℤ (h.size -ℤ count);
            size = h2.size -ℤ (h.size -ℤ count);
          }))
unfolding next back_up step_back
back_up_stale b h h2 count e e2 some_count =
    let t : ltb_ℤ (pos 0) count ≡ true = ground arith in
    let one : b.cur_it + 1 ≡ suc b.cur_it = omega arith in
    rw (e, next, t, one, step_back, e, step_back, e, next, e2, next)

-- No block has a negative size.
abbrev pub Sized : List BufHandle → Type 0
Sized [] = Unit
Sized (h ∷ hs) = (h.size ≡ pos (pos_part h.size)) × Sized hs

abbrev pub total : List BufHandle → ℕ
total [] = 0
total (h ∷ hs) = pos_part h.size + total hs

-- `count` bytes are passed over if the blocks have them, and else all that they have.
abbrev pub Skipped : ℕ → ℕ → ℤ → Run ReadBuffer Bool → Type 0
Skipped count left read (done ok b) =
    (ok ≡ leb count left) × (byte_count b ≡ read +ℤ pos (min count left))
Skipped count left read _ = ⊥

give_back : (r : ℤ) (n c : ℕ) → c ≤ n → r +ℤ pos n -ℤ pos (n - c) ≡ r +ℤ pos c
unfolding ◌+ℤ◌ ◌-ℤ◌
give_back r n c h = ground arith

abbrev passed : ReadBuffer → ℕ → ReadBuffer
passed b n = record b {
  last_it = some b.cur_it;
  cur_it = suc b.cur_it;
  read_bytes = b.read_bytes +ℤ pos n;
}
