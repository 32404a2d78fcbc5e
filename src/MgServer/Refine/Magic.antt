-- ===== src/MgServer/Refine/Magic.antt =====
-- `case M_MAGIC` of `parse_connection`: the bytes of the magic number that are at hand.
use mathlib.Core.List.{append_assoc}
use mg_raffle.Base.{
  ℕ, ◌+◌, ◌-◌, ◌≡◌, ◌≤◌, refl, ◌∙◌, some, List, ◌++◌, length, take, drop, arith, if◌then◌else◌,
  length-take,
}
use mg_raffle.Base.Int.{ℤ, pos, ltb_ℤ, min_ℤ}
use mg_raffle.Base.Run.{done}
use mg_raffle.Rpc.Parser.Bytes.{slice}
use mg_raffle.Rpc.Parser.Slices.{sub_pos, slice_middle, copy_into_front, length-overwrite}
use mg_raffle.MgServer.Parser.{MConnection, m_magic, m_header, ParseType, take_magic, copy_magic}
use mg_raffle.MgServer.Refine.Held.{buffer_at, consume_lem}

-- A connection that waits for `n` bytes of its magic number.
abbrev pub awaiting : MConnection → ParseType → List ℕ → ℕ → MConnection
awaiting c type magic n = record c { magic = magic; magic_remain = pos n; parse_type = type }

module _ (mem : ℕ → List ℕ) (id : ℕ) (capacity remain : ℤ) (c : MConnection)
    (skip ys rest magic : List ℕ) (n : ℕ) (whole : skip ++ (ys ++ rest) ≡ mem id)
    (room : length magic ≡ 4) (le : n ≤ 4) (few : length ys ≤ n) where
  abbrev pub written : List ℕ
  written = take (4 - n) magic ++ ys ++ drop (length (take (4 - n) magic) + length ys) magic

  length-front : length (take (4 - n) magic) ≡ 4 - n
  length-front = omega (arith, length-take (4 - n) magic)

  pub length-written : length written ≡ 4
  length-written =
      length-overwrite magic (take (4 - n) magic) ys (omega (arith, length-front)) ∙ room

  taken : slice (mem id) (pos (length skip)) (pos (length ys)) ≡ some ys
  taken = rw (← whole) (rw append_assoc at (slice_middle skip ys rest))

  copy_magic_lem :
      copy_magic (pos (length ys)) (record {
        conn = awaiting c m_magic magic n;
        buffer = buffer_at mem id capacity remain (length skip);
      })
      ≡ done tt (record {
        conn = awaiting c m_magic written n;
        buffer = buffer_at mem id capacity remain (length skip);
      })
  unfolding copy_magic
  copy_magic_lem =
      let front : take (length (take (4 - n) magic)) magic ≡ take (4 - n) magic =
        rw length-front refl in
      rw
        (
          taken,
          copy_magic,
          sub_pos 4 n le,
          ← length-front,
          copy_into_front magic (take (4 - n) magic) ys front (omega (arith, length-front)),
          copy_magic,
        )
        (rw front refl)

  pub take_magic_lem :
      (m : ℕ)
      → min_ℤ (pos n) (pos (length ys + m)) ≡ pos (length ys)
      → take_magic (pos (length ys + m)) (record {
        conn = awaiting c m_magic magic n;
        buffer = buffer_at mem id capacity remain (length skip);
      })
        ≡ done (pos m) (record {
          conn =
              awaiting c
                (if ltb_ℤ (pos 0) (pos (n - length ys)) then m_magic else m_header)
                written
                (n - length ys);
          buffer = buffer_at mem id capacity remain (length skip + length ys);
        })
  unfolding take_magic
  take_magic_lem m real =
      let l : length ys + m - length ys ≡ m = omega arith in
      rw
        (
          real,
          copy_magic_lem,
          sub_pos (length ys + m) (length ys) (omega arith),
          sub_pos n (length ys) few,
          l,
          consume_lem mem id capacity remain (length skip) (length ys),
        )
        refl
