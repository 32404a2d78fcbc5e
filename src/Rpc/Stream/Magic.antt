-- ===== src/Rpc/Stream/Magic.antt =====
-- How a stream without a parser reads its magic number.
use native.Mathlib.Nat.{add-zero}
use mg_raffle.Base.{
  ℕ, suc, ◌+◌, ◌≡◌, ◌≤◌, ◌<◌, true, none, List, [], ◌++◌, arith, length, take, drop, ltb,
}
use mg_raffle.Base.Int.{ℤ, pos, ◌-ℤ◌, min_ℤ}
use mg_raffle.Base.Run.{done}
use mg_raffle.Rpc.Parser.{Garbage}
use mg_raffle.Rpc.Parser.Slices.{add_pos, slice_middle, copy_into_front}
use mg_raffle.Rpc.Stream.{Stream, copy_magic, read_magic, refuses, split_message}

-- A stream that has no parser yet and `n` bytes of its magic number.
abbrev pub listening : Stream → List ℕ → ℕ → Stream
listening s magic n = record s {
  parser = none;
  magic_string_recieve_size = pos n;
  magic_number = magic;
}

module _ (s : Stream) (magic pre chunk rest : List ℕ) where
  abbrev pub magic_now : List ℕ
  magic_now = pre ++ chunk ++ drop (length pre + length chunk) magic

  -- `read_magic` when `chunk` is what it takes of the `n` bytes at hand.
  pub read_magic_lem :
      (n : ℕ)
      → take (length pre) magic ≡ pre
      → length pre + length chunk ≤ length magic
      → length pre < 4
      → min_ℤ (pos 4 -ℤ pos (length pre)) (pos n) ≡ pos (length chunk)
      → read_magic (chunk ++ rest) (pos 0) (pos n) (listening s magic (length pre))
        ≡ done (pos (length chunk)) (listening s magic_now (length pre + length chunk))
  unfolding read_magic
  read_magic_lem n front le few real =
      let t : ltb (length pre + 0) 4 ≡ true = ground arith in
      rw (
        t,
        real,
        slice_middle [] chunk rest,
        copy_magic,
        copy_into_front magic pre chunk front le,
        copy_magic,
        add_pos (length pre) (length chunk),
      )

  pub split_magic :
      (k n : ℕ) (g : Garbage) (now : ℤ)
      → 0 < n
      → take (length pre) magic ≡ pre
      → length pre + length chunk ≤ length magic
      → length pre < 4
      → min_ℤ (pos 4 -ℤ pos (length pre)) (pos n) ≡ pos (length chunk)
      → split_message (suc k) g now (chunk ++ rest) (pos n) (listening s magic (length pre))
        ≡ done
            (ltb (length pre + length chunk) 4, [])
            (listening s magic_now (length pre + length chunk))
  unfolding split_message refuses
  split_magic k n g now some_left front le few real =
      let t : ltb 0 (n + 0) ≡ true = ground arith in
      rw (t, read_magic_lem n front le few real, add-zero) (ground arith)
