-- ===== src/Rpc/Buffer.antt =====
-- src/buffer.h: `malloc_size`, `SBuffer` and `SBufferPool`. A C `int` is an integer here, since
-- its overflow is undefined; a pointer into a buffer is the offset from the buffer's start.
pub mod Sizes
pub mod Pooled
use mg_raffle.Base.{
  ℕ, zero, suc, ◌≡◌, Bool, true, false, ◌&&◌, Option, none, some, List, [], ◌∷◌, ◌++◌, ◌==◌,
  if◌then◌else◌,
}
use mg_raffle.Base.Optional.{◌>>=◌}
use mg_raffle.Base.Pointers.{Ptr, null}
use mg_raffle.Base.Int.{ℤ, pos, ◌+ℤ◌, ◌-ℤ◌, leb_ℤ, ltb_ℤ, eq_ℤ}

-- `none` is a failed assertion.
unfoldable pub malloc_size : ℤ → Option ℤ
malloc_size size =
    if leb_ℤ size (pos 4096)
    then (if ltb_ℤ (pos 2048) size && leb_ℤ size (pos 4096)
        then some (pos 4096)
        else if ltb_ℤ (pos 1024) size && leb_ℤ size (pos 2048)
        then some (pos 2048)
        else if ltb_ℤ (pos 512) size && leb_ℤ size (pos 1024)
        then some (pos 1024)
        else if ltb_ℤ (pos 256) size && leb_ℤ size (pos 512)
        then some (pos 512)
        else if ltb_ℤ (pos 128) size && leb_ℤ size (pos 256)
        then some (pos 256)
        else some (pos 128))
    else none

pub record SBuffer : Type 0 where
  pub alloc_size : ℤ
  pub real_size : ℤ
  pub headp : Ptr
  pub remainp : ℤ
  pub remain_size : ℤ

-- The constructor asks `malloc` for this many bytes, whatever the size.
abbrev pub buffer_memory : ℤ
buffer_memory = pos 1000

-- `fresh` is what `malloc` returned.
unfoldable pub new_buffer : Ptr → ℤ → Option SBuffer
new_buffer fresh size = do
  real ← malloc_size size
  let real_size = if fresh == null then pos 0 else real
  some (record {
    alloc_size = size;
    real_size = real_size;
    headp = fresh;
    remainp = pos 0;
    remain_size = real_size;
  })

unfoldable pub usage : ℤ → SBuffer → Option SBuffer
usage len b =
    if leb_ℤ len b.remain_size
    then some (record b { remainp = b.remainp +ℤ len; remain_size = b.remain_size -ℤ len })
    else none

unfoldable pub reset : SBuffer → SBuffer
reset b = record b { remainp = pos 0; remain_size = b.real_size }

pub record BufferList : Type 0 where
  pub buffer_size : ℤ
  pub buf_list : List SBuffer

-- `std::map<int, BufferListSP>`; `operator[]` makes a null pointer of a missing key, and its use
-- is a fault, `none` below.
abbrev pub SBufferPool : Type 0
SBufferPool = ℤ → Option BufferList

-- One round of the constructor of `SBufferPool::BufferList`: a buffer whose memory could not be
-- had is dropped.
unfoldable pub push_buffer : Option SBuffer → Option (List SBuffer) → Option (List SBuffer)
push_buffer none later = none
push_buffer (some buf) none = none
push_buffer (some buf) (some bufs) = some (if ltb_ℤ (pos 0) buf.real_size then buf ∷ bufs else bufs)

-- All of its rounds, one `malloc` result for each.
unfoldable pub fill_list : List Ptr → ℤ → Option (List SBuffer)
fill_list [] size = some []
fill_list (fresh ∷ rest) size = push_buffer (new_buffer fresh size) (fill_list rest size)

unfoldable pub new_buffer_list : List Ptr → ℤ → Option BufferList
new_buffer_list fresh size = do
  bufs ← fill_list fresh size
  some (record { buffer_size = size; buf_list = bufs })

unfoldable pub new_pool : (ℤ → List Ptr) → SBufferPool
new_pool fresh size =
    if eq_ℤ size (pos 128)
    then new_buffer_list (fresh size) (pos 128)
    else if eq_ℤ size (pos 256)
    then new_buffer_list (fresh size) (pos 256)
    else if eq_ℤ size (pos 512)
    then new_buffer_list (fresh size) (pos 512)
    else if eq_ℤ size (pos 1024)
    then new_buffer_list (fresh size) (pos 1024)
    else if eq_ℤ size (pos 2048)
    then new_buffer_list (fresh size) (pos 2048)
    else if eq_ℤ size (pos 4096)
    then new_buffer_list (fresh size) (pos 4096)
    else none

abbrev pub put_list : ℤ → BufferList → SBufferPool → SBufferPool
put_list key l pool size = if eq_ℤ size key then some l else pool size

-- `BufferList::get_buf`
unfoldable pub list_get_buf : Ptr → BufferList → Option (SBuffer × BufferList)
list_get_buf fresh l = elim l.buf_list [
  | [] ↦ (do buf ← new_buffer fresh l.buffer_size; some (buf, l))
  | buf ∷ rest ↦ some (buf, record l { buf_list = rest })
]

-- `BufferList::give_back`
unfoldable pub list_give_back : SBuffer → BufferList → BufferList
list_give_back buf l = record l { buf_list = l.buf_list ++ buf ∷ [] }

-- The lookup and the call of `get_buffer` for a size class.
unfoldable pub take_class : Ptr → SBufferPool → ℤ → Option (SBuffer × SBufferPool)
take_class fresh pool real = do
  l ← pool real
  (buf, l') ← list_get_buf fresh l
  some (buf, put_list real l' pool)

unfoldable pub get_buffer : Ptr → ℤ → SBufferPool → Option (SBuffer × SBufferPool)
unfolding take_class
get_buffer fresh size pool = do real ← malloc_size size; take_class fresh pool real

unfoldable pub give_back : SBuffer → SBufferPool → Option SBufferPool
give_back buf pool = do
  l ← pool buf.real_size
  some (put_list buf.real_size (list_give_back buf l) pool)
