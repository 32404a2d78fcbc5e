-- ===== src/Rpc/Buffer/Pooled.antt =====
-- The pool of src/buffer.h keeps every buffer under its own size class.
use mg_raffle.Base.{
  ◌≡◌, refl, ◌⊎◌, Option, none, some, List, [], ◌∷◌, ◌++◌, arith, ◌==◌, if◌then◌else◌, Bool-cases,
  Option-cases, inl, inr,
}
use mg_raffle.Base.Optional.{◌>>=◌}
use mg_raffle.Base.Pointers.{Ptr, null}
use mg_raffle.Base.Int.{ℤ, pos, ◌≤ℤ◌, eq_ℤ, eq_ℤ_sound}
use mg_raffle.Rpc.Buffer.{
  malloc_size, SBuffer, new_buffer, BufferList, SBufferPool, push_buffer, fill_list,
  new_buffer_list, new_pool, put_list, list_get_buf, list_give_back, get_buffer, give_back,
}
use mg_raffle.Rpc.Buffer.Sizes.{IsClass, malloc_size-IsClass, malloc_size-eq-none}

abbrev pub AllOf : ℤ → List SBuffer → Type 0
AllOf key [] = Unit
AllOf key (b ∷ bs) = (b.real_size ≡ key) × AllOf key bs

abbrev pub Fits : ℤ → Option BufferList → Type 0
Fits key none = ¬ IsClass key
Fits key (some l) = IsClass key × (l.buffer_size ≡ key) × AllOf key l.buf_list

-- The pool has a list for each size class and for nothing else, with buffers of that size only.
abbrev pub IsPool : SBufferPool → Type 0
IsPool pool = (key : ℤ) → Fits key (pool key)

AllOf-append : (key : ℤ) (xs ys : List SBuffer) → AllOf key xs → AllOf key ys → AllOf key (xs ++ ys)
AllOf-append key [] ys a b = b
AllOf-append key (x ∷ xs) ys a b = (a.0, AllOf-append key xs ys a.1 b)

malloc_size_class : (key : ℤ) → IsClass key → malloc_size key ≡ some key
unfolding malloc_size
malloc_size_class key k = ground arith

abbrev Made : Ptr → ℤ → Option SBuffer → Type 0
Made p key none = ⊥
Made p key (some b) = b.real_size ≡ (if p == null then pos 0 else key)

new_buffer-Made : (p : Ptr) (key : ℤ) → IsClass key → Made p key (new_buffer p key)
unfolding new_buffer
new_buffer-Made p key k = rw (malloc_size_class key k) refl

abbrev Filled : ℤ → Option (List SBuffer) → Type 0
Filled key none = ⊥
Filled key (some bufs) = AllOf key bufs

push_buffer-Filled :
    (p : Ptr) (key : ℤ) (made : Option SBuffer) (later : Option (List SBuffer))
    → Made p key made
    → Filled key later
    → Filled key (push_buffer made later)
unfolding push_buffer
push_buffer-Filled p key none later m f = absurd m
push_buffer-Filled p key (some b) none m f = absurd f
push_buffer-Filled p key (some b) (some bufs) m f = ground arith

fill_list-Filled : (fresh : List Ptr) (key : ℤ) → IsClass key → Filled key (fill_list fresh key)
unfolding fill_list
fill_list-Filled [] key k = tt
fill_list-Filled (p ∷ fresh) key k =
    push_buffer-Filled p key (new_buffer p key) (fill_list fresh key) (new_buffer-Made p key k)
      (fill_list-Filled fresh key k)

listed-Fits :
    (key : ℤ) (bufs : Option (List SBuffer))
    → IsClass key
    → Filled key bufs
    → Fits key (do b ← bufs; some (record { buffer_size = key; buf_list = b }))
listed-Fits key none k f = absurd f
listed-Fits key (some b) k f = (k, refl, f)

new_buffer_list-Fits :
    (fresh : List Ptr) (key : ℤ) → IsClass key → Fits key (new_buffer_list fresh key)
unfolding new_buffer_list
new_buffer_list-Fits fresh key k =
    listed-Fits key (fill_list fresh key) k (fill_list-Filled fresh key k)

put_list-IsPool :
    (key : ℤ) (l : BufferList) (pool : SBufferPool)
    → IsPool pool
    → Fits key (some l)
    → IsPool (put_list key l pool)
put_list-IsPool key l pool ok fit other = elim (Bool-cases (eq_ℤ other key)) [
  | inl same ↦ rw (same, eq_ℤ_sound other key same) fit
  | inr differs ↦ rw differs (ok other)
]

-- A new pool is well formed, however much of its memory could be had.
pub new_pool-IsPool : (fresh : ℤ → List Ptr) → IsPool (new_pool fresh)
unfolding new_pool
new_pool-IsPool fresh key = ground (
  arith,
  new_buffer_list-Fits (fresh key) (pos 128),
  new_buffer_list-Fits (fresh key) (pos 256),
  new_buffer_list-Fits (fresh key) (pos 512),
  new_buffer_list-Fits (fresh key) (pos 1024),
  new_buffer_list-Fits (fresh key) (pos 2048),
  new_buffer_list-Fits (fresh key) (pos 4096),
)

-- What `get_buffer` owes: a buffer of the right class, and a pool that is still well formed.
abbrev pub Gets : Ptr → ℤ → Option (SBuffer × SBufferPool) → Type 0
Gets fresh size none = ⊥
Gets fresh size (some (buf, pool)) =
    ((malloc_size size ≡ some buf.real_size) ⊎ (fresh ≡ null)) × IsPool pool

abbrev Taken : Ptr → ℤ → Option (SBuffer × BufferList) → Type 0
Taken fresh key none = ⊥
Taken fresh key (some (buf, l)) = ((buf.real_size ≡ key) ⊎ (fresh ≡ null)) × Fits key (some l)

Made-Taken :
    (fresh : Ptr) (l : BufferList) (key : ℤ) (made : Option SBuffer)
    → Made fresh key made
    → Fits key (some l)
    → Taken fresh key (do buf ← made; some (buf, l))
Made-Taken fresh l key none m fit = m
Made-Taken fresh l key (some b) m fit = (ground arith, fit)

take_front-Taken :
    (fresh : Ptr) (key : ℤ) (bufs : List SBuffer)
    → IsClass key
    → AllOf key bufs
    → Taken fresh key (list_get_buf fresh (record { buffer_size = key; buf_list = bufs }))
unfolding list_get_buf
take_front-Taken fresh key [] k all =
    Made-Taken fresh _ key (new_buffer fresh key) (new_buffer-Made fresh key k) (k, refl, all)
take_front-Taken fresh key (b ∷ bufs) k all = (inl all.0, (k, refl, all.1))

list_get_buf-Taken :
    (fresh : Ptr) (key : ℤ) (l : BufferList)
    → Fits key (some l)
    → Taken fresh key (list_get_buf fresh l)
unfolding list_get_buf
list_get_buf-Taken fresh key l fit =
    rw fit.1 at (take_front-Taken fresh l.buffer_size l.buf_list (rw fit.1 fit.0) (rw fit.1 fit.2))

take_list-Gets :
    (fresh : Ptr) (key size : ℤ) (pool : SBufferPool) (o : Option BufferList)
    → Fits key o
    → IsClass key
    → IsPool pool
    → malloc_size size ≡ some key
    → Gets fresh size (do l ← o; (buf, l') ← list_get_buf fresh l; some (buf, put_list key l' pool))
take_list-Gets fresh key size pool none fit k ok e = fit k
take_list-Gets fresh key size pool (some l) fit k ok e =
    taken (list_get_buf fresh l) (list_get_buf-Taken fresh key l fit)
  where
    taken :
        (r : Option (SBuffer × BufferList))
        → Taken fresh key r
        → Gets fresh size (do (buf, l') ← r; some (buf, put_list key l' pool))
    taken none t = t
    taken (some (buf, l')) t = (ground arith, put_list-IsPool key l' pool ok t.1)

-- From a well-formed pool, `get_buffer` returns a buffer for every size up to 4096, of the size's
-- class unless `malloc` gave no memory, and the pool stays well formed.
pub get_buffer-Gets :
    (fresh : Ptr) (size : ℤ) (pool : SBufferPool)
    → IsPool pool
    → size ≤ℤ pos 4096
    → Gets fresh size (get_buffer fresh size pool)
unfolding get_buffer
get_buffer-Gets fresh size pool ok small = elim (Option-cases (malloc_size size)) [
  | inl e ↦ absurd (omega (arith, (malloc_size-eq-none size).0 e))
  | inr (key, e) ↦
      let k = malloc_size-IsClass size key e in
      rw (e, get_buffer) (take_list-Gets fresh key size pool (pool key) (ok key) k ok e)
]

-- The call succeeds, and the pool stays well formed.
abbrev pub Keeps : Option SBufferPool → Type 0
Keeps none = ⊥
Keeps (some pool) = IsPool pool

put_back-Keeps :
    (buf : SBuffer) (pool : SBufferPool) (o : Option BufferList)
    → Fits buf.real_size o
    → IsPool pool
    → IsClass buf.real_size
    → Keeps (do l ← o; some (put_list buf.real_size (list_give_back buf l) pool))
unfolding list_give_back
put_back-Keeps buf pool none fit ok k = fit k
put_back-Keeps buf pool (some l) fit ok k =
    put_list-IsPool buf.real_size _ pool ok
      (k, fit.1, AllOf-append buf.real_size l.buf_list (buf ∷ []) fit.2 (refl, tt))

-- A buffer whose size is a class can be given back to a well-formed pool, which stays one.
pub give_back-Keeps :
    (buf : SBuffer) (pool : SBufferPool)
    → IsPool pool
    → IsClass buf.real_size
    → Keeps (give_back buf pool)
unfolding give_back
give_back-Keeps buf pool ok k = put_back-Keeps buf pool (pool buf.real_size) (ok buf.real_size) ok k

unlisted : (key : ℤ) (o : Option BufferList) → Fits key o → ¬ IsClass key → o ≡ none
unlisted key none fit no_class = refl
unlisted key (some l) fit no_class = absurd (no_class fit.0)

-- A buffer whose memory could not be had is in no class: giving it back to a well-formed pool is a
-- null dereference.
pub give_back_failed :
    (size : ℤ) (buf : SBuffer) (pool : SBufferPool)
    → IsPool pool
    → new_buffer null size ≡ some buf
    → give_back buf pool ≡ none
unfolding give_back new_buffer
give_back_failed size buf pool ok e =
    let zero_size : buf.real_size ≡ pos 0 = ground arith in
    ground (arith, unlisted (pos 0) (pool (pos 0)) (ok (pos 0)) (λ k. ground arith))
