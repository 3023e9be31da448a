-- ===== src/RingBuffer.antt =====
-- `RingBuffer` of utils/tsocket_util.h: a buffer whose bytes stand between `begin` and `end`.
-- TSOCKET_UTIL_ATOMIC, which no build file defines, is off. The block that `buff` points to is the
-- list of its bytes; a read or a write that leaves the block is a fault.
pub mod Laws
use rapidapp.Base.{
  ℕ, ◌+◌, ◌-◌, Bool, true, false, List, [], ◌++◌, length, take, drop, replicate, ℤ, sub64, to_int,
  ltb, leb, if◌then◌else◌, ◌&&◌,
}
use rapidapp.Base.Run.{Run, done, fault, ◌>>=◌}

pub record RingBuffer : Type 0 where
  pub buff_size : ℕ
  pub buff : List ℕ
  pub begin : ℕ
  pub end : ℕ

unfoldable pub new : RingBuffer
new = record { buff_size = 0; buff = []; begin = 0; end = 0 }

-- The bytes of a stretch of memory.
abbrev pub slice : List ℕ → ℕ → ℕ → List ℕ
slice mem off len = take len (drop off mem)

unfoldable pub read_at : List ℕ → ℕ → ℕ → Run (List ℕ)
read_at mem off len = if leb (off + len) (length mem) then done (slice mem off len) else fault

-- `memcpy` and `memmove` of bytes to a place in a block.
unfoldable pub write_at : List ℕ → ℕ → List ℕ → Run (List ℕ)
write_at mem off bytes =
    if leb (off + length bytes) (length mem)
    then done (take off mem ++ (bytes ++ drop (off + length bytes) mem))
    else fault

-- `calloc`, which can fail.
unfoldable pub malloc : Bool → ℕ → RingBuffer → Bool × RingBuffer
malloc true size b = (true, record b { buff = replicate size 0 })
malloc false size b = (false, record b { buff = [] })

-- The block is given back; with a size of 0 nothing is stored in it any more.
unfoldable pub free : RingBuffer → RingBuffer
free b = if ltb 0 b.buff_size then record b { buff = []; buff_size = 0 } else b

unfoldable pub avaiable : RingBuffer → ℤ
avaiable b = to_int (sub64 b.buff_size b.end)

unfoldable pub datalen : RingBuffer → ℤ
datalen b = to_int (sub64 b.end b.begin)

-- The block after the `memmove` of `Recycle_ATOMIC`.
unfoldable pub compacted : RingBuffer → Run (List ℕ)
compacted b =
    if ltb b.begin b.end
    then read_at b.buff b.begin (b.end - b.begin) >>= write_at b.buff 0
    else done b.buff

-- `Recycle_ATOMIC`: moves the bytes to the front.
unfoldable pub recycle : RingBuffer → Run RingBuffer
recycle b =
    if ltb 0 b.begin
    then compacted b
      >>= (λ mem. done (record b { buff = mem; end = sub64 b.end b.begin; begin = 0 }))
    else done b

-- A write of bytes behind the last one.
unfoldable pub append : List ℕ → RingBuffer → Run RingBuffer
unfolding write_at
append bytes b = write_at b.buff b.end bytes >>= λ mem.
    done (record b { buff = mem; end = b.end + length bytes })
