-- ===== src/RingBuffer/Laws.antt =====
-- A ring buffer as the queue of the bytes between its two marks.
use native.Mathlib.Decide.{dec_lt}
use rapidapp.Base.{
  ℕ, ◌+◌, ◌-◌, ◌^◌, ◌≤◌, ◌<◌, ◌≡◌, refl, List, ◌++◌, length, take, drop, pos, arith, ap, sym, ◌∙◌,
  length-append, length-take, length-drop, take-append, length-write, slice-write, drop-take,
  drop-drop, take-append-drop, sub64,
}
use rapidapp.Base.Run.{done}
use rapidapp.RingBuffer.{
  RingBuffer, slice, read_at, write_at, compacted, recycle, append, avaiable, datalen,
}

pub record Inv (b : RingBuffer) : Type 0 where
  pub ordered : b.begin ≤ b.end
  pub within : b.end ≤ b.buff_size
  pub backed : length b.buff ≡ b.buff_size
  pub small : b.buff_size < 2 ^ 31

-- The bytes that wait, oldest first.
abbrev pub contents : RingBuffer → List ℕ
contents b = slice b.buff b.begin (b.end - b.begin)

pub length-slice :
    (mem : List ℕ) (off len : ℕ) → off + len ≤ length mem → length (slice mem off len) ≡ len
length-slice mem off len h = omega (arith, length-take len (drop off mem), length-drop off mem)

pub length-contents : (b : RingBuffer) → Inv b → length (contents b) ≡ b.end - b.begin
length-contents b v = length-slice b.buff b.begin (b.end - b.begin) (omega arith)

pub avaiable_lem : (b : RingBuffer) → Inv b → avaiable b ≡ pos (b.buff_size - b.end)
unfolding avaiable
avaiable_lem b v = ground arith

pub datalen_lem : (b : RingBuffer) → Inv b → datalen b ≡ pos (b.end - b.begin)
unfolding datalen
datalen_lem b v = ground arith

-- What `append` does where the bytes fit.
pub append_lem :
    (bytes : List ℕ) (b : RingBuffer)
    → Inv b
    → length bytes ≤ b.buff_size - b.end
    → (b' : RingBuffer) × (append bytes b ≡ done b')
      × Inv b'
      × (b'.buff_size ≡ b.buff_size)
      × (b'.end ≡ b.end + length bytes)
      × (contents b' ≡ contents b ++ bytes)
unfolding append
append_lem bytes b v h = (b', stored, valid, refl, refl, kept)
  where
    b' : RingBuffer
    b' = record b {
      buff = take b.end b.buff ++ (bytes ++ drop (b.end + length bytes) b.buff);
      end = b.end + length bytes;
    }

    stored : append bytes b ≡ done b'
    stored = ground (arith, v)

    valid : Inv b'
    valid = record {
      ordered = omega arith;
      within = omega arith;
      backed = length-write b.end b.buff bytes (omega arith) ∙ v.backed;
      small = v.small;
    }

    kept : contents b' ≡ contents b ++ bytes
    kept = slice-write b.begin b.end b.buff bytes _ v.ordered (omega arith)

-- The buffer after `recycle` has moved its bytes.
moved : RingBuffer → RingBuffer
moved b = record b {
  buff = contents b ++ drop (b.end - b.begin) b.buff;
  end = b.end - b.begin;
  begin = 0;
}

recycle_front : (b : RingBuffer) → b.begin ≡ 0 → recycle b ≡ done b
unfolding recycle
recycle_front b e = ground arith

-- With no byte left the block is not touched; else they are copied to its front.
moved_mem :
    (b : RingBuffer) → Inv b → compacted b ≡ done (contents b ++ drop (b.end - b.begin) b.buff)
unfolding compacted read_at write_at
moved_mem b v = elim (dec_lt b.begin b.end) [
  | yes p ↦ ground (arith, length-contents b v)
  | no p ↦ let e : b.end - b.begin ≡ 0 = omega arith in rw e (ground arith)
]

recycle-moved : (b : RingBuffer) → Inv b → 0 < b.begin → recycle b ≡ done (moved b)
unfolding recycle moved
recycle-moved b v h =
    let e : sub64 b.end b.begin ≡ b.end - b.begin = omega arith in ground (arith, moved_mem b v, e)

contents-moved : (b : RingBuffer) → Inv b → contents (moved b) ≡ contents b
unfolding moved
contents-moved b v =
    take-append (b.end - b.begin - 0) (contents b) (drop (b.end - b.begin) b.buff)
      (omega (arith, length-contents b v))

moved-Inv : (b : RingBuffer) → Inv b → Inv (moved b)
unfolding moved
moved-Inv b v = record {
  ordered = omega arith;
  within = omega arith;
  backed = omega (
    arith,
    length-append (contents b) (drop (b.end - b.begin) b.buff),
    length-contents b v,
    length-drop (b.end - b.begin) b.buff,
  );
  small = v.small;
}

-- `recycle` keeps the bytes and makes room.
pub recycle_lem :
    (b : RingBuffer)
    → Inv b
    → (b' : RingBuffer) × (recycle b ≡ done b')
      × Inv b'
      × (b'.buff_size ≡ b.buff_size)
      × (b'.begin ≡ 0)
      × (contents b' ≡ contents b)
unfolding moved
recycle_lem b v = elim (dec_lt 0 b.begin) [
  | no front ↦ (b, recycle_front b (omega arith), v, refl, omega arith, refl)
  | yes gap ↦ (moved b, recycle-moved b v gap, moved-Inv b v, refl, refl, contents-moved b v)
]

-- Moving `begin` on takes bytes away at the front.
abbrev pub consume : ℕ → RingBuffer → RingBuffer
consume n b = record b { begin = b.begin + n }

pub consume-Inv : (n : ℕ) (b : RingBuffer) → Inv b → n ≤ b.end - b.begin → Inv (consume n b)
consume-Inv n b v h = omega arith

pub contents-consume :
    (n : ℕ) (b : RingBuffer)
    → Inv b
    → n ≤ b.end - b.begin
    → contents (consume n b) ≡ drop n (contents b)
contents-consume n b v h = sym (
    drop-take n (b.end - b.begin) (drop b.begin b.buff)
    ∙ rw (drop-drop n b.begin (b.begin + n) b.buff refl)
        (ap (λ k. take k (drop (b.begin + n) b.buff)) (omega arith)))

-- What is consumed and what is left make up what was there.
pub take-contents-consume :
    (n : ℕ) (b : RingBuffer)
    → Inv b
    → n ≤ b.end - b.begin
    → take n (contents b) ++ contents (consume n b) ≡ contents b
take-contents-consume n b v h = rw (contents-consume n b v h) (take-append-drop n (contents b))
