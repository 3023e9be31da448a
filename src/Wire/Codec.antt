-- ===== src/Wire/Codec.antt =====
-- The length field reads back.
use rapidapp.Base.{
  ℕ, ◌%◌, pos, ◌+◌, ◌^◌, ◌<◌, ◌≡◌, List, ◌++◌, length, arith, to_int-lt, ltb, false,
}
use rapidapp.Wire.{get_pkg_len, htonl, ntohl, frame, get_msg_length}

pub ntohl-htonl : (n : ℕ) (rest : List ℕ) → n < 2 ^ 32 → ntohl (htonl n ++ rest) ≡ n
unfolding ntohl htonl
ntohl-htonl n rest h = omega arith

ltb-htonl : (n : ℕ) (rest : List ℕ) → ltb (length (htonl n ++ rest)) 4 ≡ false
unfolding htonl
ltb-htonl n rest = ground arith

-- A length field below 2 ^ 31 reads as itself, whatever follows.
pub get_msg_length-htonl :
    (n : ℕ) (rest : List ℕ) → n < 2 ^ 31 → get_msg_length (htonl n ++ rest) ≡ n
unfolding get_msg_length
get_msg_length-htonl n rest h =
    rw (ltb-htonl n rest, ntohl-htonl n rest (omega arith), to_int-lt n h)

pub length-frame : (msg : List ℕ) → length (frame msg) ≡ length msg + 4
unfolding frame
length-frame msg = omega arith

pub length-htonl : (n : ℕ) (rest : List ℕ) → length (htonl n ++ rest) ≡ 4 + length rest
unfolding htonl
length-htonl n rest = omega arith

-- The client's parser reads the length of a whole message that is not empty.
pub get_pkg_len-frame :
    (m : List ℕ) → 0 < length m → length m + 4 < 2 ^ 31 → get_pkg_len (frame m) ≡ pos (length m + 4)
unfolding get_pkg_len frame
get_pkg_len-frame m h k = ground (
  arith,
  length-htonl ((length m + 4) % 2 ^ 32) m,
  ntohl-htonl ((length m + 4) % 2 ^ 32) m,
  to_int-lt (length m + 4) k,
)
