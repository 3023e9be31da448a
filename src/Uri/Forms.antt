-- ===== src/Uri/Forms.antt =====
-- What the forms of an address mean.
use rapidapp.Base.{
  ℕ, ◌%◌, ◌^◌, ◌<◌, ◌≡◌, ◌≢◌, refl, ◌∙◌, ap, Bool, true, false, Option, none, some, List, [], ◌∷◌,
  ◌++◌, ℤ, pos, length, leb, ◌==◌, to_size, arith,
}
use rapidapp.Uri.{
  uri_seperator, max_uri_len, proto_tcp, proto_udp, proto_unix, cut, starts, protocol_of, type_of,
  rap_uri_get_socket_type, resolved, with_port, host_and_port, addr_of, rap_uri_get_socket_addr,
}

-- No separator in it.
abbrev pub Plain : List ℕ → Type 0
Plain [] = Unit
Plain (c ∷ cs) = (c ≢ uri_seperator) × Plain cs

not_seperator : (c : ℕ) → c ≢ uri_seperator → (c == uri_seperator) ≡ false
not_seperator c h = ground arith

pub cut-joined : (a b : List ℕ) → Plain a → cut (a ++ uri_seperator ∷ b) ≡ (a, some b)
unfolding cut
cut-joined [] b p = refl
cut-joined (c ∷ a) b (n, p) = rw (not_seperator c n, cut-joined a b p) refl

pub cut-Plain : (a : List ℕ) → Plain a → cut a ≡ (a, none)
unfolding cut
cut-Plain [] p = refl
cut-Plain (c ∷ a) (n, p) = rw (not_seperator c n, cut-Plain a p) refl

short_enough : (n : ℕ) → n < max_uri_len → leb max_uri_len n ≡ false
short_enough n h = ground arith

-- A protocol with its number.
pub data Protocol : Type 0 where
  tcp : Protocol
  udp : Protocol
  unix : Protocol

abbrev pub name_of : Protocol → List ℕ
name_of tcp = proto_tcp
name_of udp = proto_udp
name_of unix = proto_unix

abbrev pub number_of : Protocol → ℕ
number_of tcp = 0
number_of udp = 1
number_of unix = 2

far : (c : ℕ) → uri_seperator < c → c ≢ uri_seperator
far c h e = omega arith

name-Plain : (p : Protocol) → Plain (name_of p)
name-Plain tcp = (far 116 (omega arith), (far 99 (omega arith), (far 112 (omega arith), tt)))
name-Plain udp = (far 117 (omega arith), (far 100 (omega arith), (far 112 (omega arith), tt)))
name-Plain unix = (
  far 117 (omega arith),
  (far 110 (omega arith), (far 105 (omega arith), (far 120 (omega arith), tt))),
)

protocol_of-name : (p : Protocol) → protocol_of (name_of p) ≡ some (number_of p)
unfolding protocol_of starts
protocol_of-name tcp = refl
protocol_of-name udp = refl
protocol_of-name unix = refl

module _ (inet_addr : List ℕ → Option ℕ) (atoi : List ℕ → ℤ) where
  socket_addr-cut :
      (uri : List ℕ)
      → length uri < max_uri_len
      → rap_uri_get_socket_addr inet_addr atoi (some uri) ≡ addr_of inet_addr atoi (cut uri)
  unfolding rap_uri_get_socket_addr
  socket_addr-cut uri short = rw (short_enough (length uri) short) refl

  addr_of-known :
      (name rest : List ℕ) (i : ℕ)
      → protocol_of name ≡ some i
      → addr_of inet_addr atoi (name, some rest) ≡ host_and_port inet_addr atoi (i == 2) (cut rest)
  unfolding addr_of
  addr_of-known name rest i e = rw (addr_of, e) refl

  with_port-known :
      (is_unix : Bool) (host : List ℕ) (port a : ℕ)
      → inet_addr host ≡ some a
      → with_port inet_addr atoi is_unix host port
        ≡ resolved (record { is_unix = is_unix; s_addr = a; port = port % 2 ^ 16 })
  unfolding with_port
  with_port-known is_unix host port a e = rw (with_port, e) refl

  host_and_port-joined :
      (is_unix : Bool) (host digits : List ℕ) (a : ℕ)
      → Plain host
      → inet_addr host ≡ some a
      → host_and_port inet_addr atoi is_unix (cut (host ++ uri_seperator ∷ digits))
        ≡ resolved (record { is_unix = is_unix; s_addr = a; port = to_size (atoi digits) % 2 ^ 16 })
  unfolding host_and_port
  host_and_port-joined is_unix host digits a plain e =
      ap (host_and_port inet_addr atoi is_unix) (cut-joined host digits plain)
      ∙ with_port-known is_unix host (to_size (atoi digits)) a e

socket_type-cut :
    (uri : List ℕ)
    → length uri < max_uri_len
    → rap_uri_get_socket_type (some uri) ≡ type_of (cut uri)
unfolding rap_uri_get_socket_type
socket_type-cut uri short = rw (short_enough (length uri) short) refl

type_of-known :
    (name rest : List ℕ) (i : ℕ) → protocol_of name ≡ some i → type_of (name, some rest) ≡ pos i
unfolding type_of
type_of-known name rest i e = rw (type_of, e) refl

protocol_of-tcp : (name : List ℕ) → starts name proto_tcp ≡ true → protocol_of name ≡ some 0
unfolding protocol_of
protocol_of-tcp name e = rw (e) refl

-- An address with a protocol, a host that has no separator and is known, and a port is resolved to
-- just these, if it has fewer than 256 bytes; its socket's type is the protocol's.
pub full_address :
    (inet_addr : List ℕ → Option ℕ) (atoi : List ℕ → ℤ) (p : Protocol) (host digits : List ℕ)
    (a : ℕ)
    → Plain host
    → length (name_of p ++ uri_seperator ∷ (host ++ uri_seperator ∷ digits)) < max_uri_len
    → inet_addr host ≡ some a
    → (rap_uri_get_socket_addr inet_addr atoi
          (some (name_of p ++ uri_seperator ∷ (host ++ uri_seperator ∷ digits)))
        ≡ resolved (record {
          is_unix = number_of p == 2;
          s_addr = a;
          port = to_size (atoi digits) % 2 ^ 16;
        }))
      × (rap_uri_get_socket_type
            (some (name_of p ++ uri_seperator ∷ (host ++ uri_seperator ∷ digits)))
          ≡ pos (number_of p))
full_address inet_addr atoi p host digits a plain short known = (
  socket_addr-cut inet_addr atoi (name_of p ++ uri_seperator ∷ (host ++ uri_seperator ∷ digits))
        short
      ∙ ap (addr_of inet_addr atoi)
          (cut-joined (name_of p) (host ++ uri_seperator ∷ digits) (name-Plain p))
      ∙ addr_of-known inet_addr atoi (name_of p) (host ++ uri_seperator ∷ digits) (number_of p)
          (protocol_of-name p)
      ∙ host_and_port-joined inet_addr atoi (number_of p == 2) host digits a plain known,
  socket_type-cut (name_of p ++ uri_seperator ∷ (host ++ uri_seperator ∷ digits)) short
      ∙ ap type_of (cut-joined (name_of p) (host ++ uri_seperator ∷ digits) (name-Plain p))
      ∙ type_of-known (name_of p) (host ++ uri_seperator ∷ digits) (number_of p)
          (protocol_of-name p),
)

-- Any beginning of "tcp", the empty one too, is taken for it, whatever stands behind the
-- separator, if the address has fewer than 256 bytes.
pub beginning_is_taken_for_tcp :
    (name rest : List ℕ)
    → Plain name
    → starts name proto_tcp ≡ true
    → length (name ++ uri_seperator ∷ rest) < max_uri_len
    → rap_uri_get_socket_type (some (name ++ uri_seperator ∷ rest)) ≡ pos 0
beginning_is_taken_for_tcp name rest plain begins short =
    socket_type-cut (name ++ uri_seperator ∷ rest) short
    ∙ ap type_of (cut-joined name rest plain)
    ∙ type_of-known name rest 0 (protocol_of-tcp name begins)
