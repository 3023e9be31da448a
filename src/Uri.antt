-- ===== src/Uri.antt =====
-- utils/rap_net_uri.c: addresses of the form `protocol:host:port`, as lists of bytes without the zero
-- that ends them. `inet_addr` and `atoi` are parameters.
pub mod Forms
mod Tests
use rapidapp.Base.{
  ℕ, zero, suc, ◌%◌, ◌^◌, Bool, true, false, Option, none, some, List, [], ◌∷◌, ℤ, pos, negsuc,
  length, ltb, leb, ◌==◌, if◌then◌else◌, to_size,
}

abbrev pub uri_seperator : ℕ
uri_seperator = 58

abbrev pub max_uri_len : ℕ
max_uri_len = 256

abbrev pub net_def_port : ℕ
net_def_port = 80

abbrev pub proto_tcp : List ℕ
proto_tcp = 116 ∷ 99 ∷ 112 ∷ []

abbrev pub proto_udp : List ℕ
proto_udp = 117 ∷ 100 ∷ 112 ∷ []

abbrev pub proto_unix : List ℕ
proto_unix = 117 ∷ 110 ∷ 105 ∷ 120 ∷ []

-- `strchr` for the separator, and the zero written over it: what is before it, and behind it if it is
-- there.
unfoldable pub cut : List ℕ → List ℕ × Option (List ℕ)
cut [] = ([], none)
cut (c ∷ cs) = if c == uri_seperator then ([], some cs) else let (a, b) = cut cs in (c ∷ a, b)

-- `strncmp(name, proto, strlen(name))` is zero.
unfoldable pub starts : (name proto : List ℕ) → Bool
starts [] proto = true
starts (c ∷ name) [] = false
starts (c ∷ name) (d ∷ proto) = if c == d then starts name proto else false

-- The loop over `protocol`.
unfoldable pub protocol_of : List ℕ → Option ℕ
unfolding starts
protocol_of name =
    if starts name proto_tcp
    then some 0
    else if starts name proto_udp
    then some 1
    else if starts name proto_unix
    then some 2
    else none

unfoldable pub type_of : List ℕ × Option (List ℕ) → ℤ
type_of (name, none) = pos 0
type_of (name, some rest) = elim (protocol_of name) [ none ↦ negsuc 2 | some i ↦ pos i ]

unfoldable pub rap_uri_get_socket_type : Option (List ℕ) → ℤ
rap_uri_get_socket_type none = negsuc 0
rap_uri_get_socket_type (some uri) =
    if leb max_uri_len (length uri) then negsuc 1 else type_of (cut uri)

-- A `sockaddr_in`, with the port as `htons` cuts it.
pub record SockaddrIn : Type 0 where
  pub is_unix : Bool
  pub s_addr : ℕ
  pub port : ℕ

-- A code, or an address.
pub data Resolved : Type 0 where
  refused : ℤ → Resolved
  resolved : SockaddrIn → Resolved

module _ (inet_addr : List ℕ → Option ℕ) (atoi : List ℕ → ℤ) where
  unfoldable pub with_port : Bool → List ℕ → ℕ → Resolved
  with_port is_unix host port = elim (inet_addr host) [
    | none ↦ refused (negsuc 2)
    | some a ↦ resolved (record { is_unix = is_unix; s_addr = a; port = port % 2 ^ 16 })
  ]

  unfoldable pub host_and_port : Bool → List ℕ × Option (List ℕ) → Resolved
  unfolding with_port
  host_and_port is_unix (host, none) = with_port is_unix host net_def_port
  host_and_port is_unix (host, some digits) = with_port is_unix host (to_size (atoi digits))

  unfoldable pub addr_of : List ℕ × Option (List ℕ) → Resolved
  unfolding with_port
  addr_of (host, none) = with_port false host net_def_port
  addr_of (name, some rest) = elim (protocol_of name) [
    | none ↦ refused (negsuc 3)
    | some i ↦ host_and_port (i == 2) (cut rest)
  ]

  -- `sin` is not a null pointer.
  unfoldable pub rap_uri_get_socket_addr : Option (List ℕ) → Resolved
  rap_uri_get_socket_addr none = refused (negsuc 0)
  rap_uri_get_socket_addr (some uri) =
      if leb max_uri_len (length uri) then refused (negsuc 1) else addr_of (cut uri)
