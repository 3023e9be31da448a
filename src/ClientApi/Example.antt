-- ===== src/ClientApi/Example.antt =====
-- A way to write messages that loses nothing, and a client that has dialled.
use rapidapp.Base.{
  ℕ, zero, suc, ◌≡◌, refl, Option, none, some, List, [], ◌∷◌, ◌++◌, length, take, drop, take-append,
  drop-append, ℤ, pos, negsuc,
}
use rapidapp.Connector.State.{CsMsg, Codec}
use rapidapp.Connector.Steps.{NeverEmpty}
use rapidapp.Connector.Example.{plain}
use rapidapp.Socket.{sent, recv_would_block}
use rapidapp.Socket.Online.{size}
use rapidapp.ClientApi.State.{Settings, ClientProtocol, Answers}
use rapidapp.ClientApi.Opening.{dialled}
use rapidapp.ClientApi.Rounds.{ReadsBack}

abbrev put : Option ℕ → ℕ
put none = 0
put (some n) = suc n

abbrev got : ℕ → Option ℕ
got zero = none
got (suc n) = some n

got-put : (o : Option ℕ) → got (put o) ≡ o
got-put none = refl
got-put (some n) = refl

-- Optional bytes in front of the rest, with their number.
abbrev put_bytes : Option (List ℕ) → List ℕ → List ℕ
put_bytes none rest = 0 ∷ rest
put_bytes (some bytes) rest = suc (length bytes) ∷ (bytes ++ rest)

abbrev got_bytes : List ℕ → Option (List ℕ) × List ℕ
got_bytes [] = (none, [])
got_bytes (zero ∷ rest) = (none, rest)
got_bytes (suc n ∷ rest) = (some (take n rest), drop n rest)

got_bytes-put_bytes :
    (o : Option (List ℕ)) (rest : List ℕ) → got_bytes (put_bytes o rest) ≡ (o, rest)
got_bytes-put_bytes none rest = refl
got_bytes-put_bytes (some bytes) rest =
    rw (take-append (length bytes) bytes rest refl, drop-append (length bytes) bytes rest refl) refl

abbrev first : Option (List ℕ × List ℕ) → Option (List ℕ)
first none = none
first (some (a, b)) = some a

abbrev second : Option (List ℕ × List ℕ) → Option (List ℕ)
second none = none
second (some (a, b)) = some b

abbrev both : Option (List ℕ) → Option (List ℕ) → Option (List ℕ × List ℕ)
both (some a) (some b) = some (a, b)
both _ _ = none

both-parts : (o : Option (List ℕ × List ℕ)) → both (first o) (second o) ≡ o
both-parts none = refl
both-parts (some (a, b)) = refl

abbrev sign : Option (ℤ × List ℕ) → ℕ
sign none = 0
sign (some (pos n, text)) = 0
sign (some (negsuc n, text)) = 1

abbrev code : Option (ℤ × List ℕ) → ℕ
code none = 0
code (some (pos n, text)) = n
code (some (negsuc n, text)) = n

abbrev description : Option (ℤ × List ℕ) → Option (List ℕ)
description none = none
description (some (r, text)) = some text

abbrev error_of : ℕ → ℕ → Option (List ℕ) → Option (ℤ × List ℕ)
error_of _ _ none = none
error_of zero n (some text) = some (pos n, text)
error_of (suc _) n (some text) = some (negsuc n, text)

error_of-parts : (o : Option (ℤ × List ℕ)) → error_of (sign o) (code o) (description o) ≡ o
error_of-parts none = refl
error_of-parts (some (pos n, text)) = refl
error_of-parts (some (negsuc n, text)) = refl

abbrev write : CsMsg → List ℕ
write m =
    m.magic
    ∷ m.sequence
    ∷ m.bodyid
    ∷ put m.passport
    ∷ put m.start
    ∷ sign m.error
    ∷ code m.error
    ∷ put_bytes m.secretkey (
        put_bytes m.auth (
          put_bytes m.data_bytes (
            put_bytes (first m.syn)
              (put_bytes (second m.syn) (put_bytes (description m.error) [])))))

abbrev msg_of : (magic sequence bodyid passport start sign code : ℕ) → List ℕ → CsMsg
msg_of magic sequence bodyid passport start sign code rest =
    let (secretkey, l1) = got_bytes rest in
    let (auth, l2) = got_bytes l1 in
    let (data_bytes, l3) = got_bytes l2 in
    let (appid, l4) = got_bytes l3 in
    let (openid, l5) = got_bytes l4 in
    let (text, l6) = got_bytes l5 in
    record {
      magic = magic;
      sequence = sequence;
      bodyid = bodyid;
      secretkey = secretkey;
      passport = got passport;
      start = got start;
      syn = both appid openid;
      auth = auth;
      error = error_of sign code text;
      data_bytes = data_bytes;
    }

abbrev read : List ℕ → CsMsg
read (magic ∷ sequence ∷ bodyid ∷ passport ∷ start ∷ sign ∷ code ∷ rest) =
    msg_of magic sequence bodyid passport start sign code rest
read _ = msg_of 0 0 0 0 0 0 0 []

abbrev pub lossless : Codec
lossless = record plain { cs_bytes = write; parse_cs = read }

pub lossless-NeverEmpty : NeverEmpty lossless
lossless-NeverEmpty = (λ m e. cc, λ m e. cc)

pub lossless-ReadsBack : ReadsBack lossless
lossless-ReadsBack m =
    rw
      (
        got_bytes-put_bytes m.secretkey,
        got_bytes-put_bytes m.auth,
        got_bytes-put_bytes m.data_bytes,
        got_bytes-put_bytes (first m.syn),
        got_bytes-put_bytes (second m.syn),
        got_bytes-put_bytes (description m.error),
        got-put m.passport,
        got-put m.start,
        both-parts m.syn,
        error_of-parts m.error,
      )
      refl

-- "app", "user" and "pw".
abbrev pub settings : Settings
settings = record {
  appid = 97 ∷ 112 ∷ 112 ∷ [];
  openid = 117 ∷ 115 ∷ 101 ∷ 114 ∷ [];
  token = 112 ∷ 119 ∷ [];
  encrypt_mode = pos 0;
  auth_type = pos 0;
  server_uri = [];
}

abbrev pub client : ClientProtocol
client = dialled size (pos 5) settings

-- The connection is up, and the system takes so many bytes.
abbrev pub answers : ℕ → Answers
answers n = record {
  opened = pos 5;
  checked = pos 0;
  recv_answer = recv_would_block;
  send_answer = sent n;
  now = 50;
}
