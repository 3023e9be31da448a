-- ===== src/ClientApi/Reasons.antt =====
-- The handshake of a client as an automaton: its steps, and what is the reason for each.
use rapidapp.Base.{
  ℕ, ◌≡◌, ◌≢◌, ◌⊎◌, ◌↔◌, true, false, ◌&&◌, some, ℤ, pos, ltb_ℤ, eqb_ℤ, success, arith,
}
use rapidapp.Base.Run.{done}
use rapidapp.Socket.{TcpSocketUtil, net_connected, normal}
use rapidapp.Socket
use rapidapp.Connector.State.{
  Codec, cs_syn, cs_synack, cs_authentication, cs_passport, cs_start_app, bytes_of,
}
use rapidapp.ClientApi.State.{
  session_state_inited, session_state_tcp_syning, session_state_key_syning, session_state_authing,
  session_state_ready, session_state_done, session_state_fini, ClientProtocol, Answers,
}
use rapidapp.ClientApi.Protocol.{
  serialize_and_send_to_peer, try_to_recv_from_peer_and_parse, write_up, syn_up, auth_up,
}
use rapidapp.ClientApi.Calls.{is_connected}

-- The system opens a connection: it gives a descriptor.
abbrev pub Dials : Answers → Type 0
Dials a = ltb_ℤ a.opened (pos 0) ≡ false

-- The connection stands: there is a descriptor, and the system says that it is connected, or says
-- that it is under way while it is known to be connected already.
abbrev pub Stands : Answers → TcpSocketUtil → Type 0
Stands a s =
    (ltb_ℤ s.fd (pos 0) ≡ false)
    × ((eqb_ℤ a.checked (pos 0) ≡ true)
        ⊎ ((ltb_ℤ (pos 0) a.checked ≡ true) × (s.socket_state ≡ net_connected)))

module _ (codec : Codec) (a : Answers) where
  -- The sending of the message that such a client has ready fails.
  abbrev pub Unsent : ClientProtocol → Type 0
  Unsent d =
      (r : ℤ) × (d' : ClientProtocol) × (serialize_and_send_to_peer codec a d ≡ done (r, d'))
      × (eqb_ℤ r normal ≡ false)

  -- No message, or a message of another kind, was there to be read.
  abbrev pub Unread : ℕ → ClientProtocol → Type 0
  Unread bodyid c =
      (r : ℤ) × (d : ClientProtocol) × (try_to_recv_from_peer_and_parse codec a c ≡ done (r, d))
      × ((eqb_ℤ r success ≡ false) ⊎ (d.down_msg.bodyid ≢ bodyid))

  -- Why a client stays in its state.
  pub data Stall (c : ClientProtocol) : Type 0 where
    unstarted : c.protocol_event_listener ≡ false → Stall c
    not_dialled : c.session_state ≡ session_state_inited → ¬ Dials a → Stall c
    not_standing : c.session_state ≡ session_state_tcp_syning → ¬ Stands a c.tcp_sock → Stall c
    syn_unsent :
        c.session_state ≡ session_state_tcp_syning
        → Unsent (
            write_up
              (syn_up c.appid c.openid)
              (record c { tcp_sock = (Socket.check_nonblock a.checked c.tcp_sock).1 }))
        → Stall c
    no_key : c.session_state ≡ session_state_key_syning → Unread cs_synack c → Stall c
    auth_unsent :
        (r : ℤ) (d : ClientProtocol)
        → c.session_state ≡ session_state_key_syning
        → try_to_recv_from_peer_and_parse codec a c ≡ done (r, d)
        → Unsent
            (write_up (auth_up d.token) (record d { encrypt_skey = bytes_of d.down_msg.secretkey }))
        → Stall c
    no_passport : c.session_state ≡ session_state_authing → Unread cs_passport c → Stall c
    no_start : c.session_state ≡ session_state_ready → Unread cs_start_app c → Stall c
    is_over : c.session_state ≡ session_state_done → Stall c
    is_closed : c.session_state ≡ session_state_fini → Stall c

  -- One step of the automaton, with what the client has read where it goes on.
  pub data Edge (c c' : ClientProtocol) : Type 0 where
    stays : c'.session_state ≡ c.session_state → Stall c → Edge c c'
    dials :
        c.session_state ≡ session_state_inited
        → c'.session_state ≡ session_state_tcp_syning
        → Dials a
        → Edge c c'
    greets :
        c.session_state ≡ session_state_tcp_syning
        → c'.session_state ≡ session_state_key_syning
        → Stands a c.tcp_sock
        → c'.up_msg.bodyid ≡ cs_syn
        → c'.up_msg.syn ≡ some (c.appid, c.openid)
        → Edge c c'
    takes_key :
        c.session_state ≡ session_state_key_syning
        → c'.session_state ≡ session_state_authing
        → c'.down_msg.bodyid ≡ cs_synack
        → c'.encrypt_skey ≡ bytes_of c'.down_msg.secretkey
        → c'.up_msg.bodyid ≡ cs_authentication
        → Edge c c'
    takes_passport :
        c.session_state ≡ session_state_authing
        → c'.session_state ≡ session_state_ready
        → c'.down_msg.bodyid ≡ cs_passport
        → Edge c c'
    takes_start :
        c.session_state ≡ session_state_ready
        → c'.session_state ≡ session_state_done
        → c'.down_msg.bodyid ≡ cs_start_app
        → Edge c c'

-- What `CheckNonBlock` finds.
pub standing_iff :
    (a : Answers) (s : TcpSocketUtil)
    → let (r, sock) = Socket.check_nonblock a.checked s in
      ((eqb_ℤ r normal && is_connected sock.socket_state) ≡ true) ↔ Stands a s
unfolding Socket.check_nonblock is_connected Socket.close Socket.reset
standing_iff a s = ground arith
