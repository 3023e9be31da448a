-- ===== src/ClientApi/Tests.antt =====
-- A client and the server of the connector's example.
use rapidapp.Base.{
  ℕ, ◌+◌, ◌≤◌, ◌≡◌, refl, true, false, some, List, [], ◌∷◌, ◌++◌, length, drop, pos, success,
  failure, arith,
}
use rapidapp.Base.Run.{done, ◌>>=◌}
use rapidapp.Wire.{frame, get_pkg_len}
use rapidapp.Net.{EasyNet, find}
use rapidapp.Socket.{TcpSocketUtil, net_connected, net_connecting, received}
use rapidapp.Socket
use rapidapp.RingBuffer
use rapidapp.Socket.Online.{Online}
use rapidapp.Connector.{on_recv_front_end, on_recv_back_end}
use rapidapp.Connector.State.{Server, CsMsg, bytes_of, state_ok, state_init, cs_error}
use rapidapp.Connector.Session.{
  take_back_end, key_msg, passport_msg, start_msg, up_data_msg, down_msg,
}
use rapidapp.Connector.Sends.{framed}
use rapidapp.Connector.Clients.{Client}
use rapidapp.Connector.Example.{
  new_client, ready_client, client_net, back_net, session_in, Client-of, back_end_of, all_work,
}
use rapidapp.ClientApi.{ClientThread, new_thread, pop_message_from_recv_q, copy_out}
use rapidapp.ClientApi.State.{
  ClientProtocol, ClientState, session_state_done, session_state_tcp_syning, session_state_authing,
  empty_msg,
}
use rapidapp.ClientApi.State
use rapidapp.ClientApi.Protocol.{passport_of, syn_up, auth_up, data_up, parse_down}
use rapidapp.ClientApi.Calls.{
  update, push_message, peek_message, peek_packet, show_data, pop_message,
}
use rapidapp.ClientApi.Steps.{said, heard, At}
use rapidapp.ClientApi.Network.{client_turn, connector_turn, back_end_turn, arrives, on_socket}
use rapidapp.ClientApi.Rounds.{world, framed_length}
use rapidapp.ClientApi.Handshake.{handshake_end_to_end}
use rapidapp.ClientApi.Data.{pushed_data_is_forwarded, back_end_data_is_read}
use rapidapp.ClientApi.Errors.{error_is_ignored, lost_push_breaks_session}
use rapidapp.ClientApi.Copying.{popped_bytes_fit}
use rapidapp.ClientApi.Opening.{start_ready, dialled, empty-Inv}
use rapidapp.ClientApi.Example.{
  lossless, lossless-NeverEmpty, lossless-ReadsBack, settings, client, answers,
}

-- The back end takes the session, under the number 42.
abbrev ack : List ℕ
ack = 13379 ∷ 2 ∷ 2 ∷ 7 ∷ 3 ∷ 42 ∷ []

handshake_end_to_end_example :
    (cl' : ClientProtocol) × (s' : Server) × (n' : EasyNet) × ((client_turn lossless
          (answers 24)
          (world client false new_client [] [])
        >>= connector_turn lossless 4096 7
        >>= client_turn lossless (answers 19)
        >>= connector_turn lossless 4096 7
        >>= client_turn lossless (answers 0)
        >>= back_end_turn lossless 7 ack
        >>= client_turn lossless (answers 0))
      ≡ done (world cl' false s' [] []))
    × (cl'.session_state ≡ session_state_done)
    × (cl'.encrypt_skey ≡ bytes_of key_msg.secretkey)
    × (cl'.passport ≡ passport_of passport_msg.passport)
    × Client s' 1 100 7 n'
        (record (session_in state_init 0 0) { last_seq = 2; sid = 42; state = state_ok })
unfolding State.new_client syn_up auth_up empty_msg key_msg passport_msg start_msg find
    take_back_end
handshake_end_to_end_example =
    let o = (start_ready (pos 5) settings refl).1 in
    handshake_end_to_end lossless lossless-NeverEmpty lossless-ReadsBack (answers 24) (answers 19)
      (answers 0) (answers 0) false client 0 4096 new_client 1 100 7 2 9 client_net back_net
      (session_in state_init 0 0) ack o.listens o.in_state o.valid refl o.online (omega arith, refl)
      (omega arith, refl) (omega arith) (omega arith) (omega arith)
      (Client-of (session_in state_init 0 0) all_work refl refl) (λ i. refl) refl refl refl refl
      (back_end_of (session_in state_init 0 0) all_work) (omega arith) (omega arith) refl refl refl

-- Connected, in a state, and next to say a number.
abbrev online : ClientState → ℕ → ClientProtocol
online state seqno = record client {
  tcp_sock = record client.tcp_sock { socket_state = net_connected };
  session_state = state;
  seqno = seqno;
}

online-At : (state : ClientState) (seqno : ℕ) → At (online state seqno) state 0
online-At state seqno =
    let o = (start_ready (pos 5) settings refl).1 in
    record { listens = refl; in_state = refl; online = o.online }

pushed_data_is_forwarded_example :
    (sock : TcpSocketUtil) × (push_message lossless
        (answers 18)
        (some (104 ∷ []))
        (online session_state_done 6)
      ≡ done (success, said lossless (data_up (104 ∷ [])) (online session_state_done 6) sock))
    × Online sock 0
    × (s' : Server) × (on_recv_front_end lossless 1
          (lossless.cs_bytes (data_up (104 ∷ []) 6))
          ready_client
        ≡ done (some success, s'))
    × (s'.sent
        ≡ ready_client.sent ++ framed 9 (lossless.ss_bytes (up_data_msg 6 (7, 3) 42 (104 ∷ []))))
unfolding take_back_end data_up empty_msg
pushed_data_is_forwarded_example =
    pushed_data_is_forwarded lossless lossless-NeverEmpty lossless-ReadsBack (answers 18)
      (online session_state_done 6) 0 104 [] ready_client 1 100 7 2 9 client_net back_net
      (session_in state_ok 42 5) (online-At session_state_done 6).online (omega arith, refl)
      (Client-of (session_in state_ok 42 5) all_work refl refl) (λ i. refl) refl refl refl
      (back_end_of (session_in state_ok 42 5) all_work)

-- Data of the back end for the session.
abbrev data_msg : List ℕ
data_msg = 13379 ∷ 9 ∷ 5 ∷ 7 ∷ 3 ∷ 42 ∷ 104 ∷ 105 ∷ []

back_end_data_is_read_example :
    (s' : Server) × (on_recv_back_end lossless data_msg ready_client ≡ done (success, s'))
    × (c1 c2 c3 : ClientProtocol) × (update lossless
          (record (answers 0) { recv_answer = arrives (on_socket 7 (drop 0 s'.sent)) })
          true
          (online session_state_done 6)
        ≡ done (pos 1, true, c1))
    × (peek_message lossless true (answers 0) c1 ≡ done (success, some (104 ∷ 105 ∷ []), c2))
    × (pop_message c2 ≡ done (success, c3))
    × At c3 session_state_done (0 + framed_length lossless (down_msg 9 (104 ∷ 105 ∷ [])))
unfolding find down_msg bytes_of
back_end_data_is_read_example =
    back_end_data_is_read lossless lossless-NeverEmpty lossless-ReadsBack (answers 0)
      (online session_state_done 6) 0 ready_client 1 100 7 client_net (session_in state_ok 42 5)
      data_msg 104 (105 ∷ []) (Client-of (session_in state_ok 42 5) all_work refl refl) (λ i. refl)
      refl refl refl refl refl refl (online-At session_state_done 6) (omega arith)

-- An error of the connector with the code 3.
abbrev error_msg : CsMsg
error_msg = record empty_msg { bodyid = cs_error; error = some (pos 3, []) }

error_is_ignored_example :
    (sock : TcpSocketUtil) × (update lossless
        (record (answers 0) { recv_answer = received (frame (lossless.cs_bytes error_msg)) })
        false
        (online session_state_authing 3)
      ≡ done (
        pos 0,
        false,
        heard lossless (lossless.cs_bytes error_msg) (online session_state_authing 3) sock,
      ))
    × At
        (heard lossless (lossless.cs_bytes error_msg) (online session_state_authing 3) sock)
        session_state_authing
        (0 + (length (lossless.cs_bytes error_msg) + 4))
unfolding empty_msg
error_is_ignored_example =
    error_is_ignored lossless
      (record (answers 0) { recv_answer = received (frame (lossless.cs_bytes error_msg)) }) false
      (online session_state_authing 3) 0 (lossless.cs_bytes error_msg) session_state_authing tt
      (online-At session_state_authing 3) (omega arith) (omega arith) refl refl

-- A client whose buffers hold eight bytes each.
abbrev small : ClientProtocol
small = record (dialled 8 (pos 5) settings) { session_state = session_state_done; seqno = 6 }

lost_push_breaks_session_example :
    (cl' : ClientProtocol) × (push_message lossless (answers 0) (some (104 ∷ [])) small
      ≡ done (failure, cl'))
    × (cl'.tcp_sock ≡ small.tcp_sock)
    × (cl'.wire ≡ small.wire)
    × ((bytes : List ℕ)
        → on_recv_front_end lossless 1 (lossless.cs_bytes (data_up bytes cl'.seqno)) ready_client
          ≡ done (some failure, ready_client))
unfolding State.new_client data_up empty_msg Socket.new
lost_push_breaks_session_example =
    lost_push_breaks_session lossless lossless-ReadsBack (answers 0) small 104 [] ready_client 1 100
      7 client_net (session_in state_ok 42 5)
      (record { send_ok = empty-Inv 8 (omega arith); recv_ok = empty-Inv 8 (omega arith) })
      (omega arith) (omega arith) (Client-of (session_in state_ok 42 5) all_work refl refl)
      (omega arith) refl

-- A client that is to dial, and what `Update` makes of it.
abbrev idle : ClientProtocol
idle = record State.new_client { protocol_event_listener = true }

abbrev dialled_once : ClientProtocol
dialled_once = record idle {
  tcp_sock = record idle.tcp_sock { fd = pos 5; socket_state = net_connecting };
  session_state = session_state_tcp_syning;
}

-- A client's thread, with a message of one byte in the receive buffer of its client.
abbrev waiting : ClientThread
waiting = record new_thread {
  ccproto = some (record small {
    tcp_sock = record small.tcp_sock {
      recv_buf = record {
        buff_size = 18;
        buff = frame (lossless.cs_bytes (data_up (104 ∷ []) 6));
        begin = 0;
        end = 18;
      };
    };
  });
}

-- After the message was taken, at the time 50.
abbrev served : ClientThread
served = record new_thread {
  ccproto = some (record small {
    tcp_sock = record small.tcp_sock {
      last_response_timestamp = 50;
      recv_buf = record {
        buff_size = 18;
        buff = frame (lossless.cs_bytes (data_up (104 ∷ []) 6));
        begin = 18;
        end = 18;
      };
    };
    down_msg = data_up (104 ∷ []) 6;
  });
}

takes_one_byte :
    pop_message_from_recv_q lossless (some 1) (answers 0) waiting ≡ done (success, 104 ∷ [], served)
unfolding pop_message_from_recv_q new_thread copy_out peek_message peek_packet show_data parse_down
    pop_message Socket.has_new_pkg Socket.peek_from_recv_q Socket.pop_from_recv_q data_up empty_msg
    frame get_pkg_len State.new_client Socket.new Socket.pkg_len RingBuffer.read_at
    RingBuffer.datalen Socket.is_whole Socket.whole_pkg Socket.peek_pkg Socket.pop_pkg
takes_one_byte = refl

popped_bytes_fit_example : length {A = ℕ} (104 ∷ []) ≤ 1
popped_bytes_fit_example =
    popped_bytes_fit lossless (answers 0) 1 waiting served success (104 ∷ []) takes_one_byte
