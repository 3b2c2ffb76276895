-- ===== src/Session/Wire/Cuts.antt =====
-- A session on a stream: where the network cuts the stream does not matter to it, nor whether its
-- packets come over TCP or a websocket.
use sara.Common.{
  ◌≡◌, refl, sym, ap, ◌∙◌, List, [], ◌∷◌, ◌++◌, map, append_assoc, some, Bytes, All, length,
  Outcome, ret, panic, Exec, continue, for_each, ◌>>=◌, pure,
}
use sara.Conn.{
  ReadPacketResult, TcpSessionConn, received, failed, recv_tcp, recv_ws, new_tcp, callback,
  change_buff_len,
}
use sara.Decoder.{decode_packet}
use sara.Decoder.Pieces.{frames}
use sara.Decoder.Stream.{AllAligned, concat}
use sara.Conn.Stream.{handed, recv_tcp-frames, Sendable, written, frames-written}
use sara.Session.State.{Env, World, Shared, update_session, packet_handler_timeout}
use sara.Session.Actions.{close_session}
use sara.Session.Handler.{
  packet_handler, handle_packet, handle_result, set_session_timeout, new_session, timeout_of,
}
use sara.Session.Blind.{with_timeout}
use sara.Session.Blind.Methods.{close_session-Blind}
use sara.Session.Wire.{
  serve_tcp, serve_ws, tcp_session, ws_session, IsClean, handle, for_each-append,
  handled_one_by_one,
}

-- The result of a read that failed.
abbrev error_of : Bytes → ReadPacketResult
error_of e = record { packets = []; error = some e }

-- The connection after a read.
abbrev after_read : TcpSessionConn → Bytes → TcpSessionConn
after_read conn chunk = record {
  part = (decode_packet chunk conn.part).1;
  buff_len = change_buff_len conn.buff_len (length chunk);
}

callback-IsClean :
    (env : Env) (ps : List Bytes) (rs : List ReadPacketResult)
    → IsClean env rs
    → IsClean env (callback ps ++ rs)
unfolding callback
callback-IsClean env [] rs c = c
callback-IsClean env (p ∷ ps) rs c = (refl, c)

recv_tcp-IsClean :
    (env : Env) (conn : TcpSessionConn) (chunks : List Bytes)
    → IsClean env (recv_tcp conn (map received chunks)).0
unfolding recv_tcp
recv_tcp-IsClean env conn [] = tt
recv_tcp-IsClean env conn (chunk ∷ chunks) =
    callback-IsClean env (decode_packet chunk conn.part).0 _
      (recv_tcp-IsClean env (after_read conn chunk) chunks)

recv_tcp-failed :
    (conn : TcpSessionConn) (chunks : List Bytes) (e : Bytes)
    → (recv_tcp conn (map received chunks ++ failed e ∷ [])).0
      ≡ (recv_tcp conn (map received chunks)).0 ++ error_of e ∷ []
unfolding recv_tcp
recv_tcp-failed conn [] e = refl
recv_tcp-failed conn (chunk ∷ chunks) e =
    rw (recv_tcp-failed (after_read conn chunk) chunks e, append_assoc)

recv_ws-IsClean : (env : Env) (ps : List Bytes) → IsClean env (recv_ws (map received ps))
unfolding recv_ws
recv_ws-IsClean env [] = tt
recv_ws-IsClean env ([] ∷ ps) = recv_ws-IsClean env ps
recv_ws-IsClean env ((c ∷ p) ∷ ps) = (refl, recv_ws-IsClean env ps)

recv_ws-failed :
    (ps : List Bytes) (e : Bytes)
    → recv_ws (map received ps ++ failed e ∷ []) ≡ recv_ws (map received ps) ++ error_of e ∷ []
unfolding recv_ws
recv_ws-failed [] e = refl
recv_ws-failed ([] ∷ ps) e = recv_ws-failed ps e
recv_ws-failed ((c ∷ p) ∷ ps) e = rw (recv_ws-failed ps e)

handed-recv_ws : (ps : List Bytes) → All Sendable ps → handed (recv_ws (map received ps)) ≡ ps
unfolding recv_ws
handed-recv_ws [] h = refl
handed-recv_ws ([] ∷ ps) ((n, m, z), hs) = absurd (n refl)
handed-recv_ws ((c ∷ p) ∷ ps) (h, hs) = ap (◌∷◌ (c ∷ p)) (handed-recv_ws ps hs)

module _ (env : Env) where
  pub last_step :
      {A : Type 0} (body : A → Exec (World env) (Unit {0})) (x : A) (w : World env)
      → (for_each body (x ∷ []) w).1 ≡ (body x w).1
  unfolding for_each ◌>>=◌ pure
  last_step body x w = go (body x w).0 (body x w).1
    where
      go :
          (o : Outcome (Unit {0})) (v : World env)
          → (continue {S = World env} (λ _. pure tt) o v).1 ≡ v
      go (ret _) v = refl
      go panic v = refl

  -- A failed read ends in `CloseSession`.
  end_closes :
      (o : Outcome (Unit {0})) (v : World env)
      → (let last : Outcome (Unit {0}) × World env = elim o [
        | ret _ ↦ set_session_timeout env 0 v
        | panic ↦ (ret tt, v)
      ] in
          with_timeout 0 last.1 ≡ with_timeout 0 v)
  unfolding set_session_timeout update_session
  end_closes (ret _) v = refl
  end_closes panic v = refl

  error_closes :
      (e : Bytes) (w : World env)
      → with_timeout 0 (packet_handler env (error_of e) w).1
        ≡ with_timeout 0 (close_session env w).1
  unfolding packet_handler handle_result set_session_timeout update_session
  error_closes e w =
      let sec = timeout_of w.session.status.status packet_handler_timeout in
      end_closes (close_session env (with_timeout sec w)).0
        (close_session env (with_timeout sec w)).1
      ∙ ap (λ d. with_timeout 0 d.1) ((close_session-Blind env).at sec w)

  serve_closes :
      (rs : List ReadPacketResult) (e : Bytes) (w : World env)
      → IsClean env rs
      → (handle env (handed rs) w).0 ≡ ret tt
      → with_timeout 0 (for_each (packet_handler env) (rs ++ error_of e ∷ []) w).1
        ≡ with_timeout 0 (close_session env (handle env (handed rs) w).1).1
  serve_closes rs e w c h =
      let (sec, one) = handled_one_by_one env rs w c h in
      let v = (handle env (handed rs) w).1 in
      ap (λ d. with_timeout 0 d.1) (for_each-append env (packet_handler env) rs (error_of e ∷ []) w)
      ∙ rw one (
          ap (with_timeout 0) (last_step (packet_handler env) (error_of e) (with_timeout sec v))
          ∙ error_closes e (with_timeout sec v)
          ∙ ap (λ d. with_timeout 0 d.1) ((close_session-Blind env).at sec v))

  -- The life of a session over TCP up to the failure of a read: however its stream, with no zero
  -- byte, is cut into reads, the session, and all that it did to the rest of the node, is in the end
  -- as if its packets had been handled one by one and the session had then been closed, but for
  -- the read deadline. No chunk is to begin with the end flag of a packet that began in an earlier
  -- one, and nothing is to panic while the packets are handled.
  pub serve_tcp-frames :
      (conn : TcpSessionConn) (chunks : List Bytes) (e : Bytes) (w : World env)
      → AllAligned conn.part chunks
      → (for_each (handle_packet env) (frames conn.part (concat chunks)).0 w).0 ≡ ret tt
      → with_timeout 0 (serve_tcp env conn (map received chunks ++ failed e ∷ []) w).1
        ≡ with_timeout 0
            (close_session env
              (for_each (handle_packet env) (frames conn.part (concat chunks)).0 w).1).1
  unfolding serve_tcp
  serve_tcp-frames conn chunks e w a h =
      let packets : handed (recv_tcp conn (map received chunks)).0 ≡ _ =
        ap (λ p. p.0) (recv_tcp-frames conn chunks a) in
      rw (recv_tcp-failed conn chunks e, ← packets)
        (serve_closes (recv_tcp conn (map received chunks)).0 e w (recv_tcp-IsClean env conn chunks)
          (rw packets h))

  -- Over a websocket, where a message is a packet.
  serve_ws-packets :
      (packets : List Bytes) (e : Bytes) (w : World env)
      → All Sendable packets
      → (handle env packets w).0 ≡ ret tt
      → with_timeout 0 (serve_ws env (map received packets ++ failed e ∷ []) w).1
        ≡ with_timeout 0 (close_session env (handle env packets w).1).1
  unfolding serve_ws
  serve_ws-packets packets e w p h =
      let same = handed-recv_ws packets p in
      ap (λ rs. with_timeout 0 (for_each (packet_handler env) rs w).1) (recv_ws-failed packets e)
      ∙ serve_closes (recv_ws (map received packets)) e w (recv_ws-IsClean env packets) (rw same h)
      ∙ ap (λ ps. with_timeout 0 (close_session env (handle env ps w).1).1) same

  -- Over TCP or over a websocket: a client that sends the same packets, none of them empty and none
  -- with the end flag or a zero byte, up to the same failure, has the same session and the same
  -- effect on the node, but for the read deadline. Over TCP each packet ends with the end flag, and
  -- the network cuts the stream such that no read begins with the end flag of a packet that began
  -- in an earlier one; nothing is to panic while the packets are handled.
  pub tcp_session-ws_session :
      (sid nodeid channel e : Bytes) (packets chunks : List Bytes) (shared : Shared env)
      → All Sendable packets
      → concat chunks ≡ written packets
      → AllAligned [] chunks
      → (for_each
          (handle_packet env)
          packets
          (record { shared = shared; session = new_session sid nodeid channel })).0
        ≡ ret tt
      → with_timeout 0
          (tcp_session env sid nodeid channel (map received chunks ++ failed e ∷ []) shared)
        ≡ with_timeout 0
            (ws_session env sid nodeid channel (map received packets ++ failed e ∷ []) shared)
  unfolding tcp_session ws_session serve_ws
  tcp_session-ws_session sid nodeid channel e packets chunks shared p s a h =
      let start : World env = record {
        shared = shared;
        session = new_session sid nodeid channel;
      } in
      let framed : (frames [] (concat chunks)).0 ≡ packets =
        rw s (ap (λ r. r.0) (frames-written packets p)) in
      serve_tcp-frames new_tcp chunks e start a (rw framed h)
      ∙ ap (λ ps. with_timeout 0 (close_session env (handle env ps start).1).1) framed
      ∙ sym (serve_ws-packets packets e start p h)
