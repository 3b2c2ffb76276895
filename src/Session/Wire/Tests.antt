-- ===== src/Session/Wire/Tests.antt =====
-- A client whose first request opens no session, cut in the middle.
use sara.Common.{
  ◌≡◌, refl, List, [], ◌∷◌, ◌++◌, map, codes, Bytes, arith, inl, inr, pure, for_each, ◌>>=◌,
}
use sara.Packet.{end_flag, new_packet}
use sara.Decoder.Pieces.{frames}
use sara.Decoder.Stream.{concat, AllAligned}
use sara.Conn.{received, failed, new_tcp, write_tcp}
use sara.Session.State.{shared, read_session, update_session, tick}
use sara.Session.Actions.{
  answer, send_message, close_session, close_open_session, clean, set_status, shut_connection,
  pkg_buff_to_store, store_packets,
}
use sara.Session.Login.{open_session, verify, refuse}
use sara.Session.Handler.{handle_packet, new_session}
use sara.Session.Blind.{with_timeout}
use sara.Session.Tests.{env, accepted, shared_state}
use sara.Session.Wire.{serve_tcp, tcp_session, ws_session}
use sara.Session.Wire.Cuts.{serve_tcp-frames, tcp_session-ws_session}

abbrev chunks : List Bytes
chunks = codes "bob" ∷ (codes "@x" ++ end_flag ∷ []) ∷ []

chunks-AllAligned : AllAligned [] chunks
unfolding frames
chunks-AllAligned = (ground arith, inl refl, (ground arith, inr (omega arith), tt))

serve_tcp-frames_example :
    with_timeout 0
      (serve_tcp env new_tcp (map received chunks ++ failed (codes "EOF") ∷ []) accepted).1
    ≡ with_timeout 0
        (close_session env
          (for_each (handle_packet env) (frames [] (concat chunks)).0 accepted).1).1
serve_tcp-frames_example =
    serve_tcp-frames env new_tcp chunks (codes "EOF") accepted chunks-AllAligned (
      unfold frames for_each handle_packet open_session verify new_packet refuse answer send_message
        update_session close_session read_session close_open_session clean shared ◌>>=◌ set_status
        shut_connection pkg_buff_to_store store_packets tick pure in
      refl)

tcp_session-ws_session_example :
    with_timeout 0 (
      tcp_session env
        (codes "s1")
        (codes "n1")
        (codes "c1")
        (map received chunks ++ failed (codes "EOF") ∷ [])
        shared_state)
    ≡ with_timeout 0 (
        ws_session env
          (codes "s1")
          (codes "n1")
          (codes "c1")
          (map received (codes "bob@x" ∷ []) ++ failed (codes "EOF") ∷ [])
          shared_state)
tcp_session-ws_session_example =
    tcp_session-ws_session env (codes "s1") (codes "n1") (codes "c1") (codes "EOF")
      (codes "bob@x" ∷ []) chunks shared_state ((cc, ground arith, ground arith), tt)
      (unfold write_tcp in refl) chunks-AllAligned
      (unfold new_session for_each handle_packet open_session verify new_packet refuse answer
          send_message update_session close_session read_session close_open_session clean shared
          ◌>>=◌ set_status shut_connection pkg_buff_to_store store_packets tick pure in
        refl)
