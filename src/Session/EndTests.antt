-- ===== src/Session/EndTests.antt =====
-- The theorems on offline messages and on the end of a session, at the server of the tests on sessions.
use sara.Common.{
  ◌≡◌, refl, true, [], ◌∷◌, Bytes, codes, split, lookup, bytes_eq, has_prefix, ok, err, ret,
}
use sara.Jid.{new_jid, to_sessionid, to_offline_key}
use sara.Packet.{Packet, BasePacket, empty_base, new_base_packet}
use sara.Database.{SaraDatabase, idx_suffix, is4s, get}
use sara.Database
use sara.Database.Worker.{sessions, run}
use sara.Database.Shutdown.{live, receives}
use sara.Database.Tests.{redis, redis_answers, empty_db}
use sara.Session.State.{Env, World, SessionStatus, close, shared}
use sara.Session.Actions.{close_session, kill_session}
use sara.Session.Handler.{server_ack}
use sara.Session.Login.{decode_offline, with_offline, store_session_status, status_text}
use sara.Session.Offline.{carried, Decodes, nothing, decoded, deletions, offline_acknowledged}
use sara.Session.Unacknowledged.{
  with_database, queued, AllStorable, ended, logout_writes, close_session-stores,
}
use sara.Common.{none, for_each, ◌>>=◌, pure, modify}
use sara.Jid.{string_without_resource}
use sara.Packet.{new_packet}
use sara.Session.State.{read_session, update_session, on_db, service, tick, deref}
use sara.Session.Actions.{answer, send_message}
use sara.Session.Handler.{handle_result, handle_packet, set_session_timeout, timeout_of}
use sara.Session.Login.{
  open_session, verify, verify_jid, verify_auth, kick, log_in, fetch_offline_packet,
}
use sara.Packet.MsgType
use sara.Conn.{ReadPacketResult}
use sara.Session.State.{login}
use sara.Session.Handler.{packet_handler}
use sara.Config.{get_bool, get_string}
use sara.External.{auth, ask_auth, new_params, given_params, params_map}
use sara.Http.{post_request, form}
use sara.External.Answers.{Accepts}
use sara.External.Tests.{web, conf}
use sara.Session.Services.{with_services, packet_handler-Accepts}
use sara.Session.Entry.{LetIn}
use sara.Session.Tests.{accepted}
use sara.Session.Relogin.{repeat_login_lost}
use sara.Session.Tests.{env, shared_state, logged_in, message, ann, bob, status_of, envelope_to}

-- A message is kept for Ann.
abbrev away : World env
away = record logged_in {
  shared = record shared_state {
    db = record empty_db {
      store = ([], (codes "offline_ann@x_idx", (codes "m1", codes "hi") ∷ []) ∷ []);
    };
  };
}

-- A text that is kept is a message with the id `m1`.
abbrev keeping : Env
keeping = record env {
  json = record env.json {
    unmarshal_base = λ t. ok (record empty_base { envelope = envelope_to t });
  };
}

abbrev away_keeping : World keeping
away_keeping = record {
  shared = record {
    db = away.shared.db;
    ofl_cache = away.shared.ofl_cache;
    routed = [];
    cleaned = [];
    notified = [];
    calls = 0;
  };
  session = away.session;
}

abbrev kept_message : BasePacket
kept_message = record empty_base { envelope = envelope_to (codes "hi") }

hi-Decodes : Decodes keeping.json (codes "hi" ∷ []) (kept_message ∷ [])
unfolding new_base_packet
hi-Decodes = decoded refl nothing

offline_acknowledged_example :
    let answered =
      with_offline (with_database redis keeping) (codes "m1") (codes "ann@x") away_keeping.shared in
    let after : World (with_database redis keeping) = record away_keeping { shared = answered.1 } in
    (p : Packet) × (answered.0 ≡ ret p)
    × (p.envelope.id ≡ codes "m1")
    × (carried p ≡ kept_message ∷ [])
    × (server_ack (with_database redis keeping) (message (codes "bob@x")) after ≡ (
      ret tt,
      record after {
        shared =
            queued redis keeping
              (deletions redis keeping (to_offline_key ann) (codes "m1" ∷ []))
              after.shared;
      },
    ))
offline_acknowledged_example =
    offline_acknowledged redis keeping (message (codes "bob@x")) away_keeping ann (codes "hi" ∷ [])
      away.shared.db kept_message [] (unfold new_jid split in refl)
      (unfold Database.get_by_idx lookup bytes_eq to_offline_key in refl) hi-Decodes
      (unfold is4s has_prefix in refl, tt) refl

-- A packet waits for Ann's acknowledgement.
abbrev waiting : World env
waiting = record logged_in {
  session = record logged_in.session { pkg_buff = (codes "m1", message (codes "bob@x")) ∷ [] };
}

waiting-AllStorable : AllStorable redis env waiting.session.pkg_buff
waiting-AllStorable = (
  record {
    jid = bob;
    address = unfold new_jid split in refl;
    message = unfold is4s has_prefix in refl;
  },
  tt,
)

close_session-stores_example : close_session (with_database redis env) waiting ≡ (
  ret tt,
  record waiting {
    shared = ended redis env waiting ann;
    session = record waiting.session {
      status = record waiting.session.status { status = close };
      closed = true;
    };
  },
)
close_session-stores_example =
    close_session-stores redis env waiting ann refl (unfold new_jid split in refl)
      waiting-AllStorable refl

-- Ann's next session.
abbrev again : SessionStatus
again = record (status_of (codes "s9")) { nodeid = codes "n2" }

repeat_login_lost_example :
    let login_again = shared env (store_session_status env again) waiting in
    let killed = kill_session env login_again.1 in
    let worked =
      run redis sessions
        (receives redis (logout_writes redis env (codes "n1") ann))
        (live 20)
        killed.1.shared.db in
    (login_again.0 ≡ ret tt)
    × (killed.0 ≡ ret tt)
    × ((get redis (to_sessionid ann) login_again.1.shared.db).0 ≡ ret (ok (status_text env again)))
    × ((m : Bytes) × ((get redis (to_sessionid ann) worked.1).0 ≡ ret (err m)))
repeat_login_lost_example =
    repeat_login_lost redis env redis_answers waiting ann ann again 20 refl
      (unfold new_jid split in refl) (unfold new_jid split in refl) refl waiting-AllStorable refl
      refl (unfold lookup bytes_eq in refl)

-- Every text asks for a login under the address that it is; the callback service says yes.
abbrev asking : Env
asking = record env {
  json = record env.json {
    unmarshal_envelope =
        λ t. ok (record (envelope_to t) { jid = t; msg_type = MsgType.open_session });
  };
}

abbrev opening : Env
opening = with_services web conf asking

abbrev new_client : World opening
new_client = record {
  shared = record {
    db = accepted.shared.db;
    ofl_cache = accepted.shared.ofl_cache;
    routed = [];
    cleaned = [];
    notified = [];
    calls = 0;
  };
  session = accepted.session;
}

abbrev first_read : ReadPacketResult
first_read = record { packets = codes "ann@x" ∷ []; error = none }

first_read-login : (packet_handler opening first_read new_client).1.session.status.status ≡ login
unfolding auth ask_auth get_bool get_string new_params given_params params_map post_request form
    packet_handler handle_result for_each ◌>>=◌ pure modify handle_packet read_session
    set_session_timeout timeout_of update_session open_session verify new_packet verify_jid new_jid
    split verify_auth shared kick on_db service Database.get lookup bytes_eq to_sessionid
    string_without_resource log_in tick with_offline fetch_offline_packet deref Database.get_by_idx
    to_offline_key decode_offline store_session_status Database.put_ex_with_idx is4s has_prefix
    answer send_message
first_read-login = refl

packet_handler-Accepts_example :
    (entry : LetIn opening first_read.packets
      (packet_handler opening first_read new_client).1.session)
    × Accepts web conf entry.2.request.granted.jid.user entry.2.packet.envelope.pwd
        entry.2.request.granted.call
packet_handler-Accepts_example =
    packet_handler-Accepts web conf asking first_read new_client (λ e. cc) first_read-login
