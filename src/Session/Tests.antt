-- ===== src/Session/Tests.antt =====
-- The theorems on sessions at a concrete server: the text of a packet is the address that it goes
-- to, the text of a session status its session id, and every service says yes.
use sara.Common.{
  ◌+◌, ◌≡◌, refl, true, false, List, [], ◌∷◌, ◌++◌, none, some, ◌>>=◌, Bytes, codes, arith, split,
  split-Lacks_other, bytes_eq, ok, err, ret,
}
use sara.Jid.{Jid, new_jid, fail_format}
use sara.Packet.{Packet, Envelope, Json, empty_envelope, with_envelope, new_packet}
use sara.Packet.MsgType
use sara.Database.{sara_database}
use sara.Database.Tests.{redis, empty_db}
use sara.Cache
use sara.Session.State.{
  Env, Shared, World, SessionStatus, conn, login, packet_handler_timeout, tick,
}
use sara.Session.Handler.{packet_handler}
use sara.Session.Group.{gen_group_packets}
use sara.Session.Progress.{Follows}
use sara.Session.Progress.Handling.{packet_handler-Follows}
use sara.Session.Delivery.{IsLoggedIn, packet_handler_drops}
use sara.Session.Members.{Makes, recipients, gen_group_packets-Makes}
use sara.Common.{◌≢◌, pure}
use sara.Session.State.{shared, read_session, update_session}
use sara.Session.Login.{open_session, verify, refuse}
use mathlib.Core.List.Permᴰ
use sara.Session.Actions.{
  answer, send_message, close_session, close_open_session, clean, set_status, shut_connection,
  pkg_buff_to_store, store_packets,
}
use sara.Session.Opened.{open_session-decides}

abbrev pub ann : Jid
ann = record { user = codes "ann"; domain = codes "x"; resource = [] }

abbrev pub bob : Jid
bob = record { user = codes "bob"; domain = codes "x"; resource = [] }

abbrev pub envelope_to : Bytes → Envelope
envelope_to to = record empty_envelope {
  id = codes "m1";
  from = codes "ann@x";
  to = to;
  gid = codes "g1";
  msg_type = MsgType.chat;
}

abbrev pub status_of : Bytes → SessionStatus
status_of sid = record {
  sid = sid;
  jid = codes "ann@x";
  status = login;
  nodeid = codes "n1";
  channel = codes "c1";
  ct = 0;
}

abbrev pub json : Json
json = record {
  marshal_packet = λ p. ok p.envelope.id;
  unmarshal_base = λ t. err (codes "invalid");
  get_envelope = λ t. some t;
  unmarshal_envelope = λ t. ok (envelope_to t);
}

abbrev pub env : Env
env = record {
  db = sara_database redis;
  json = json;
  marshal_status = λ s. ok s.sid;
  unmarshal_status = status_of;
  uuid = λ n. n ∷ [];
  timestamp10 = λ n. n;
  timestamp13 = λ n. n ∷ [];
  auth = λ u p n. ret true;
  group_user_list = λ g n. ret (ok (codes "ann" ∷ codes "bob" ∷ []));
  offline_callback = λ t n. ret true;
  range_order = λ n buff. buff;
  ranges = λ n buff. Permᴰ.refl buff;
}

-- Bob is registered, and the members of the group are kept.
abbrev pub shared_state : Shared env
shared_state = record {
  db = record empty_db {
    store = ((codes "session_bob@x", codes "s2") ∷ (codes "group_g1@x", codes "ann,bob") ∷ [], []);
  };
  ofl_cache = Cache.init;
  routed = [];
  cleaned = [];
  notified = [];
  calls = 0;
}

-- A session that has just been accepted, and one of Ann.
abbrev pub accepted : World env
accepted = record {
  shared = shared_state;
  session = record {
    status = record {
      sid = codes "s1";
      jid = [];
      status = conn;
      nodeid = codes "n1";
      channel = codes "c1";
      ct = 0;
    };
    pkg_buff = [];
    sent = [];
    closed = false;
    read_timeout = 8;
  };
}

abbrev pub logged_in : World env
logged_in = record accepted {
  session = record accepted.session { status = status_of (codes "s1") };
}

pub ann-read : new_jid (codes "ann@x") ≡ ok ann
unfolding new_jid split
ann-read = refl

bad-read : new_jid (codes "bob") ≡ err (fail_format ++ codes "bob")
unfolding new_jid split
bad-read = refl

pub logged_in-IsLoggedIn : IsLoggedIn env logged_in ann
logged_in-IsLoggedIn = record { status = refl; address = ann-read }

abbrev pub message : Bytes → Packet
message to = record (with_envelope (envelope_to to)) { raw = some to }

packet_handler-Follows_example :
    Follows accepted.session
      (packet_handler env
        (record { packets = codes "bob@x" ∷ []; error = none })
        accepted).1.session
packet_handler-Follows_example =
    packet_handler-Follows env (record { packets = codes "bob@x" ∷ []; error = none }) accepted

packet_handler_drops_example :
    packet_handler env
      (record { packets = codes "bob" ∷ codes "bob@x" ∷ []; error = none })
      logged_in
    ≡ (
      ret tt,
      record logged_in {
        shared = record logged_in.shared { calls = logged_in.shared.calls + 1 };
        session = record logged_in.session { read_timeout = packet_handler_timeout };
      },
    )
packet_handler_drops_example =
    packet_handler_drops env (codes "bob") (codes "bob@x" ∷ []) (message (codes "bob")) logged_in
      ann (fail_format ++ codes "bob") logged_in-IsLoggedIn
      (record {
        no_signal = unfold bytes_eq in refl;
        decoded = unfold new_packet in refl;
        chat = refl;
        no_ack = refl;
        address = bad-read;
      })

gen_group_packets-Makes_example :
    Makes env
      (message [])
      (recipients ann (split b',' (codes "ann,bob")))
      (gen_group_packets env (codes "ann,bob") (message []) shared_state)
gen_group_packets-Makes_example =
    gen_group_packets-Makes env (codes "ann,bob") (message []) shared_state ann ann-read
      (split-Lacks_other b',' b'@' (codes "ann,bob") (ground arith))

abbrev for_bob : List Packet
for_bob =
    record {
      base = record {
        envelope = record empty_envelope {
          id = 0 ∷ [];
          msg_type = MsgType.group_chat;
          from = codes "ann@x";
          to = codes "bob@x";
          gid = codes "g1";
          ct = 1 ∷ [];
        };
        payload = none;
        entity = none;
        vsn = [];
      };
      delay = none;
      raw = none;
    }
    ∷ []

-- A first request that does not open a session.
open_session-decides_example :
    (open_session env (codes "bob@x") accepted).1.session.status.status ≢ conn
open_session-decides_example = open_session-decides env (codes "bob@x") accepted (
    unfold open_session verify new_packet refuse answer send_message update_session close_session
      read_session close_open_session clean shared ◌>>=◌ set_status shut_connection
      pkg_buff_to_store store_packets tick pure in
    refl)
