-- ===== src/Node/Tests.antt =====
-- The theorems on the node, at the server of the tests on sessions.
use sara.Common.{
  ℕ, ◌≡◌, refl, [], ◌∷◌, none, some, Bytes, codes, bytes_eq, lookup, split, Result, ok, ret,
}
use sara.Jid.{new_jid, to_sessionid}
use sara.Packet.{kill, new_packet}
use sara.Database
use sara.Session.State.{Session, RouterItem}
use sara.Session.Tests.{env, shared_state, accepted, logged_in, message, bob}
use sara.Node.{SessionMap, Node, fetch_session, router_worker}
use sara.Common.{◌≢◌, true, false, bytes_eq_iff, ◌>>=◌}
use sara.Session.State.{read_session, shared, update_session}
use sara.Jid.{string_without_resource}
use sara.Session.State.{close}
use sara.Session.Handler.{handle_packet, stamp}
use sara.Session.Actions.{
  close_session, close_open_session, clean, set_status, shut_connection, pkg_buff_to_store,
  store_packets,
}
use sara.Session.Forwarding.{IsChat, now}
use sara.Session.Tests.{ann, status_of}
use sara.Node.{on_session}
use sara.Node.Chat.{IsClient, received, chat_delivered}
use sara.Node.Stop.{stop_sessions, close_sessions}

abbrev sessions : SessionMap
sessions = (codes "s1", logged_in.session) ∷ []

abbrev pub publish : Bytes → Bytes → ℕ → Result (Unit {0})
publish channel text call = ok tt

-- The signal to kill a session, here or on another node.
abbrev kill_item : Bytes → RouterItem
kill_item channel = record { channel = channel; sid = codes "s1"; packet = none; signal = kill }

abbrev queued : RouterItem → Node env (codes "c1") publish
queued item = record { shared = record shared_state { routed = item ∷ [] }; sessions = sessions }

-- The sessions of Ann and Bob.
abbrev pub bobs : Session
bobs = record logged_in.session { status = record (status_of (codes "s2")) { jid = codes "bob@x" } }

abbrev pub chatting : Node env (codes "c1") publish
chatting = record {
  shared = shared_state;
  sessions = (codes "s1", logged_in.session) ∷ (codes "s2", bobs) ∷ [];
}

ann_on_node : IsClient env (codes "c1") publish chatting (codes "s1") logged_in.session ann
ann_on_node = record {
  registered = unfold fetch_session lookup bytes_eq in refl;
  login = record { status = refl; address = unfold new_jid split in refl };
}

pub bob_on_node : IsClient env (codes "c1") publish chatting (codes "s2") bobs bob
bob_on_node = record {
  registered = unfold fetch_session lookup bytes_eq in refl;
  login = record { status = refl; address = unfold new_jid split in refl };
}

to_bob : IsChat env (codes "bob@x") (message (codes "bob@x")) ann bob
to_bob = record {
  no_signal = unfold bytes_eq in refl;
  decoded = unfold new_packet in refl;
  chat = refl;
  no_ack = refl;
  sender = unfold new_jid split in refl;
  recipient = unfold new_jid split in refl;
}

ann≢bob : string_without_resource bob ≢ string_without_resource ann
unfolding string_without_resource bytes_eq
ann≢bob e =
    let same : false ≡ true =
      (bytes_eq_iff (string_without_resource bob) (string_without_resource ann)).1 e in
    absurd (cc)

chat_delivered_example :
    let sent =
      on_session env
        (codes "c1")
        publish
        (codes "s1")
        logged_in.session
        (handle_packet env (codes "bob@x"))
        chatting in
    let delivered = router_worker env (codes "c1") publish sent.1 in
    (sent.0 ≡ ret tt)
    × (delivered.0 ≡ ret tt)
    × (fetch_session (codes "s2") delivered.1.sessions
        ≡ some (
            received env
              (codes "c1")
              publish
              (stamp (now env shared_state) (message (codes "bob@x")))
              (codes "bob@x")
              bobs))
chat_delivered_example =
    chat_delivered env (codes "c1") publish (codes "bob@x") (message (codes "bob@x")) chatting
      (codes "s1") (codes "s2") logged_in.session bobs ann bob ann bob (codes "s2") shared_state.db
      ann_on_node bob_on_node (unfold bytes_eq in refl) refl to_bob refl refl ann≢bob
      (unfold Database.get to_sessionid lookup bytes_eq in refl) refl refl refl

-- Only Bob is connected, and he has not logged in.
abbrev stopping : Node env (codes "c1") publish
stopping = record { shared = shared_state; sessions = (codes "s2", accepted.session) ∷ [] }

abbrev stopped : Session
stopped = record accepted.session {
  status = record accepted.session.status { status = close };
  closed = true;
}

stopping-returns : (stop_sessions env (codes "c1") publish stopping).0 ≡ ret tt
unfolding stop_sessions close_sessions ◌>>=◌ on_session close_session read_session
    close_open_session shared clean set_status update_session shut_connection pkg_buff_to_store
    store_packets
stopping-returns = refl
