-- ===== src/Session/Services.antt =====
-- Sessions with the callback service of external/.
use sara.Common.{◌≡◌}
use sara.Conn.{ReadPacketResult}
use sara.Config.{Conf}
use sara.External.{Web, auth, get_group_user_list, offline_callback}
use sara.External.Answers.{Accepts, auth_iff}
use sara.Session.State.{Env, World, login}
use sara.Session.Handler.{packet_handler}
use sara.Session.Stays.{Out}
use sara.Session.Entry.{LetIn, packet_handler-LetIn}

abbrev pub with_services : Web → Conf → Env → Env
with_services web conf env = record env {
  auth = auth web conf;
  group_user_list = get_group_user_list web conf;
  offline_callback = offline_callback web conf;
}

module _ (web : Web) (conf : Conf) (env0 : Env) where
  abbrev env : Env
  env = with_services web conf env0

  -- A session is logged in by nothing but a login that the callback service grants. Whatever a client
  -- sends, and also if there is a panic on the way: where a session was not logged in before a call of
  -- the handler and is so afterwards, one of the texts that it received was a request for a login with
  -- an address that can be read, the address of the session is the request's, and for that address's
  -- user and the password of the request the check is switched off, or no service is named, or the
  -- service answered with a success.
  pub packet_handler-Accepts :
      (result : ReadPacketResult) (w : World env)
      → Out w.session
      → (packet_handler env result w).1.session.status.status ≡ login
      → (entry : LetIn env result.packets (packet_handler env result w).1.session) × Accepts web
          conf entry.2.request.granted.jid.user entry.2.packet.envelope.pwd
          entry.2.request.granted.call
  packet_handler-Accepts result w out e =
      let entry = packet_handler-LetIn env result w out e in
      (entry, (auth_iff web conf _ _ _).0 entry.2.request.granted.accepted)
