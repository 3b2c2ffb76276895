-- ===== src/Session/Kept/Tests.antt =====
-- The theorem on packets that are not acknowledged, at the server of the tests on sessions.
use sara.Common.{
  Bool-cases, inl, inr, ◌==◌, ◌≡◌, refl, false, List, [], ◌∷◌, ◌++◌, none, bytes_eq, insert, codes,
  split, has_prefix, for_each, pure, ◌>>=◌, ok,
}
use sara.Jid.{new_jid, string_without_resource}
use sara.Packet.{Packet, new_packet, heart_beat}
use sara.Redis.{Command}
use sara.Database.{is4s}
use sara.Database.Writes.{commands}
use sara.Database.Tests.{redis}
use sara.Session.State.{World, login, deref, read_session, update_session}
use sara.Session.Actions.{
  close_session, route_packet, route_logged_in, equal_without_resource, pkg_buff_add, send_message,
}
use sara.Session.Handler.{
  packet_handler, handle_result, handle_packet, heartbeat, set_session_timeout, timeout_of,
}
use sara.Session.Unacknowledged.{AllStorable}
use sara.Session.Kept.Store.{
  Call, received, others, after_call, after_calls, IsUnique, delivered, Writes, delivered-Writes,
}
use sara.Session.Tests.{env, ann, logged_in, message, ann-read, logged_in-IsLoggedIn}

-- The client sends a heartbeat, and another session changes the shared state.
abbrev calls : List (Call env)
calls =
    received (record { packets = (heart_beat ∷ []) ∷ []; error = none })
    ∷ others (λ s. record s { cleaned = [] })
    ∷ []

abbrev to_ann : Packet
to_ann = message (codes "ann@x")

abbrev then_state : World env
then_state = delivered redis env to_ann calls logged_in

reached :
    (then_state.session.status.status ≡ login)
    × (new_jid then_state.session.status.jid ≡ ok ann)
    × (then_state.shared.db.wb_closed ≡ false)
    × (then_state.session.pkg_buff ≡ (codes "m1", to_ann) ∷ [])
unfolding after_calls after_call packet_handler handle_result for_each ◌>>=◌ pure handle_packet
    read_session set_session_timeout timeout_of update_session heartbeat send_message bytes_eq
    route_packet route_logged_in deref new_jid split equal_without_resource pkg_buff_add insert
    string_without_resource
reached = (refl, refl, refl, refl)

reached_storable : AllStorable redis env then_state.session.pkg_buff
reached_storable =
    rw reached.3
      (record { jid = ann; address = ann-read; message = unfold is4s has_prefix in refl }, tt)

-- The random ids of these tests are a byte long.
to_ann-IsUnique : IsUnique env to_ann
unfolding bytes_eq
to_ann-IsUnique n = elim (Bool-cases (n == 109)) [ inl e ↦ rw e refl | inr e ↦ rw e refl ]

delivered-Writes_example :
    (cs : List Command) × Writes redis env to_ann cs
    × ((close_session env (delivered redis env to_ann calls logged_in)).1.shared.db.wb_ch
        ≡ then_state.shared.db.wb_ch ++ commands redis cs)
delivered-Writes_example =
    delivered-Writes redis env to_ann logged_in ann ann ann calls logged_in-IsLoggedIn refl ann-read
      refl to_ann-IsUnique ((unfold new_packet bytes_eq in refl, tt), tt) reached.0 reached.1
      reached_storable reached.2
