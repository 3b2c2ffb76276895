-- ===== src/Node/Workers/Tests.antt =====
-- Two packets for Bob.
use sara.Common.{◌≡◌, refl, [], ◌∷◌, ◌++◌, some, Bytes, codes, split}
use sara.Jid.{new_jid}
use sara.Packet.{Packet, end_flag, to_json}
use sara.Session.State.{Session, RouterItem}
use sara.Session.Tests.{env, shared_state, message, bob}
use sara.Node.{Node, fetch_session}
use sara.Node.Tests.{publish, bobs, chatting, bob_on_node}
use sara.Node.Workers.{Workers, Reach, IsFor, overtaken}

abbrev packet : Bytes → Packet
packet text = record (message (codes "bob@x")) { raw = some text }

abbrev item : Bytes → RouterItem
item text = record {
  channel = codes "c1";
  sid = codes "s2";
  packet = some (packet text);
  signal = 0;
}

item-IsFor : (text : Bytes) → IsFor env (codes "c1") publish (item text) (packet text) text bob bob
unfolding to_json
item-IsFor text = record {
  here = refl;
  plain = refl;
  carries = refl;
  recipient = unfold new_jid split in refl;
  his = refl;
  raw = refl;
}

abbrev queued : Node env (codes "c1") publish
queued = record chatting {
  shared = record shared_state { routed = item (codes "one") ∷ item (codes "two") ∷ [] };
}

overtaken_example :
    (u : Workers env (codes "c1") publish) × Reach env
      (codes "c1")
      publish
      (record { node = queued; held = [] })
      u
    × (t : Session) × (fetch_session (codes "s2") u.node.sessions ≡ some t)
    × (t.sent
        ≡ (bobs.sent ++ (codes "two" ++ end_flag ∷ []) ∷ []) ++ (codes "one" ++ end_flag ∷ []) ∷ [])
overtaken_example =
    overtaken env (codes "c1") publish (item (codes "one")) (item (codes "two"))
      (packet (codes "one")) (packet (codes "two")) (codes "one") (codes "two") bob bob bob queued
      bobs refl refl bob_on_node.registered
      (record { status = bob_on_node.login.status; address = bob_on_node.login.address }) refl
      (item-IsFor (codes "one")) (item-IsFor (codes "two"))
