-- ===== src/Packet.antt =====
-- core/types/packet.go and core/types/defines.go: the packets of the protocol.
-- A payload, an `interface{}` in the source, is the text of its JSON value, and absent where the
-- source has `nil`. The JSON libraries are the record `Json`: what `encoding/json` writes for and
-- reads into the server's types, and what `gjson.Get(text, "envelope")` finds.
pub mod MsgType
use sara.Common.{
  ℕ, ◌≡◌, ◌≢◌, Bool, true, false, List, [], ◌∷◌, ◌++◌, Option, none, some, if◌then◌else◌, length,
  Bytes, codes, is_empty, Result, ok, err,
}

abbrev pub end_flag : ℕ
end_flag = 1

abbrev pub heart_beat : ℕ
heart_beat = 2

abbrev pub kill : ℕ
kill = 3

abbrev pub fail_type : Bytes
fail_type = codes "fail_type"

abbrev pub fail_token : Bytes
fail_token = codes "fail_token"

abbrev pub fail_packet : Bytes
fail_packet = codes "fail_packet"

pub record Envelope : Type 0 where
  pub id : Bytes
  pub jid : Bytes
  pub from : Bytes
  pub to : Bytes
  pub msg_type : ℕ
  pub ack : ℕ
  pub ct : Bytes
  pub pwd : Bytes
  pub gid : Bytes

pub record Entity : Type 0 where
  pub result : Bytes
  pub reason : Bytes

pub record BasePacket : Type 0 where
  pub envelope : Envelope
  pub payload : Option Bytes
  pub entity : Option Entity
  pub vsn : Bytes

pub record Delay : Type 0 where
  pub total : ℕ
  pub packets : List BasePacket

pub record Packet : Type 0 where
  pub base : BasePacket
  pub open base use *
  pub delay : Option Delay
  pub raw : Option Bytes

-- The zero values of Go.
abbrev pub empty_envelope : Envelope
empty_envelope = record {
  id = [];
  jid = [];
  from = [];
  to = [];
  msg_type = 0;
  ack = 0;
  ct = [];
  pwd = [];
  gid = [];
}

abbrev pub empty_base : BasePacket
empty_base = record { envelope = empty_envelope; payload = none; entity = none; vsn = [] }

abbrev pub with_envelope : Envelope → Packet
with_envelope e = record { base = record empty_base { envelope = e }; delay = none; raw = none }

pub record Json : Type 0 where
  pub marshal_packet : Packet → Result Bytes
  pub unmarshal_base : Bytes → Result BasePacket
  pub get_envelope : Bytes → Option Bytes
  pub unmarshal_envelope : Bytes → Result Envelope

unfoldable pub add_delay : List BasePacket → Packet → Packet
add_delay [] p = record p { delay = some (record { total = 0; packets = [] }) }
add_delay (b ∷ bs) p = record p {
  delay = some (record { total = length (b ∷ bs); packets = b ∷ bs });
}

module _ (json : Json) where
  -- The bytes that were received, if there are any; a nil slice where the encoder fails.
  unfoldable pub to_json : Packet → Bytes
  to_json p = elim p.raw [
    | some raw ↦ raw
    | none ↦ elim (json.marshal_packet p) [ ok text ↦ text | err e ↦ [] ]
  ]

  unfoldable pub new_base_packet : Bytes → Result BasePacket
  new_base_packet text = json.unmarshal_base text

  -- Only the envelope is decoded; the rest of the packet is kept as the bytes received.
  unfoldable pub new_packet : Bytes → Result Packet
  new_packet text = elim (json.get_envelope text) [
    | none ↦ err (codes "error_packet")
    | some envelope_raw ↦ elim (json.unmarshal_envelope envelope_raw) [
      | ok envelope ↦ ok (record (with_envelope envelope) { raw = some text })
      | err e ↦ err e
    ]
  ]

unfoldable pub new_packet_with_entity : Bytes → Bytes → Bytes → ℕ → Packet
new_packet_with_entity id result reason msg_type = record {
  base = record empty_base {
    envelope = record empty_envelope { id = id; msg_type = msg_type };
    entity = some (record { result = result; reason = reason });
  };
  delay = none;
  raw = none;
}

unfoldable pub new_packet_sys_notify : Bytes → Bytes → Packet
unfolding new_packet_with_entity
new_packet_sys_notify id msg = new_packet_with_entity id (codes "sys_notify") msg MsgType.system

unfoldable pub new_packet_auth_fail : Bytes → Bytes → Packet
unfolding new_packet_with_entity
new_packet_auth_fail id msg = new_packet_with_entity id (codes "error") msg MsgType.open_session

unfoldable pub new_packet_auth_success : Bytes → Packet
unfolding new_packet_with_entity
new_packet_auth_success id = new_packet_with_entity id (codes "ok") [] MsgType.open_session

-- `ct` is the time of the call, in milliseconds, printed.
unfoldable pub new_packet_ack : Bytes → Bytes → Packet
new_packet_ack id ct =
    with_envelope (record empty_envelope { id = id; msg_type = MsgType.state; ct = ct })

unfoldable pub envelope_id_from_to_type : Packet → Bytes × Bytes × Bytes × ℕ
envelope_id_from_to_type packet =
    (packet.envelope.id, packet.envelope.from, packet.envelope.to, packet.envelope.msg_type)
