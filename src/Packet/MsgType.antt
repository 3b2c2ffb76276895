-- ===== src/Packet/MsgType.antt =====
-- core/types/defines.go: the values of an envelope's type.
use sara.Common.{ℕ}

abbrev pub open_session : ℕ
open_session = 0

abbrev pub chat : ℕ
chat = 1

abbrev pub group_chat : ℕ
group_chat = 2

abbrev pub state : ℕ
state = 3

abbrev pub system : ℕ
system = 4
