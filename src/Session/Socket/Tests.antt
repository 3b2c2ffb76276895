-- ===== src/Session/Socket/Tests.antt =====
-- A client whose first request is refused, and that goes on to send.
use sara.Common.{refl, false, true, Bool, List, [], ◌∷◌, ◌++◌, map, none, Bytes, codes, arith}
use sara.Packet.{end_flag}
use sara.Conn.{Read, received, failed, new_tcp}
use sara.Conn.Socket.{Net, Connected, wrote, read_loop}
use sara.Session.State.{World}
use sara.Session.Wire.{serve_tcp}
use sara.Session.Tests.{env, accepted}
use sara.Session.Socket.{handler_on, live_chunks, Delivers, FailsClosed}
use sara.Session.Socket.Rounds.{Leaves}
use sara.Session.Socket.Ends.{read_loop-live_chunks}

-- A socket is the list of what is still to come, with whether it was closed.
abbrev script_read : List Bytes × Bool → Read × (List Bytes × Bool)
script_read ([], shut) = (failed (codes "EOF"), ([], shut))
script_read (c ∷ cs, true) = (failed (codes "closed"), (c ∷ cs, true))
script_read (c ∷ cs, false) = (received c, (cs, false))

abbrev script : Net
script = record {
  Socket = List Bytes × Bool;
  read = λ n s. script_read s;
  write_to = λ packet s. (wrote 1 none, s);
  close = λ s. (s.0, true);
  set_deadline = λ sec s. s;
}

script-FailsClosed : FailsClosed script env
script-FailsClosed n ([], shut) = (codes "EOF", ([], true), refl)
script-FailsClosed n (c ∷ cs, shut) = (codes "closed", (c ∷ cs, true), refl)

abbrev sends : List Bytes
sends = codes "bob" ∷ (codes "@x" ++ end_flag ∷ []) ∷ (codes "late" ++ end_flag ∷ []) ∷ []

abbrev begun : Connected script (World env)
begun = record { socket = (sends, false); part = []; reads = 0; writes = 0; world = accepted }

sends-Delivers : Delivers script env 1024 sends (sends, false)
sends-Delivers = (_, refl, (_, refl, (_, refl, (codes "EOF", _, refl))))

read_loop-live_chunks_example :
    let live = map received (live_chunks script env new_tcp sends accepted) in
    Leaves script env
      (read_loop script (World env) (handler_on script env) 4 1024 begun)
      (serve_tcp env new_tcp (live ++ failed (codes "EOF") ∷ []) accepted).1
read_loop-live_chunks_example =
    read_loop-live_chunks script env 4 1024 sends begun (codes "EOF") script-FailsClosed
      sends-Delivers refl (omega arith)
