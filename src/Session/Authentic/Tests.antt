-- ===== src/Session/Authentic/Tests.antt =====
-- Ann writes to Bob.
use sara.Common.{none, [], ◌∷◌, codes}
use sara.Conn.{ReadPacketResult}
use sara.Session.Handler.{packet_handler}
use sara.Session.Tests.{env, logged_in}
use sara.Session.Authentic.{Adds, Own}
use sara.Session.Authentic.Handling.{packet_handler-Own}

abbrev one_read : ReadPacketResult
one_read = record { packets = codes "bob@x" ∷ codes "ann@x" ∷ []; error = none }

packet_handler-Own_example :
    Adds
      (Own (packet_handler env one_read logged_in).1.session)
      logged_in.shared.routed
      (packet_handler env one_read logged_in).1.shared.routed
packet_handler-Own_example = packet_handler-Own env one_read logged_in
