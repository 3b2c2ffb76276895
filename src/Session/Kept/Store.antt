-- ===== src/Session/Kept/Store.antt =====
-- What becomes of a packet that was written to a client: it is acknowledged, or stored at the end of
-- the session. A session's life is the sequence of the calls that its connection and its node make,
-- and of what the other sessions do to the state they share.
use sara.Common.{
  ℕ, ◌≡◌, ap, false, List, [], ◌∷◌, ◌++◌, some, Bytes, bytes_eq, lookup, lookup_inserted, pos, ok,
  Bool-cases, inl, inr, arith,
}
use sara.Jid.{Jid, new_jid, string_without_resource}
use sara.Packet.{Packet, to_json}
use sara.Redis.{Redis, Command, hset}
use sara.Database.{idx_suffix, write}
use sara.Database.Writes.{commands}
use sara.Conn.{ReadPacketResult}
use sara.Session.State.{Env, World, Shared, login, offline_expired}
use sara.Session.Actions.{route_packet, kill_session, close_session}
use sara.Session.Handler.{packet_handler}
use sara.Session.Delivery.{IsLoggedIn, route_packet_incoming}
use sara.Session.Kept.{Waits, IsOther}
use sara.Session.Kept.Methods.{route_packet-Keeps, kill_session-Keeps}
use sara.Session.Kept.Handling.{NoneHasId, packet_handler-Keeps}
use sara.Session.Ranges.{Holds, Holds-Perm}
use sara.Session.Unacknowledged.{
  with_database, offline_key_of, AllStorable, store_writes, ranged, close_session-stores,
}

-- A call of the connection's loop, a packet and a kill from the node, and a change by others.
pub data Call (env : Env) : Type 0 where
  received : ReadPacketResult → Call env
  routed_here : Packet → Call env
  killed : Call env
  others : (Shared env → Shared env) → Call env

module _ (env : Env) where
  -- What it leaves behind, also where it panics.
  unfoldable pub after_call : Call env → World env → World env
  after_call (received r) w = (packet_handler env r w).1
  after_call (routed_here p) w = (route_packet env p w).1
  after_call killed w = (kill_session env w).1
  after_call (others f) w = record w { shared = f w.shared }

  unfoldable pub after_calls : List (Call env) → World env → World env
  after_calls [] w = w
  after_calls (c ∷ cs) w = after_calls cs (after_call c w)

  -- No call brings a packet with the id of this one.
  abbrev pub NotSentAgain : Packet → List (Call env) → Type 0
  NotSentAgain kept [] = Unit {0}
  NotSentAgain kept (received r ∷ cs) = NoneHasId kept env r.packets × NotSentAgain kept cs
  NotSentAgain kept (routed_here p ∷ cs) = IsOther kept p × NotSentAgain kept cs
  NotSentAgain kept (killed ∷ cs) = NotSentAgain kept cs
  NotSentAgain kept (others f ∷ cs) = NotSentAgain kept cs

  -- No random id is the id of this one.
  abbrev pub IsUnique : Packet → Type 0
  IsUnique kept = (n : ℕ) → bytes_eq (env.uuid n) kept.envelope.id ≡ false

  after_calls-Waits :
      (kept : Packet) (calls : List (Call env)) (w : World env)
      → IsUnique kept
      → NotSentAgain kept calls
      → Waits kept w.session.pkg_buff
      → Waits kept (after_calls calls w).session.pkg_buff
  unfolding after_calls after_call
  after_calls-Waits kept [] w u n h = h
  after_calls-Waits kept (received r ∷ cs) w u (n, ns) h =
      after_calls-Waits kept cs _ u ns ((packet_handler-Keeps kept env u r n).at w h)
  after_calls-Waits kept (routed_here p ∷ cs) w u (n, ns) h =
      after_calls-Waits kept cs _ u ns ((route_packet-Keeps kept env p n).at w h)
  after_calls-Waits kept (killed ∷ cs) w u n h =
      after_calls-Waits kept cs _ u n ((kill_session-Keeps kept env).at w h)
  after_calls-Waits kept (others f ∷ cs) w u n h = after_calls-Waits kept cs _ u n h

  -- A packet that is handed to its client waits in the buffer as it is, whatever the session is called
  -- with, if its id does not come again.
  pub delivered-Waits :
      (packet : Packet) (w : World env) (j to : Jid) (calls : List (Call env))
      → IsLoggedIn env w j
      → w.session.closed ≡ false
      → new_jid packet.envelope.to ≡ ok to
      → string_without_resource to ≡ string_without_resource j
      → IsUnique packet
      → NotSentAgain packet calls
      → Waits packet (after_calls calls (route_packet env packet w).1).session.pkg_buff
  delivered-Waits packet w j to calls l open_conn readable same u n =
      after_calls-Waits packet calls _ u n (
        rw (route_packet_incoming env packet w j to l open_conn readable same)
          (lookup_inserted packet.envelope.id packet w.session.pkg_buff))

module _ (r : Redis) (env0 : Env) where
  -- The two writes that store a packet, in front of others.
  abbrev pub stored_first : Packet → List Command → List Command
  stored_first p rest =
      hset (offline_key_of p ++ idx_suffix) p.envelope.id (to_json env0.json p)
      ∷ write r p.envelope.id (to_json env0.json p) (pos offline_expired)
      ∷ rest

  -- They are among some writes.
  pub record Writes (p : Packet) (cs : List Command) : Type 0 where
    pub earlier : List Command
    pub behind : List Command
    pub among : cs ≡ earlier ++ stored_first p behind

  Writes-later : (p q : Packet) (cs : List Command) → Writes p cs → Writes p (stored_first q cs)
  Writes-later p q cs h = record {
    earlier = stored_first q h.earlier;
    behind = h.behind;
    among = ap (stored_first q) h.among;
  }

  store_writes-Writes :
      (p : Packet) (buff : List (Bytes × Packet))
      → Holds p buff
      → Writes p (store_writes r env0 buff)
  store_writes-Writes p [] h = absurd h
  store_writes-Writes p ((k, q) ∷ rest) (inl same) = record {
    earlier = [];
    behind = store_writes r env0 rest;
    among = ap (λ x. stored_first x (store_writes r env0 rest)) same;
  }
  store_writes-Writes p ((k, q) ∷ rest) (inr h) =
      Writes-later p q (store_writes r env0 rest) (store_writes-Writes p rest h)

  lookup-Holds :
      (p : Packet) (id : Bytes) (buff : List (Bytes × Packet))
      → lookup id buff ≡ some p
      → Holds p buff
  unfolding lookup
  lookup-Holds p id [] e = absurd (cc)
  lookup-Holds p id ((k, q) ∷ rest) e = elim (Bool-cases (bytes_eq k id)) [
    | inl same ↦ inl (ground (arith, e, same))
    | inr other ↦ inr (lookup-Holds p id rest (ground (arith, e, other)))
  ]

  abbrev env : Env
  env = with_database r env0

  -- Behind the calls that follow the delivery of a packet.
  abbrev pub delivered : Packet → List (Call env) → World env → World env
  delivered packet calls w = after_calls env calls (route_packet env packet w).1

  -- A packet for the address of a session that is logged in, with an open connection, is not lost
  -- when the session ends. Whatever the session is called with behind the delivery, panics included,
  -- if it is still logged in then, and nothing that the client sends, as an acknowledgement or else,
  -- and no other packet that the node hands it has the id of the packet, nor has a random id, the end
  -- of the session queues the two writes that store and index the packet as it was delivered. The
  -- session's address can be read, the packets in the buffer can be stored, and the database is open.
  pub delivered-Writes :
      (packet : Packet) (w : World env) (j to last : Jid) (calls : List (Call env))
      → IsLoggedIn env w j
      → w.session.closed ≡ false
      → new_jid packet.envelope.to ≡ ok to
      → string_without_resource to ≡ string_without_resource j
      → IsUnique env packet
      → NotSentAgain env packet calls
      → (delivered packet calls w).session.status.status ≡ login
      → new_jid (delivered packet calls w).session.status.jid ≡ ok last
      → AllStorable r env0 (delivered packet calls w).session.pkg_buff
      → (delivered packet calls w).shared.db.wb_closed ≡ false
      → (cs : List Command) × Writes packet cs
        × ((close_session env (delivered packet calls w)).1.shared.db.wb_ch
            ≡ (delivered packet calls w).shared.db.wb_ch ++ commands r cs)
  delivered-Writes packet w j to last calls l open_conn readable same u n logged_in address storable
        open_db =
      let v = delivered packet calls w in
      let kept = delivered-Waits env packet w j to calls l open_conn readable same u n in
      (
        store_writes r env0 (ranged r env0 v.session.pkg_buff v.shared),
        store_writes-Writes packet (ranged r env0 v.session.pkg_buff v.shared) (
            Holds-Perm packet (env0.ranges v.shared.calls v.session.pkg_buff)
              (lookup-Holds packet packet.envelope.id v.session.pkg_buff kept)),
        ap (λ o. o.1.shared.db.wb_ch)
            (close_session-stores r env0 v last logged_in address storable open_db),
      )
