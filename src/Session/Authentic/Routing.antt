-- ===== src/Session/Authentic/Routing.antt =====
-- `RoutePacket`: a packet goes onto the queue only in the name of the session's own address.
use sara.Common.{
  ◌≡◌, ◌≢◌, refl, sym, ◌∙◌, subst, true, List, [], ◌∷◌, some, ◌++◌, Bytes, bytes_eq_iff, Result, ok,
  err, Outcome, ret, panic, Exec, pure, continue, ◌>>=◌, ◌>>◌, modify,
}
use sara.Jid.{Jid, new_jid, to_sessionid}
use sara.Packet.{Packet, to_json, new_packet_sys_notify}
use sara.Session.State.{
  Env, Shared, World, RouterItem, Status, conn, login, close, on_db, service, route, shared,
  read_session,
}
use sara.Session.Actions.{
  answer, store_packet, route_to, route_outgoing, route_logged_in, route_packet, pkg_buff_add,
  send_message, is_login,
}
use sara.Session.Progress.{Advances}
use sara.Session.Progress.Methods.{route_outgoing-Advances}
use sara.Session.Authentic.{
  Adds, Adds-none, Adds-trans, Adds-map, Bare, Bare-Own, IsFrom, Own, Own-Follows, Plain,
  Plain-bind, Plain-modify, plain_rules, route-Adds,
}
use sara.Session.Authentic.Quiet.{Mute, Mute-bind, Mute-update, store_packet-Plain}
use sara.Session.Authentic.Quiet.Methods.{answer-Mute}
use sara.Session.Authentic.Branches.{deref-at, equal-at, if-at}

-- A step that adds signals, and packets of the session that it leaves.
pub record Honest {env : Env} {A : Type 0} (m : Exec (World env) A) : Type 0 where
  pub at : (w : World env) → Adds (Own (m w).1.session) w.shared.routed (m w).1.shared.routed

-- An item of this packet, or a signal.
abbrev Carries : Packet → RouterItem → Type 0
Carries packet item = (p : Packet) → item.packet ≡ some p → p ≡ packet

Bare-Carries : (packet : Packet) (item : RouterItem) → Bare item → Carries packet item
Bare-Carries packet item b p e = absurd (cc)

module _ {env : Env} where
  pub Honest-Mute : {A : Type 0} (m : Exec (World env) A) → Mute m → Honest m
  Honest-Mute m h = record { at = λ w. Adds-map (Bare-Own (m w).1.session) (h.at w) }

  continue-Honest :
      {A B : Type 0} (f : A → Exec (World env) B) (q : List RouterItem) (o : Outcome A)
      (w : World env)
      → ((a : A) → Honest (f a))
      → ((a : A) → Advances (f a))
      → Adds (Own w.session) q w.shared.routed
      → Adds (Own (continue f o w).1.session) q (continue f o w).1.shared.routed
  continue-Honest f q (ret a) w hf g h =
      Adds-trans (Own (f a w).1.session)
        (Adds-map (Own-Follows w.session (f a w).1.session ((g a).at w)) h) ((hf a).at w)
  continue-Honest f q panic w hf g h = h

  pub Honest-bind :
      {A B : Type 0} (m : Exec (World env) A) (f : A → Exec (World env) B)
      → Honest m
      → ((a : A) → Honest (f a))
      → ((a : A) → Advances (f a))
      → Honest (m >>= f)
  unfolding ◌>>=◌
  Honest-bind m f hm hf g = record {
    at = λ w. continue-Honest f w.shared.routed (m w).0 (m w).1 hf g (hm.at w);
  }

module _ (env : Env) where
  bind-Adds :
      {A B : Type 0} (P : RouterItem → Type 0) (m : Exec (Shared env) A)
      (f : A → Exec (Shared env) B) (s : Shared env)
      → Adds P s.routed (m s).1.routed
      → ((a : A) (t : Shared env) → Adds P t.routed (f a t).1.routed)
      → Adds P s.routed ((m >>= f) s).1.routed
  unfolding ◌>>=◌
  bind-Adds {A} {B} P m f s h k = go (m s).0 (m s).1 h
    where
      go :
          (o : Outcome A) (t : Shared env)
          → Adds P s.routed t.routed
          → Adds P s.routed (continue f o t).1.routed
      go (ret a) t h = Adds-trans P h (k a t)
      go panic t h = h

  found_cases-Adds :
      (packet : Packet) (found : Result Bytes) (s : Shared env)
      → (let rest : Exec (Shared env) (Unit {0}) = elim found [
        | ok ssb ↦ do
          let ss = env.unmarshal_status ssb
          route env ss.channel ss.sid (some packet) 0
          pure tt
        | err e ↦ do
          store_packet env packet
          modify λ s. record s { notified = s.notified ++ to_json env.json packet ∷ [] }
          service env (env.offline_callback (to_json env.json packet))
          pure tt
      ] in
          Adds (Carries packet) s.routed (rest s).1.routed)
  found_cases-Adds packet (ok ssb) s =
      let ss = env.unmarshal_status ssb in
      bind-Adds (Carries packet) (route env ss.channel ss.sid (some packet) 0) (λ _. pure tt) s
        (route-Adds (Carries packet) ss.channel ss.sid (some packet) 0 s (λ p e. cc))
        (λ a t. unfold pure in Adds-none (Carries packet) t.routed)
  found_cases-Adds packet (err e) s = Adds-map (Bare-Carries packet) (offline.at s)
    where
      offline : Plain (do
        store_packet env packet
        modify λ s. record s { notified = s.notified ++ to_json env.json packet ∷ [] }
        service env (env.offline_callback (to_json env.json packet))
        pure tt)
      offline =
          Plain-bind _ _ (store_packet-Plain env packet)
            λ _. Plain-bind _ _ (Plain-modify _ λ s. refl) λ _. search plain_rules

  route_to-Adds :
      (packet : Packet) (j : Jid) (s : Shared env)
      → Adds (Carries packet) s.routed (route_to env packet j s).1.routed
  unfolding route_to
  route_to-Adds packet j s =
      bind-Adds (Carries packet) (on_db env (env.db.get (to_sessionid j))) _ s
        (unfold on_db in Adds-none (Carries packet) s.routed) (found_cases-Adds packet)

  outgoing_cases-Adds :
      (packet : Packet) (j : Result Jid) (w : World env)
      → (let step : Exec (World env) (Unit {0}) = elim j [
        | err e ↦ answer env (new_packet_sys_notify packet.envelope.id e)
        | ok to_jid ↦ shared env (route_to env packet to_jid)
      ] in
          Adds (Carries packet) w.shared.routed (step w).1.shared.routed)
  unfolding shared
  outgoing_cases-Adds packet (err e) w = Adds-map (Bare-Carries packet) ((answer-Mute env _).at w)
  outgoing_cases-Adds packet (ok j) w = route_to-Adds packet j w.shared

  route_outgoing-Adds :
      (packet : Packet) (w : World env)
      → Adds (Carries packet) w.shared.routed (route_outgoing env packet w).1.shared.routed
  unfolding route_outgoing
  route_outgoing-Adds packet w = outgoing_cases-Adds packet (new_jid packet.envelope.to) w

  incoming-Honest :
      (packet : Packet)
      → Honest (do pkg_buff_add env packet; send_message env (to_json env.json packet))
  unfolding pkg_buff_add send_message
  incoming-Honest packet = Honest-Mute _ (Mute-bind _ _ (Mute-update _) λ _. Mute-update _)

  route_outgoing-Own :
      (packet : Packet) (w : World env)
      → IsFrom w.session packet
      → Adds
          (Own (route_outgoing env packet w).1.session)
          w.shared.routed
          (route_outgoing env packet w).1.shared.routed
  route_outgoing-Own packet w from =
      Adds-map
        (λ item c.
          Own-Follows w.session _ ((route_outgoing-Advances env packet).at w) item
            λ p e. subst (IsFrom w.session) (sym (c p e)) from)
        (route_outgoing-Adds packet w)

  is_login-known : (s : Status) → is_login s ≡ true → s ≢ conn
  is_login-known conn e = absurd (cc)
  is_login-known login e = λ h. cc
  is_login-known close e = absurd (cc)

  route_logged_in-Own :
      (packet : Packet) (w : World env)
      → is_login w.session.status.status ≡ true
      → (let done = route_logged_in env packet w.session.status w in
          Adds (Own done.1.session) w.shared.routed done.1.shared.routed)
  unfolding route_logged_in pure
  route_logged_in-Own packet w logged_in =
      let Q : World env → Type 0 = λ v. Adds (Own v.session) w.shared.routed v.shared.routed in
      let nothing = Adds-none (Own w.session) w.shared.routed in
      deref-at Q (new_jid w.session.status.jid) _ w nothing λ jid own_read.
        equal-at Q jid packet.envelope.to _ w nothing λ incoming to to_read to_self.
          if-at Q incoming _ _ w (λ e. (incoming-Honest packet).at w)
            λ e.
              equal-at Q jid packet.envelope.from _ w nothing λ outgoing sender from_read from_self.
                if-at Q outgoing _ _ w
                  (λ own. route_outgoing-Own packet w (record {
                    known = is_login-known w.session.status.status logged_in;
                    own = jid;
                    sender = sender;
                    own_read = own_read;
                    from_read = from_read;
                    same = (bytes_eq_iff _ _).0 (from_self ∙ own);
                  }))
                  (λ e. nothing)

  pub route_packet-Honest : (packet : Packet) → Honest (route_packet env packet)
  unfolding route_packet ◌>>=◌ read_session pure
  route_packet-Honest packet = record {
    at = λ w.
        if-at (λ v. Adds (Own v.session) w.shared.routed v.shared.routed)
          (is_login w.session.status.status) _ _ w (route_logged_in-Own packet w)
          (λ e. Adds-none (Own w.session) w.shared.routed);
  }
