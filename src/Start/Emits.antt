-- ===== src/Start/Emits.antt =====
-- Steps that return and act: what each method of the start leaves in the trace.
use sara.Common.{
  none, ◌≡◌, refl, sym, ap, ◌∙◌, Bool, true, false, [], ◌∷◌, ◌++◌, append-nil, append_assoc, some,
  if◌then◌else◌, Bytes, codes, ℤ, Outcome, ret, Exec, pure, bind-ret, ◌>>=◌,
}
use sara.Config.{Conf, get_string, get_bool}
use sara.Start.{
  Machine, Action, Level, info_level, error_level, log, listening, Trace, Transport, Ports, act,
  read, open_port, start_plain, start_secure, if_set,
}

-- From any trace, a step returns `a` and puts `out` behind the trace.
pub record Emits {A : Type 0} (m : Exec Trace A) (a : A) (out : Trace) : Type 0 where
  pub at : (t : Trace) → m t ≡ (ret a, t ++ out)

pub Emits-bind :
    {A B : Type 0} (m : Exec Trace A) (f : A → Exec Trace B) {a : A} {b : B} {xs ys : Trace}
    → Emits m a xs
    → Emits (f a) b ys
    → Emits (m >>= f) b (xs ++ ys)
Emits-bind m f {a} {b} {xs} {ys} hm hf = record {
  at = λ t.
      bind-ret m f t (t ++ xs) a (hm.at t)
      ∙ hf.at (t ++ xs)
      ∙ ap (λ u. (ret b, u)) (append_assoc t xs ys);
}

pub Emits-pure : {A : Type 0} (a : A) → Emits (pure a) a []
unfolding pure
Emits-pure a = record { at = λ t. ap (λ u. (ret a, u)) (sym (append-nil t)) }

pub Emits-act : (a : Action) → Emits (act a) tt (a ∷ [])
unfolding act
Emits-act a = record { at = λ t. refl }

pub Emits-read : {A : Type 0} (o : Outcome A) {a : A} → o ≡ ret a → Emits (read o) a []
unfolding read
Emits-read o {a} e = record {
  at = λ t. ap (λ p. read p t) e ∙ ap (λ u. (ret a, u)) (sym (append-nil t));
}

pub Emits-if :
    (b : Bool) (x : Exec Trace (Unit {0})) {out : Trace}
    → Emits x tt out
    → Emits (if b then x else pure tt) tt (if b then out else [])
Emits-if true x h = h
Emits-if false x h = Emits-pure tt

pub Emits-unless :
    (b : Bool) (x : Exec Trace (Unit {0})) {out : Trace}
    → Emits x tt out
    → Emits (if b then pure tt else x) tt (if b then [] else out)
Emits-unless true x h = Emits-pure tt
Emits-unless false x h = h

-- A line of the log, where no writer is nil.
pub Emits-log : (level : Level) → Emits (log none level) tt []
unfolding log
Emits-log level = Emits-pure tt

pub Emits-either :
    (b : Bool) (x y : Exec Trace (Unit {0})) {out : Trace}
    → Emits x tt out
    → Emits y tt []
    → Emits (if b then x else y) tt (if b then out else [])
Emits-either true x y h k = h
Emits-either false x y h k = k

pub if_set-Emits :
    (conf : Conf) (key : Bytes) (start : Exec Trace (Unit {0})) {on : Bool} {out : Trace}
    → get_bool key true conf ≡ ret on
    → Emits start tt out
    → Emits (if_set conf key start) tt (if on then out else [])
unfolding if_set
if_set-Emits conf key start {on} e h = Emits-bind _ _ (Emits-read _ e) (Emits-if on start h)

-- What a listener leaves that may open.
abbrev pub opened : Machine → Transport → ℤ → Trace
opened m transport port = if m.listen transport port then listening transport port ∷ [] else []

pub start_plain-Emits :
    (m : Machine) (transport : Transport) (port : Ports → ℤ) (ports : Ports)
    → Emits (start_plain m none transport port (some ports)) tt (opened m transport (port ports))
unfolding start_plain open_port
start_plain-Emits m transport port ports =
    Emits-either _ _ _ (Emits-bind _ _ (Emits-act _) (Emits-log info_level)) (Emits-log error_level)

pub start_secure-Emits :
    (m : Machine) (conf : Conf) (transport : Transport) (port : Ports → ℤ) (ports : Ports)
    {cert key : Bytes}
    → get_string (codes "certfile") (codes "/etc/sara/server.pem") conf ≡ ret cert
    → get_string (codes "keyfile") (codes "/etc/sara/server.key") conf ≡ ret key
    → Emits
        (start_secure m conf none transport port (some ports))
        tt
        (if m.key_pair cert key then opened m transport (port ports) else [])
unfolding start_secure
start_secure-Emits m conf transport port ports e f = Emits-bind _ _ (Emits-read _ e) (
    Emits-bind _ _ (Emits-read _ f)
      (Emits-either _ _ _ (start_plain-Emits m transport port ports) (Emits-log error_level)))
