-- ===== src/Rpc/Server.antt =====
-- sararpc/server.go, the server that other nodes call, and `Subscribe` of sararpc/channel.go. Thrift,
-- which reads the calls and writes their answers, is left out: the calls are the list of those that
-- come, one behind the other.
use sara.Common.{
  ℕ, zero, suc, ◌≤◌, ◌≡◌, refl, sym, ap, ◌∙◌, List, [], ◌∷◌, ◌++◌, append-nil, append_assoc, length,
  Bytes, codes, Result, ok, err, Outcome, ret, panic, Exec, pure, for_each, continue, bind-ret,
  ◌>>=◌, ◌>>◌, arith, bytes_eq_refl,
}
use sara.Rpc.{Thrift, RpcDataChannel, process, process_batch, publish}
use sara.Rpc.Clients.{process_batch_lem}

-- A call of `Process` or `ProcessBatch`, with its licence and serial number.
pub data Request : Type 0 where
  process_call : Bytes → Bytes → Bytes → Request
  process_batch_call : Bytes → Bytes → List Bytes → Request

-- `emsgInfPush` holds the data channel that the server was made with.
pub record RpcServer : Type 0 where
  pub server_addr : Bytes
  pub data_channel : RpcDataChannel

-- `open_error` is the error of the server socket of an address, if it has one.
unfoldable pub new_rpc_server :
    (Bytes → Result (Unit {0})) → Bytes → RpcDataChannel → Result RpcServer
new_rpc_server open_socket addr channel = elim (open_socket addr) [
  | ok _ ↦ ok (record { server_addr = addr; data_channel = channel })
  | err e ↦ err e
]

module _ (thrift : Thrift) where
  -- The licence and the serial number are not looked at.
  unfoldable pub answer_request : Request → Exec RpcDataChannel (Result Bytes)
  answer_request (process_call lic sn content) = process thrift content
  answer_request (process_batch_call lic sn contents) = process_batch thrift contents

  -- `Start`: the calls as they come, with their answers.
  unfoldable pub serve_requests : List Request → Exec RpcDataChannel (List (Result Bytes))
  serve_requests [] = pure []
  serve_requests (q ∷ qs) = do a ← answer_request q; rest ← serve_requests qs; pure (a ∷ rest)

  -- `Subscribe`, at most so many rounds: the handler, on a state of its own, is given what waits in
  -- the channel. On an empty channel the loop waits.
  unfoldable pub subscribe_loop :
      {S : Type 0} → ℕ → (Bytes → Exec S (Unit {0})) → List Bytes → Exec S (List Bytes)
  subscribe_loop zero handler waiting s = (ret waiting, s)
  subscribe_loop (suc rounds) handler [] s = (ret [], s)
  subscribe_loop (suc rounds) handler (m ∷ waiting) s =
      (do handler m; subscribe_loop rounds handler waiting) s

  abbrev pub contents_of : Request → List Bytes
  contents_of (process_call lic sn content) = content ∷ []
  contents_of (process_batch_call lic sn contents) = contents

  abbrev pub all_contents : List Request → List Bytes
  all_contents [] = []
  all_contents (q ∷ qs) = contents_of q ++ all_contents qs

  abbrev pub successes : List Request → List (Result Bytes)
  successes [] = []
  successes (q ∷ qs) = ok (codes "success") ∷ successes qs

  answer_request_lem :
      (q : Request) (d : RpcDataChannel)
      → answer_request q d
        ≡ (ret (ok (codes "success")), record d { data_ch = d.data_ch ++ contents_of q })
  unfolding answer_request
  answer_request_lem (process_call lic sn content) d =
      unfold process publish ◌>>=◌ pure in ground (arith, bytes_eq_refl d.id)
  answer_request_lem (process_batch_call lic sn contents) d = process_batch_lem thrift contents d

  -- Every call is answered with success, whatever its licence, and all messages join the channel,
  -- in order.
  serve_requests_lem :
      (qs : List Request) (d : RpcDataChannel)
      → serve_requests qs d
        ≡ (ret (successes qs), record d { data_ch = d.data_ch ++ all_contents qs })
  unfolding serve_requests
  serve_requests_lem [] d =
      unfold pure in ap (λ ch. (ret [], record d { data_ch = ch })) (sym (append-nil d.data_ch))
  serve_requests_lem (q ∷ qs) d =
      let one = record d { data_ch = d.data_ch ++ contents_of q } in
      bind-ret (answer_request q) _ d one _ (answer_request_lem q d)
      ∙ bind-ret (serve_requests qs) _ one _ _ (serve_requests_lem qs one)
      ∙ (unfold pure in
          ap (λ ch. (ret (successes (q ∷ qs)), record d { data_ch = ch }))
            (append_assoc d.data_ch (contents_of q) (all_contents qs)))

  subscribe_loop_lem :
      {S : Type 0} (rounds : ℕ) (handler : Bytes → Exec S (Unit {0})) (waiting : List Bytes) (s : S)
      → length waiting ≤ rounds
      → subscribe_loop rounds handler waiting s ≡ (do for_each handler waiting; pure []) s
  unfolding subscribe_loop for_each ◌>>=◌ pure
  subscribe_loop_lem {S = S} zero handler [] s h = refl
  subscribe_loop_lem {S = S} zero handler (m ∷ waiting) s h = absurd (omega (arith, h))
  subscribe_loop_lem {S = S} (suc rounds) handler [] s h = refl
  subscribe_loop_lem {S = S} (suc rounds) handler (m ∷ waiting) s h =
      go (handler m s).0 (handler m s).1
        λ t. subscribe_loop_lem rounds handler waiting t (omega (arith, h))
    where
      go :
          (o : Outcome (Unit {0})) (v : S)
          → ((t : S)
              → subscribe_loop rounds handler waiting t ≡ (do for_each handler waiting; pure []) t)
          → continue (λ _. subscribe_loop rounds handler waiting) o v
            ≡ continue
                (λ _. pure [])
                (continue (λ _. for_each handler waiting) o v).0
                (continue (λ _. for_each handler waiting) o v).1
      go (ret x) v rec = rec v
      go panic v rec = refl

  -- A server for other nodes and the loop that reads its channel: every call is answered with success,
  -- whatever its licence, and the handler is called with the messages that waited, then with each
  -- message of each call, once and in order, up to its first panic. A round for each of them is enough.
  pub serve_requests-subscribe_loop :
      {S : Type 0} (qs : List Request) (d : RpcDataChannel) (rounds : ℕ)
      (handler : Bytes → Exec S (Unit {0})) (s : S)
      → length (d.data_ch ++ all_contents qs) ≤ rounds
      → let served = serve_requests qs d in
        (served.0 ≡ ret (successes qs))
        × (subscribe_loop rounds handler served.1.data_ch s
            ≡ (do for_each handler (d.data_ch ++ all_contents qs); pure []) s)
  serve_requests-subscribe_loop qs d rounds handler s h =
      rw (serve_requests_lem qs d)
        (refl, subscribe_loop_lem rounds handler (d.data_ch ++ all_contents qs) s h)
