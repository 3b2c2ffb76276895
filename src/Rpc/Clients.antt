-- ===== src/Rpc/Clients.antt =====
-- The pool of clients, and what reaches the data channel of a node.
use sara.Common.{
  ℕ, ◌≤◌, ◌≡◌, refl, sym, ap, ◌∙◌, List, [], ◌∷◌, ◌++◌, append-nil, append_assoc, if◌then◌else◌,
  ltb, length, length-append, arith, Bytes, codes, bytes_eq, bytes_eq_refl, insert, lookup-insert,
  Result, ok, err, Outcome, ret, panic, Exec, pure, for_each, continue, bind-ret, ◌>>=◌, ◌>>◌,
}
use sara.Rpc.{
  Thrift, RpcClient, RpcDataChannel, queue_of, with_queue, put_client, tick, new_client, get_from,
  get_client, call_with, call, publish, process_batch,
}

-- No queue of the pool holds more clients than the pool's size.
abbrev pub IsBounded : RpcClient → Type 0
IsBounded s = (addr : Bytes) → length (queue_of addr s.client_pool) ≤ s.pool_size

queue_of-insert :
    (addr k : Bytes) (queue : List ℕ) (pool : List (Bytes × List ℕ))
    → queue_of k (insert addr queue pool) ≡ (if bytes_eq addr k then queue else queue_of k pool)
unfolding queue_of
queue_of-insert addr k queue pool = ground (arith, lookup-insert addr k queue pool)

with_queue-IsBounded :
    (addr : Bytes) (queue : List ℕ) (s : RpcClient)
    → length queue ≤ s.pool_size
    → IsBounded s
    → IsBounded (with_queue addr queue s)
with_queue-IsBounded addr queue s small h k =
    ground (arith, queue_of-insert addr k queue s.client_pool, h k)

-- Whether it returns an error or not, a step keeps the pool bounded.
record Keeps {A : Type 0} (m : Exec RpcClient A) : Type 0 where
  at : (s : RpcClient) → IsBounded s → IsBounded (m s).1

continue-Keeps :
    {A B : Type 0} (f : A → Exec RpcClient B) (o : Outcome A) (s : RpcClient)
    → ((a : A) → Keeps (f a))
    → IsBounded s
    → IsBounded (continue f o s).1
continue-Keeps f (ret a) s hf h = (hf a).at s h
continue-Keeps f panic s hf h = h

Keeps-bind :
    {A B : Type 0} (m : Exec RpcClient A) (f : A → Exec RpcClient B)
    → Keeps m
    → ((a : A) → Keeps (f a))
    → Keeps (m >>= f)
unfolding ◌>>=◌
Keeps-bind m f hm hf = record { at = λ s h. continue-Keeps f (m s).0 (m s).1 hf (hm.at s h) }

Keeps-pure : {A : Type 0} (a : A) → Keeps (pure a)
unfolding pure
Keeps-pure a = record { at = λ s h. h }

put_client-Keeps : (addr : Bytes) (c : ℕ) → Keeps (put_client addr c)
unfolding put_client
put_client-Keeps addr c = record { at = λ s h. put s h (queue_of addr s.client_pool) (h addr) }
  where
    put :
        (s : RpcClient)
        → IsBounded s
        → (queue : List ℕ) → length queue ≤ s.pool_size
        → IsBounded (
            if ltb (length queue) s.pool_size
            then with_queue addr (queue ++ c ∷ []) s
            else record (with_queue addr queue s) { closed = s.closed ++ c ∷ [] })
    put s h queue small k = ground (
      arith,
      queue_of-insert addr k queue s.client_pool,
      queue_of-insert addr k (queue ++ c ∷ []) s.client_pool,
      length-append queue (c ∷ []),
      h k,
    )

module _ (thrift : Thrift) where
  tick-Keeps : Keeps (tick thrift)
  unfolding tick
  tick-Keeps = record { at = λ s h. h }

  get_client-Keeps : (addr : Bytes) → Keeps (get_client thrift addr)
  unfolding get_client get_from
  get_client-Keeps addr = record { at = λ s h. from s h (queue_of addr s.client_pool) (h addr) }
    where
      fresh : Keeps (new_client thrift addr)
      fresh = unfold new_client in Keeps-bind _ _ tick-Keeps λ n. Keeps-pure _

      from :
          (s : RpcClient)
          → IsBounded s
          → (queue : List ℕ) → length queue ≤ s.pool_size
          → IsBounded (get_from thrift addr queue s).1
      from s h [] small = fresh.at (with_queue addr [] s) (with_queue-IsBounded addr [] s small h)
      from s h (c ∷ queue) small = with_queue-IsBounded addr queue s (omega (arith, small)) h

  call_with-Keeps :
      (addr lic sn content : Bytes) (c : ℕ) → Keeps (call_with thrift addr lic sn content c)
  unfolding call_with
  call_with-Keeps addr lic sn content c =
      Keeps-bind _ _ tick-Keeps λ n. answered (thrift.process c lic sn content n)
    where
      answered :
          (r : Result Bytes)
          → Keeps {A = Result Bytes}
              (elim r [ err e ↦ pure (err e) | ok rtn ↦ do put_client addr c; pure (ok rtn) ])
      answered (err e) = Keeps-pure _
      answered (ok rtn) = Keeps-bind _ _ (put_client-Keeps addr c) λ _. Keeps-pure _

  -- Whatever the other node answers, and also if it cannot be reached, a call leaves no queue of the
  -- pool with more clients than the pool's size, if none had more before.
  pub call-IsBounded :
      (addr lic sn content : Bytes) (s : RpcClient)
      → IsBounded s
      → IsBounded (call thrift addr lic sn content s).1
  unfolding call
  call-IsBounded addr lic sn content = (Keeps-bind _ _ (get_client-Keeps addr) with_client).at
    where
      with_client :
          (r : Result ℕ)
          → Keeps {A = Result Bytes}
              (elim r [ err e ↦ pure (err e) | ok c ↦ call_with thrift addr lic sn content c ])
      with_client (err e) = Keeps-pure _
      with_client (ok c) = call_with-Keeps addr lic sn content c

  pub publish_own :
      (content : Bytes) (s : RpcDataChannel)
      → (publish thrift s.id content >> pure tt) s
        ≡ (ret tt, record s { data_ch = s.data_ch ++ content ∷ [] })
  publish_own content s = unfold publish ◌>>=◌ pure in ground (arith, bytes_eq_refl s.id)

  all_own :
      (contents : List Bytes) (s : RpcDataChannel)
      → for_each (λ content t. (do publish thrift t.id content; pure tt) t) contents s
        ≡ (ret tt, record s { data_ch = s.data_ch ++ contents })
  unfolding for_each
  all_own [] s =
      unfold pure in ap (λ ch. (ret tt, record s { data_ch = ch })) (sym (append-nil s.data_ch))
  all_own (c ∷ contents) s =
      bind-ret (λ t. (do publish thrift t.id c; pure tt) t) _ s _ tt (publish_own c s)
      ∙ all_own contents _
      ∙ ap (λ ch. (ret tt, record s { data_ch = ch })) (append_assoc s.data_ch (c ∷ []) contents)

  -- A batch of messages that another node sends reaches the data channel of this node complete and
  -- in order, behind what was there.
  pub process_batch_lem :
      (contents : List Bytes) (s : RpcDataChannel)
      → process_batch thrift contents s
        ≡ (ret (ok (codes "success")), record s { data_ch = s.data_ch ++ contents })
  process_batch_lem contents s =
      unfold process_batch in bind-ret _ _ s _ tt (all_own contents s) ∙ (unfold pure in refl)
