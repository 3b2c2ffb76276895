-- ===== src/Rpc/Tests.antt =====
-- The theorem on the pool of clients, at nodes that all answer.
use sara.Common.{[], ◌∷◌, codes, lookup, arith, ok}
use sara.Rpc.{Thrift, new_rpc_client, queue_of, licence, call}
use sara.Rpc.Clients.{IsBounded, call-IsBounded}

abbrev thrift : Thrift
thrift = record {
  connect = λ addr n. ok n;
  process = λ c lic sn content n. ok (codes "success");
  uuid = λ n. n ∷ [];
}

empty-IsBounded : IsBounded new_rpc_client
unfolding queue_of lookup
empty-IsBounded addr = omega arith

call-IsBounded_example :
    IsBounded (call thrift (codes "n2") licence (codes "s1") (codes "hi") new_rpc_client).1
call-IsBounded_example =
    call-IsBounded thrift (codes "n2") licence (codes "s1") (codes "hi") new_rpc_client
      empty-IsBounded
