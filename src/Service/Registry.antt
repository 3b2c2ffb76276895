-- ===== src/Service/Registry.antt =====
-- service/registry.go and `StartRPC` of service/server.go: the services by their names, and what the
-- server that offers them is made of. The server is the library go-lightrpc.
use sara.Common.{
  ◌≡◌, Bool, List, some, Bytes, codes, bytes_eq, lookup, lookup-insert, lookup_inserted, ◌∙◌,
  insert, ℤ, pos, Outcome, ret, after,
}
use sara.Config.{Conf, get_int}
use sara.Service.{check_token}

module _ (Node : Type 0) where
  -- The two services, each with the node that it was made for.
  pub data EmsgService : Type 0 where
    emsg_group_service emsg_session_service : Node → EmsgService

  pub record ServiceReg : Type 0 where
    pub namespace : Bytes
    pub reg_version : Bytes
    pub emsg_service : EmsgService

  abbrev pub ServiceRegMap : Type 0
  ServiceRegMap = List (Bytes × ServiceReg)

  unfoldable pub gen_service_reg : Bytes → Bytes → EmsgService → ServiceRegMap → ServiceRegMap
  gen_service_reg namespace version service regs =
      insert namespace
        (record { namespace = namespace; reg_version = version; emsg_service = service }) regs

  unfoldable pub reg_service : Node → ServiceRegMap → ServiceRegMap
  unfolding gen_service_reg
  reg_service node regs =
      gen_service_reg (codes "emsg_session") (codes "0.0.1") (emsg_session_service node)
        (gen_service_reg (codes "emsg_group") (codes "0.0.1") (emsg_group_service node) regs)

  -- `rpcserver.Rpcserver`: the port, the services, and the test of a token.
  pub record RpcServerConf : Type 0 where
    pub http_port : ℤ
    pub service_map : ServiceRegMap
    pub token_test : Bytes → Outcome Bool

  -- What `StartRPC` starts; the map of services is one variable of the package.
  unfoldable pub service_server : Conf → Node → ServiceRegMap → Outcome RpcServerConf
  unfolding reg_service
  service_server conf node regs = after (get_int (codes "rpcport") (pos 4280) conf) λ rpcport.
      ret (record {
        http_port = rpcport;
        service_map = reg_service node regs;
        token_test = check_token conf;
      })

  -- A second start offers the services of the second node only.
  reg_service-latest :
      (first second : Node) (regs : ServiceRegMap)
      → lookup (codes "emsg_group") (reg_service second (reg_service first regs))
        ≡ some (record {
          namespace = codes "emsg_group";
          reg_version = codes "0.0.1";
          emsg_service = emsg_group_service second;
        })
  unfolding reg_service gen_service_reg bytes_eq
  reg_service-latest first second regs =
      lookup-insert (codes "emsg_session") (codes "emsg_group") _ _
      ∙ lookup_inserted (codes "emsg_group") _ (reg_service first regs)
