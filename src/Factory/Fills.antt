-- ===== src/Factory/Fills.antt =====
-- The pools of connpool/factory.go as those that the sync process makes.
use oncecall.Prelude.{◌≡◌, inl, inr, arith, String, Result, ok, Result-cases}
use oncecall.Fetch.Conns.{ConnConfig}
use oncecall.Factory.{Kind, kind_of, ConnPool, new_conn_pool, get_config}
use oncecall.Syncd.Pools.{ConnPools}

module _ {E G : Type 0} (T : Type 0) {M : Type 0} (generator : Kind → ConnConfig → Result E G)
    (metric : M) where
  get_config-new_conn_pool :
      (ident : String) (info : ConnConfig) (p : ConnPool G T M)
      → new_conn_pool generator metric ident info ≡ ok p
      → get_config p ≡ info
  unfolding new_conn_pool get_config
  get_config-new_conn_pool ident info p h =
      elim (Result-cases (generator (kind_of info.db_type) info)) [
        | inl (g, e) ↦ ground (arith, e)
        | inr (x, e) ↦ ground (arith, e)
      ]

  pub conn_pools : ConnPools E
  conn_pools = record {
    P = ConnPool G T M;
    new_conn_pool = new_conn_pool generator metric;
    get_config = get_config;
    get_config-new_conn_pool = get_config-new_conn_pool;
  }
