-- ===== src/Factory.antt =====
-- connpool/factory.go: connPool, a pool of connections of a generator. The generators and the connections
-- are parameters.
pub mod Uses
pub mod Fills
pub mod Tests
use oncecall.Prelude.{
  ℕ, Bool, true, false, Option, none, some, List, [], ◌∷◌, ℤ, pos, String, Result, ok, err,
  wrap_err, ◌>>=◌, if◌then◌else◌,
}
use oncecall.Prelude.Partial.{◌>>=◌ as ◌>>?◌}
use text.Mathlib.Text.{◌==◌}
use oncecall.Metric.{MetricExtension}
use oncecall.TimeoutPool.{Item, nil_chan, Config, Pool, Error, use_failed, enter, acquire, close}
use oncecall.TimeoutPool.Use.{finish}
use oncecall.Plan.Config.{Args, Rows}
use oncecall.Fetch.Conns.{ConnConfig}

-- The constructors of package gen; `std` serves the other types of databases.
pub data Kind : Type 0 where
  redis local kafka ssh cassandra odbc std : Kind

pub kind_of : String → Kind
kind_of t =
    if t == "redis"
    then redis
    else if t == "local"
    then local
    else if t == "kafka"
    then kafka
    else if t == "ssh"
    then ssh
    else if t == "cassandra"
    then cassandra
    else if t == "odbc"
    then odbc
    else std

pub record ConnPool (G T M : Type 0) : Type 0 where
  pub ident : String
  pub conf : ConnConfig
  pub conn_generator : G
  pub pool : Pool T M

-- The zero value of the pool.
abbrev pub zero_pool : {T M : Type 0} → M → Pool T M
zero_pool metric = record {
  once_done = false;
  is_init = false;
  is_close = false;
  chan_pool = nil_chan;
  use_cnt = pos 0;
  acc_err_cnt = pos 0;
  real_max_cnt = 0;
  metric = metric;
  opened = [];
  closed = [];
}

-- What the pool is set up with: 61 s of idle time.
abbrev pub config_of : {G T M : Type 0} → ConnPool G T M → Config
config_of c = record { name = c.ident; max = c.conf.max_conn; idle_timeout = pos 61000000000 }

pub new_conn_pool :
    {E G T M : Type 0}
    → (Kind → ConnConfig → Result E G)
    → M
    → String
    → ConnConfig
    → Result E (ConnPool G T M)
unfolding kind_of
new_conn_pool generator metric ident info = generator (kind_of info.db_type) info >>= λ g.
    ok (record { ident = ident; conf = info; conn_generator = g; pool = zero_pool metric })

pub get_config : {G T M : Type 0} → ConnPool G T M → ConnConfig
get_config c = c.conf

-- What happens around a call: whether the context is done, the second at which an item is taken and the
-- one at which it is given back, and what Gen would return.
pub record Around (E T : Type 0) : Type 0 where
  pub done : Bool
  pub second : ℕ
  pub later : ℕ
  pub gen : Result E T

-- types.Conn: what RunExecute and RunQuery of a connection return.
pub record Conn (E A T : Type 0) : Type 0 where
  pub execute : T → Args A → Result E (Unit {0})
  pub query : T → Args A → Result E (Rows A × List String)

abbrev fault_of : {E R : Type 0} → Result E R → Option E
fault_of (ok r) = none
fault_of (err e) = some e

abbrev answer : {E R : Type 0} → Result E R → Result (Error E) (Unit {0}) → Result (Error E) R
answer (ok v) (ok done) = ok v
answer (ok v) (err e) = err e
answer (err v) (ok done) = err (use_failed v)
answer (err v) (err e) = err e

module _ {E A T : Type 0} (conn : Conn E A T) where
  -- data.RunExecute(ctx, arg), which panics on a nil connection.
  pub execute_with : Args A → Option T → Option (Result E (Unit {0}))
  execute_with arg none = none
  execute_with arg (some t) = some (conn.execute t arg)

  -- retWrapper{} has neither rows nor names.
  pub query_with : Args A → Option T → Option (Result E (Rows A × List String))
  unfolding execute_with
  query_with arg data_ = execute_with arg data_ >>? λ r. some (r >>= λ done. ok ([], []))

module _ {T F : Type 0} (x : MetricExtension F) (float : ℤ → F) where
  open x use {M}

  module _ {E R : Type 0} (o : Around E T) (c : Config) (fn : Option T → Option (Result E R)) where
    -- The caller's function between the two halves of Use; `none` is a panic.
    pub call : Result (Error E) (Item T) → Pool T M → Option (Result (Error E) R × Pool T M)
    call (err e) p = some (err e, p)
    call (ok item) p = fn item.data_ >>? λ ret.
        finish x float c o.later (fault_of ret) item p >>? λ r. some (answer ret r.0, r.1)

    abbrev pub entered :
        Result (Error E) (Unit {0}) → Pool T M → Option (Result (Error E) R × Pool T M)
    entered (err e) p = some (err e, p)
    entered (ok done) p = acquire x float c o.second o.gen p >>? λ r. call r.0 r.1

    -- pExtension.Use
    pub use_ : Pool T M → Option (Result (Error E) R × Pool T M)
    unfolding call
    use_ p = enter x float c o.done p >>? λ r. entered r.0 r.1

  abbrev with_pool :
      {E G R : Type 0}
      → ConnPool G T M
      → Option (Result (Error E) R × Pool T M)
      → Option (Result (Error E) R × ConnPool G T M)
  with_pool c r = r >>? λ p. some (p.0, record c { pool = p.1 })

  module _ {E A G : Type 0} (conn : Conn E A T) where
    pub run_execute :
        Around E T → ConnPool G T M → Args A → Option (Result (Error E) (Unit {0}) × ConnPool G T M)
    unfolding execute_with use_
    run_execute o c arg = with_pool c (use_ o (config_of c) (execute_with conn arg) c.pool)

    pub run_query :
        Around E T
        → ConnPool G T M
        → Args A
        → Option (Result (Error E) (Rows A × List String) × ConnPool G T M)
    unfolding query_with use_
    run_query o c arg = with_pool c (use_ o (config_of c) (query_with conn arg) c.pool)

  pub close_pool :
      {E G : Type 0} → ConnPool G T M → Option (Result (Error E) (Unit {0}) × ConnPool G T M)
  close_pool c = with_pool c (close x float (config_of c) c.pool)
