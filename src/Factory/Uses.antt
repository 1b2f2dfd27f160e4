-- ===== src/Factory/Uses.antt =====
-- What the calls of connPool come to.
use oncecall.Prelude.{
  ◌≡◌, refl, ap, ◌∙◌, inl, inr, true, Option, none, some, Option-cases, [], arith, ℤ, pos, ◌+ℤ◌,
  ◌-ℤ◌, Result, ok, err, Result-cases, ◌>>=◌, int_laws,
}
use oncecall.Prelude.Partial.{◌>>=◌ as ◌>>?◌}
use oncecall.Metric.{MetricExtension}
use oncecall.TimeoutPool.{Item, Config, Pool, Error, enter, acquire, init, make_chan, report}
use oncecall.TimeoutPool.Use.{finish}
use oncecall.TimeoutPool.Use.Shape.{Whole, Shape}
use oncecall.TimeoutPool.Use.Keeps.{acquire-Acquires}
use oncecall.TimeoutPool.Use.Entering.{enter-Enters}
use oncecall.TimeoutPool.Use.Giving.{finish-Finishes}
use oncecall.Plan.Config.{Args}
use oncecall.Factory.{
  ConnPool, config_of, Around, Conn, fault_of, answer, execute_with, query_with, call, use_,
  run_execute, run_query,
}

+ℤ-ℤ : (a : ℤ) → (a +ℤ pos 1) -ℤ pos 1 ≡ a
+ℤ-ℤ a = omega int_laws

module _ {T F : Type 0} (x : MetricExtension F) (float : ℤ → F) where
  open x use {M}

  -- What a whole call leaves of a pool.
  pub record Kept (p p' : Pool T M) : Type 0 where
    pub shape : Shape p'
    pub use_cnt : p'.use_cnt ≡ p.use_cnt

  module _ {E R : Type 0} (o : Around E T) (c : Config) (fn : Option T → Option (Result E R)) where
    enter_ready :
        (p p' : Pool T M)
        → (p.is_init ≡ true → p.once_done ≡ true)
        → enter x float c {E = E} o.done p ≡ some (ok tt, p')
        → p'.once_done ≡ true
    unfolding enter init make_chan report
    enter_ready p p' h e = ground arith

    call_returns :
        (item : Item T) (p : Pool T M)
        → ((t : T) → (v : Result E R) × (fn (some t) ≡ some v))
        → Shape p
        → p.once_done ≡ true
        → Whole item
        → (r : Result (Error E) R) × (p' : Pool T M) × (call x float o c fn (ok item) p
            ≡ some (r, p'))
          × Shape p'
          × (p'.use_cnt ≡ p.use_cnt -ℤ pos 1)
          × (p'.once_done ≡ true)
    unfolding call
    call_returns item p total s d w = elim (Option-cases item.data_) [
      | inl n ↦ absurd (w n)
      | inr (t, n) ↦
          let (v, f) = total t in
          let (r, p', e, k) = finish-Finishes x float c o.later (fault_of v) item p s d (inl w) in
          (answer v r, p', ground (arith, n, f, e), k.shape, k.use_cnt, k.once_done ∙ d)
    ]

    use_returns :
        (p : Pool T M)
        → ((t : T) → (v : Result E R) × (fn (some t) ≡ some v))
        → Shape p
        → (p.is_init ≡ true → p.once_done ≡ true)
        → (r : Result (Error E) R) × (p' : Pool T M) × (use_ x float o c fn p ≡ some (r, p'))
          × Kept p p'
    unfolding use_
    use_returns p total s d =
        let (r, p1, e, k) = enter-Enters x float c {E = E} o.done p s in
        elim (Result-cases r) [
          | inr (y, n) ↦
              (err y, p1, ground (arith, e, n), record { shape = k.shape; use_cnt = k.use_cnt })
          | inl (u, n) ↦
              let ready = enter_ready p p1 d (ground (arith, e, n)) in
              let (q, p2, f, l) = acquire-Acquires x float c o.second o.gen p1 k.shape in
              elim (Result-cases q) [
                | inr (y, z) ↦ (
                  err y,
                  p2,
                  ground (arith, e, n, f, z),
                  record { shape = l.shape; use_cnt = l.refused y z ∙ k.use_cnt },
                )
                | inl (item, z) ↦
                    let (a, p3, g, sh, cnt, od) =
                      call_returns item p2 total l.shape (l.once_done ∙ ready)
                        (l.whole item z (k.admitted n)) in
                    (
                      a,
                      p3,
                      ground (arith, e, n, f, z, g),
                      record {
                        shape = sh;
                        use_cnt =
                            cnt
                            ∙ ap (λ v. v -ℤ pos 1) (l.taken item z)
                            ∙ +ℤ-ℤ p1.use_cnt
                            ∙ k.use_cnt;
                      },
                    )
              ]
        ]

  module _ {E A : Type 0} (conn : Conn E A T) (o : Around E T) where
    call_query :
        (c : Config) (arg : Args A) (r : Result (Error E) (Item T)) (p : Pool T M)
        → call x float o c (query_with conn arg) r p ≡ (
            call x float o c (execute_with conn arg) r p >>? λ a.
            some (a.0 >>= λ done. ok ([], []), a.1))
    unfolding call query_with execute_with
    call_query c arg (err e) p = refl
    call_query c arg (ok item) p = elim (Option-cases item.data_) [
      | inl n ↦ ground (arith, n)
      | inr (t, n) ↦ elim (Result-cases (conn.execute t arg)) [
        | inl (u, k) ↦ elim (Option-cases (finish x float c {E = E} o.later none item p)) [
          | inl z ↦ ground (arith, n, k, z)
          | inr ((q, p'), z) ↦ elim (Result-cases q) [
            | inl (v, w) ↦ ground (arith, n, k, z, w)
            | inr (y, w) ↦ ground (arith, n, k, z, w)
          ]
        ]
        | inr (v, k) ↦ elim (Option-cases (finish x float c o.later (some v) item p)) [
          | inl z ↦ ground (arith, n, k, z)
          | inr ((q, p'), z) ↦ elim (Result-cases q) [
            | inl (u, w) ↦ ground (arith, n, k, z, w)
            | inr (y, w) ↦ ground (arith, n, k, z, w)
          ]
        ]
      ]
    ]

  module _ {E A G : Type 0} (conn : Conn E A T) (o : Around E T) where
    -- RunExecute returns on every pool of the right shape, open or closed, whatever Gen and the
    -- connection return; it leaves a pool of the right shape that counts no item more in use.
    pub run_execute_returns :
        (c : ConnPool G T M) (arg : Args A)
        → Shape c.pool
        → (c.pool.is_init ≡ true → c.pool.once_done ≡ true)
        → (r : Result (Error E) (Unit {0})) × (p' : Pool T M) × (run_execute x float conn o c arg
            ≡ some (r, record c { pool = p' }))
          × Kept c.pool p'
    unfolding run_execute execute_with
    run_execute_returns c arg s d =
        let (r, p', e, k) =
          use_returns o (config_of c) (execute_with conn arg) c.pool (λ t. (_, refl)) s d in
        (r, p', ground (arith, e), k)

    -- RunQuery does what RunExecute does, to the connection and to the pool, and where that returns no
    -- error it returns neither rows nor names; the query of the connection is never made.
    pub run_query-run_execute :
        (c : ConnPool G T M) (arg : Args A)
        → run_query x float conn o c arg
          ≡ (run_execute x float conn o c arg >>? λ a. some (a.0 >>= λ done. ok ([], []), a.1))
    unfolding run_query run_execute use_
    run_query-run_execute c arg =
        elim (Option-cases (enter x float (config_of c) {E = E} o.done c.pool)) [
          | inl n ↦ ground (arith, n)
          | inr ((r, p), n) ↦ elim (Result-cases r) [
            | inr (y, k) ↦ ground (arith, n, k)
            | inl (u, k) ↦ elim (Option-cases (acquire x float (config_of c) o.second o.gen p)) [
              | inl z ↦ ground (arith, n, k, z)
              | inr ((q, p'), z) ↦
                  let f = call_query conn o (config_of c) arg q p' in
                  elim (Option-cases (call x float o (config_of c) (execute_with conn arg) q p')) [
                    | inl w ↦ ground (arith, n, k, z, f, w)
                    | inr (a, w) ↦ ground (arith, n, k, z, f, w)
                  ]
            ]
          ]
        ]
