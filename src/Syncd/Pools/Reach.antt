-- ===== src/Syncd/Pools/Reach.antt =====
-- Which pools there are after a reset of the databases, and where they go.
use oncecall.Prelude.{
  ◌≡◌, ◌≢◌, refl, sym, ap, ◌∙◌, inl, inr, true, Bool-cases, none, some, [], ◌∷◌, arith, String,
  str_dec, Dict, lookup, Distinct, Result, ok, err, is_ok, Result-cases,
}
use text.Mathlib.Text.{◌==◌}
use text.Mathlib.TextEquality.{eq_iff}
use oncecall.Fetch.Conns.{ConnConfig}
use oncecall.SharedState.{SharedState, get_conn_pool, exists_conn_pool}
use oncecall.SharedState.Pools.{exists_conn_pool-get_conn_pool, get_conn_pool-push_conn_pool}
use oncecall.Syncd.Pools.{ConnPools, same_place, reset_db, reset_db_loop, reset_db_list}

module _ {E : Type 0} (x : ConnPools E) where
  open x use {P}

  -- A pool for the ident goes to the server and the database of the configuration.
  abbrev pub Reaches : SharedState P → String → ConnConfig → Type 0
  Reaches s ident info =
      (p : P) × (get_conn_pool s ident ≡ ok p)
      × ((x.get_config p).server ≡ info.server)
      × ((x.get_config p).name ≡ info.name)

  same_place_lem :
      (a b : ConnConfig) → same_place a b ≡ true → (a.server ≡ b.server) × (a.name ≡ b.name)
  same_place_lem a b h = elim (Bool-cases (a.server == b.server)) [
    | inl e ↦ ((eq_iff a.server b.server).0 e, (eq_iff a.name b.name).0 (ground (arith, e)))
    | inr n ↦ ground (arith, n)
  ]

  reset_db_lem :
      (ident : String) (info : ConnConfig) (s : SharedState P)
      → ((other : String)
          → ident ≢ other
          → get_conn_pool (reset_db x ident info s).1 other ≡ get_conn_pool s other)
        × ((other : String)
            → is_ok (get_conn_pool (reset_db x ident info s).1 other)
              ≡ is_ok (get_conn_pool s other))
        × ((reset_db x ident info s).0 ≡ ok tt → Reaches (reset_db x ident info s).1 ident info)
  unfolding reset_db
  reset_db_lem ident info s = elim (Result-cases (get_conn_pool s ident)) [
    | inr (e, n) ↦
        (λ other d. ground (arith, n), λ other. ground (arith, n), λ h. ground (arith, n))
    | inl (p, n) ↦ elim (Bool-cases (same_place (x.get_config p) info)) [
      | inl c ↦
          let (a, b) = same_place_lem (x.get_config p) info c in
          (
            λ other d. ground (arith, n, c),
            λ other. ground (arith, n, c),
            λ h. (p, ground (arith, n, c), a, b),
          )
      | inr c ↦ elim (Result-cases (x.new_conn_pool ident info)) [
        | inr (e, k) ↦ (
          λ other d. ground (arith, n, c, k),
          λ other. ground (arith, n, c, k),
          λ h. ground (arith, n, c, k),
        )
        | inl (q, k) ↦
            let pushed = λ (other : String). (get_conn_pool-push_conn_pool s ident q other).0 in
            let conf = x.get_config-new_conn_pool ident info q k in
            (
              λ other d. ground (arith, n, c, k, pushed other),
              λ other. elim (str_dec ident other) [
                | yes same ↦
                    let z : get_conn_pool s other ≡ ok p = ap (get_conn_pool s) (sym same) ∙ n in
                    ground (arith, n, c, k, z, pushed other)
                | no d ↦ ground (arith, n, c, k, pushed other)
              ],
              λ h. (
                q,
                ground (arith, n, c, k, pushed ident),
                ap (λ i. i.server) conf,
                ap (λ i. i.name) conf,
              ),
            )
      ]
    ]
  ]

  loop_there :
      (list : Dict String ConnConfig) (s : SharedState P) (other : String)
      → is_ok (get_conn_pool (reset_db_loop x list s).1 other) ≡ is_ok (get_conn_pool s other)
  unfolding reset_db_loop
  loop_there [] s other = refl
  loop_there ((i, c) ∷ list) s other =
      let there = (reset_db_lem i c s).1 other in
      elim (Result-cases (reset_db x i c s).0) [
        | inl (u, n) ↦ ground (arith, n, there, loop_there list (reset_db x i c s).1 other)
        | inr (e, n) ↦ ground (arith, n, there)
      ]

  pub exists_conn_pool-reset_db_list :
      (list : Result E (Dict String ConnConfig)) (s : SharedState P) (other : String)
      → exists_conn_pool (reset_db_list x list s).1 other ≡ exists_conn_pool s other
  unfolding reset_db_list
  exists_conn_pool-reset_db_list (err e) s other = refl
  exists_conn_pool-reset_db_list (ok list) s other =
      exists_conn_pool-get_conn_pool (reset_db_loop x list s).1 other
      ∙ loop_there list s other
      ∙ sym (exists_conn_pool-get_conn_pool s other)

  reset_db_loop_lem :
      (list : Dict String ConnConfig) (s : SharedState P)
      → Distinct str_dec list
      → ((other : String)
          → lookup str_dec other list ≡ none
          → get_conn_pool (reset_db_loop x list s).1 other ≡ get_conn_pool s other)
        × ((ident : String) (info : ConnConfig)
            → (reset_db_loop x list s).0 ≡ ok tt
            → lookup str_dec ident list ≡ some info
            → Reaches (reset_db_loop x list s).1 ident info)
  unfolding reset_db_loop lookup
  reset_db_loop_lem [] s h = (λ other e. refl, λ ident info r e. cc)
  reset_db_loop_lem ((i, c) ∷ list) s h =
      let s1 = (reset_db x i c s).1 in
      let (away, there, reach) = reset_db_lem i c s in
      let (away', reach') = reset_db_loop_lem list s1 h.1 in
      elim (Result-cases (reset_db x i c s).0) [
        | inr (e, n) ↦ (
          λ other k. elim (str_dec i other) [
            | yes same ↦ ground (arith, k)
            | no d ↦ ground (arith, n, away other d)
          ],
          λ ident info r k. ground (arith, n, r),
        )
        | inl (u, n) ↦ (
          λ other k. elim (str_dec i other) [
            | yes same ↦ ground (arith, k)
            | no d ↦ ground (arith, n, k, away other d, away' other)
          ],
          λ ident info r k. elim (str_dec i ident) [
            | yes same ↦
                let (p, g, a, b) = reach n in
                let old : get_conn_pool s1 ident ≡ ok p = ap (get_conn_pool s1) (sym same) ∙ g in
                let gone : lookup str_dec ident list ≡ none =
                  ap (λ z. lookup str_dec z list) (sym same) ∙ h.0 in
                (
                  p,
                  ground (arith, n, away' ident gone, old),
                  ground (arith, k, a),
                  ground (arith, k, b),
                )
            | no d ↦
                let (p, g, a, b) = reach' ident info (ground (arith, n, r)) (ground (arith, k)) in
                (p, ground (arith, n, g), a, b)
          ],
        )
      ]

  -- A reset by a list without repeated idents never gives an ident its first pool, nor takes the last
  -- one away, whatever it returns; when it returns no error, every ident of the list has a pool that
  -- goes to the server and the database of its configuration, and all idents out of it keep theirs.
  pub reset_db_list-Reaches :
      (list : Dict String ConnConfig) (s : SharedState P)
      → Distinct str_dec list
      → ((other : String)
          → exists_conn_pool (reset_db_list x (ok list) s).1 other ≡ exists_conn_pool s other)
        × ((ident : String) (info : ConnConfig)
            → (reset_db_list x (ok list) s).0 ≡ ok tt
            → lookup str_dec ident list ≡ some info
            → Reaches (reset_db_list x (ok list) s).1 ident info)
        × ((other : String)
            → lookup str_dec other list ≡ none
            → get_conn_pool (reset_db_list x (ok list) s).1 other ≡ get_conn_pool s other)
  unfolding reset_db_list
  reset_db_list-Reaches list s h =
      let (away, reach) = reset_db_loop_lem list s h in
      (exists_conn_pool-reset_db_list (ok list) s, reach, away)
