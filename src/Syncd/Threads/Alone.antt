-- ===== src/Syncd/Threads/Alone.antt =====
-- That the goroutines of one plan never run together.
use oncecall.Prelude.{
  ◌+◌, ◌≤◌, ◌≡◌, sym, ap, ◌∙◌, subst, inl, inr, Bool-cases, List, [], ◌∷◌, ◌++◌, arith, ite, ltb,
}
use oncecall.SharedState.{
  ThreadKey, key_dec, get_thread_state, set_running_thread_state, set_stop_thread_state,
}
use oncecall.SharedState.Pools.{get_thread_state_cases}
use oncecall.Syncd.Threads.{Threads, occurs, visit, Step, visits, begins, ends, Reach, here, next}

occurs-append :
    (before after : List ThreadKey) (k : ThreadKey)
    → occurs (before ++ after) k ≡ occurs before k + occurs after k
occurs-append [] after k = omega arith
occurs-append (j ∷ before) after k = ground (arith, occurs-append before after k)

occurs-middle :
    (before after : List ThreadKey) (j k : ThreadKey)
    → occurs (before ++ j ∷ after) k ≡ ite (key_dec j k) 1 0 + occurs (before ++ after) k
occurs-middle before after j k =
    ground (arith, occurs-append before (j ∷ after) k, occurs-append before after k)

module _ {P : Type 0} where
  -- A plan has at most one goroutine, and the marks say which run.
  pub record Alone (t : Threads P) : Type 0 where
    pub single : (k : ThreadKey) → occurs t.starting k + occurs t.running k ≤ 1
    pub marked : (k : ThreadKey) → (get_thread_state t.shared k).0 ≡ ltb 0 (occurs t.running k)

  visit-Alone :
      (ik : ThreadKey) (t : Threads P) → occurs t.starting ik ≡ 0 → Alone t → Alone (visit ik t)
  unfolding visit
  visit-Alone ik t o h = elim (Bool-cases (get_thread_state t.shared ik).0) [
    | inl r ↦ let e : visit ik t ≡ t = ground (arith, r) in subst Alone (sym e) h
    | inr r ↦
        let e : visit ik t ≡ record t { starting = ik ∷ t.starting } = ground (arith, r) in
        let still : occurs t.running ik ≡ 0 = ground (arith, r, h.marked ik) in
        let s : Alone (record t { starting = ik ∷ t.starting }) = record {
          single = λ k. elim (key_dec ik k) [
            | yes same ↦
                let a : occurs t.starting k ≡ 0 = ap (occurs t.starting) (sym same) ∙ o in
                let b : occurs t.running k ≡ 0 = ap (occurs t.running) (sym same) ∙ still in
                ground (arith, a, b)
            | no d ↦ ground (arith, h.single k)
          ];
          marked = h.marked;
        } in
        subst Alone (sym e) s
  ]

  begin-Alone :
      (before after : List ThreadKey) (ik : ThreadKey) (t : Threads P)
      → t.starting ≡ before ++ ik ∷ after
      → Alone t
      → Alone (record {
        shared = set_running_thread_state t.shared ik;
        starting = before ++ after;
        running = ik ∷ t.running;
      })
  begin-Alone before after ik t e h = record {
    single = λ k.
        let c = ap (λ l. occurs l k) e in
        ground (arith, h.single k, c, occurs-middle before after ik k);
    marked = λ k. ground (arith, h.marked k, (get_thread_state_cases t.shared ik k).0);
  }

  end-Alone :
      (before after : List ThreadKey) (ik : ThreadKey) (t : Threads P)
      → t.running ≡ before ++ ik ∷ after
      → Alone t
      → Alone (record t { shared = set_stop_thread_state t.shared ik; running = before ++ after })
  end-Alone before after ik t e h = record {
    single = λ k.
        let c = ap (λ l. occurs l k) e in
        ground (arith, h.single k, c, occurs-middle before after ik k);
    marked = λ k.
        let c = ap (λ l. occurs l k) e in
        ground (
          arith,
          h.single k,
          c,
          occurs-middle before after ik k,
          h.marked k,
          (get_thread_state_cases t.shared ik k).1,
        );
  }

  Step-Alone : (t u : Threads P) → Step t u → Alone t → Alone u
  Step-Alone t u (visits ik o e) h = subst Alone (sym e) (visit-Alone ik t o h)
  Step-Alone t u (begins before after ik k e) h =
      subst Alone (sym e) (begin-Alone before after ik t k h)
  Step-Alone t u (ends before after ik k e) h =
      subst Alone (sym e) (end-Alone before after ik t k h)

  -- In every run in which a key is visited only when no goroutine of it is about to set its mark, a plan
  -- never has two goroutines, and a plan is marked as running exactly while one of its goroutines runs.
  pub Reach-Alone : (t u : Threads P) → Reach t u → Alone t → Alone u
  Reach-Alone t u here h = h
  Reach-Alone t u (next {u = v} r s) h = Step-Alone v u s (Reach-Alone t v r h)
