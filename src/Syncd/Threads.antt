-- ===== src/Syncd/Threads.antt =====
-- syncdBackground of entry/syncd.go, and the goroutines that it starts. Each runs its plan between the
-- marks of the shared state; its steps, and the visits of the loop, come in any order.
pub mod Alone
pub mod Runs
use oncecall.Prelude.{
  ℕ, suc, ◌+◌, ◌≤◌, ◌≡◌, ◌≢◌, refl, sym, ap, ◌∙◌, subst, inl, inr, ◌⊎◌, Bool, true, false,
  Bool-cases, List, [], ◌∷◌, ◌++◌, arith, ite, ltb, if◌then◌else◌, String, contains, str_dec,
}
use oncecall.SharedState.{
  ThreadKey, key_dec, SharedState, get_thread_state, set_running_thread_state,
  set_stop_thread_state,
}
use oncecall.SharedState.Pools.{get_thread_state_cases}

-- The goroutines that have not set their mark yet, and those that run their plan.
pub record Threads (P : Type 0) : Type 0 where
  pub shared : SharedState P
  pub starting : List ThreadKey
  pub running : List ThreadKey

-- How often a key stands in a list.
abbrev pub occurs : List ThreadKey → ThreadKey → ℕ
occurs [] k = 0
occurs (j ∷ l) k = ite (key_dec j k) (suc (occurs l k)) (occurs l k)

module _ {P : Type 0} where
  -- The body of the Range: a plan whose thread is not marked as running gets one.
  pub visit : ThreadKey → Threads P → Threads P
  visit ik t =
      if (get_thread_state t.shared ik).0 then t else record t { starting = ik ∷ t.starting }

  -- One Range over the scripts of the plan map, with nothing in between.
  pub range : String → List String → Threads P → Threads P
  unfolding visit
  range sync_ident [] t = t
  range sync_ident (k ∷ ks) t = range sync_ident ks (visit (sync_ident, k) t)

  -- A step of the loop or of a goroutine. A key is visited only when no goroutine of it is about to set
  -- its mark: visits of one key are a second apart.
  pub data Step (t u : Threads P) : Type 0 where
    visits : (ik : ThreadKey) → occurs t.starting ik ≡ 0 → u ≡ visit ik t → Step t u
    begins :
        (before after : List ThreadKey) (ik : ThreadKey)
        → t.starting ≡ before ++ ik ∷ after
        → u ≡ record {
          shared = set_running_thread_state t.shared ik;
          starting = before ++ after;
          running = ik ∷ t.running;
        }
        → Step t u
    ends :
        (before after : List ThreadKey) (ik : ThreadKey)
        → t.running ≡ before ++ ik ∷ after
        → u ≡ record t { shared = set_stop_thread_state t.shared ik; running = before ++ after }
        → Step t u

  pub data Reach (t : Threads P) : Threads P → Type 0 where
    here : Reach t t
    next : {u v : Threads P} → Reach t u → Step u v → Reach t v
