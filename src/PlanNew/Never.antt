-- ===== src/PlanNew/Never.antt =====
-- What becomes of a plan of plan_impl.go.
use oncecall.Prelude.{◌≡◌, refl, ap, ◌∙◌, Bool, false, Option, List, [], ◌∷◌, String}
use oncecall.Prelude.Outcome.{failed, panicked}
use oncecall.Plan.Config.{ScriptConfig, Shared}
use oncecall.PlanNew.{already_init, InitOption, PlanV1, zero_plan, init, init_self, run}

module _ {E A : Type 0} (x : Shared E A) where
  open x use {W}

  abbrev pub Call : Type 0
  Call = String × ScriptConfig × Option InitOption

  -- The plan after a sequence of calls of Init.
  abbrev pub inits : List Call → PlanV1 → PlanV1
  inits [] p = p
  inits ((sync_ident, conf, option) ∷ calls) p = inits calls (init x sync_ident conf option p).1

  init_refused :
      (sync_ident : String) (conf : ScriptConfig) (option : Option InitOption)
      → init x sync_ident conf option zero_plan ≡ (failed already_init, zero_plan)
  unfolding init
  init_refused sync_ident conf option = refl

  inits_zero : (calls : List Call) → inits calls zero_plan ≡ zero_plan
  inits_zero [] = refl
  inits_zero ((sync_ident, conf, option) ∷ calls) =
      ap (λ r. inits calls r.1) (init_refused sync_ident conf option) ∙ inits_zero calls

  -- After any number of calls of Init on a new plan the next one fails as well, and Run panics before it
  -- calls anything, whatever the marks of the state are, unless both are set, and nothing sets them.
  pub run-inits :
      (calls : List Call) (next : Call) (is_init_other : Bool) (w : W)
      → ((init x next.0 next.1 next.2 (inits calls zero_plan)).0 ≡ failed already_init)
        × (run x false is_init_other (inits calls zero_plan) w ≡ (panicked, w))
  unfolding run init_self
  run-inits calls next is_init_other w =
      let z = inits_zero calls in
      (
        ap (λ p. (init x next.0 next.1 next.2 p).0) z
            ∙ ap (λ r. r.0) (init_refused next.0 next.1 next.2),
        ap (λ p. run x false is_init_other p w) z,
      )
