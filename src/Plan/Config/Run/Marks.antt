-- ===== src/Plan/Config/Run/Marks.antt =====
-- The marks that Run of script_plan.go sets.
use oncecall.Prelude.{
  Bool-cases, ◌≡◌, ◌≢◌, refl, ◌∙◌, inl, inr, ◌⊎◌, true, false, none, arith, ℤ, String,
}
use oncecall.Prelude.Outcome.{Outcome, returned, failed, panicked}
use oncecall.Plan.Config.{ScriptConfig, Rows, Shared}
use oncecall.Plan.Config.Run.{
  no_pool, RunError, State, Act, after, init, run_read, run_write, set_seq, run,
}
use oncecall.Plan.Config.Run.Keeps.{Keeps, run_read-Keeps, run_write-Keeps, init-Keeps}

module _ {E A : Type 0} (x : Shared E A) (text : String → A) where
  -- The step ends by storing `seq`: it returns just when it has.
  abbrev Stores : ℤ → Act x text (Unit {0}) → Type 0
  Stores seq m =
      (s : State x text)
      → (((m s).0 ≡ returned tt) × ((m s).1.seq ≡ seq) × ((m s).1.is_init ≡ s.is_init))
        ⊎ (((m s).0 ≢ returned tt) × ((m s).1.seq ≡ s.seq) × ((m s).1.is_init ≡ s.is_init))

  after-Stores :
      {B : Type 0} (seq : ℤ) (f : B → Act x text (Unit {0}))
      (r : Outcome (RunError E) B × State x text)
      → ((b : B) → Stores seq (f b))
      → (((after x text f r).0 ≡ returned tt)
          × ((after x text f r).1.seq ≡ seq)
          × ((after x text f r).1.is_init ≡ r.1.is_init))
        ⊎ (((after x text f r).0 ≢ returned tt)
            × ((after x text f r).1.seq ≡ r.1.seq)
            × ((after x text f r).1.is_init ≡ r.1.is_init))
  after-Stores seq f (returned b, s) h = h b s
  after-Stores seq f (failed e, s) h = inr ((λ p. cc), refl, refl)
  after-Stores seq f (panicked, s) h = inr ((λ p. cc), refl, refl)

  bind-Stores :
      {B : Type 0} (seq : ℤ) (m : Act x text B) (f : B → Act x text (Unit {0}))
      → Keeps x text m
      → ((b : B) → Stores seq (f b))
      → Stores seq (λ s. after x text f (m s))
  bind-Stores seq m f h k s = elim (after-Stores seq f (m s) k) [
    | inl (a, b, c) ↦ inl (a, b, c ∙ (h s).1)
    | inr (a, b, c) ↦ inr (a, b ∙ (h s).0, c ∙ (h s).1)
  ]

  -- What a run does after `init`.
  abbrev body : ScriptConfig → String → ℤ → Act x text (Unit {0})
  body config ident seq s =
      after x text
        (λ (data_ : Rows A). λ s'.
          after x text (λ (_ : Unit {0}). set_seq x text seq)
            (run_write x text config.sync ident data_ seq s'))
        (run_read x text config.read seq s)

  body-Stores :
      (config : ScriptConfig) (ident : String) (seq : ℤ) → Stores seq (body config ident seq)
  body-Stores config ident seq =
      bind-Stores {B = Rows A} seq (run_read x text config.read seq) _
        (run_read-Keeps x text config.read seq)
        (λ data_.
          bind-Stores {B = Unit {0}} seq (run_write x text config.sync ident data_ seq) _
            (run_write-Keeps x text config.sync ident data_ seq) (λ _ s. inl (refl, refl, refl)))

  marks_after :
      (seq : ℤ) (m : Act x text (Unit {0}))
      → Stores seq m
      → (r : Outcome (RunError E) (Unit {0}) × State x text)
      → (((after x text (λ _ s. m (record s { is_init = true })) r).0 ≡ returned tt)
          × ((after x text (λ _ s. m (record s { is_init = true })) r).1.seq ≡ seq)
          × ((after x text (λ _ s. m (record s { is_init = true })) r).1.is_init ≡ true))
        ⊎ (((after x text (λ _ s. m (record s { is_init = true })) r).0 ≢ returned tt)
            × ((after x text (λ _ s. m (record s { is_init = true })) r).1.seq ≡ r.1.seq)
            × (((r.0 ≡ returned tt)
                  × ((after x text (λ _ s. m (record s { is_init = true })) r).1.is_init ≡ true))
                ⊎ ((r.0 ≢ returned tt)
                    × ((after x text (λ _ s. m (record s { is_init = true })) r).1.is_init
                        ≡ r.1.is_init))))
  marks_after seq m h (returned b, s) = elim (h (record s { is_init = true })) [
    | inl k ↦ inl k
    | inr (a, b', c) ↦ inr (a, b', inl (refl, c))
  ]
  marks_after seq m h (failed e, s) = inr ((λ p. cc), refl, inr ((λ p. cc), refl))
  marks_after seq m h (panicked, s) = inr ((λ p. cc), refl, inr ((λ p. cc), refl))

  -- A run that returns has stored the clock as its seq and marked the plan as initialised; one that
  -- fails or panics keeps the seq of the run before, and it has set the mark just when `init` returned.
  pub run_marks :
      (config : ScriptConfig) (ident : String) (seq : ℤ) (s : State x text)
      → (((run x text config ident seq s).0 ≡ returned tt)
          × ((run x text config ident seq s).1.seq ≡ seq)
          × ((run x text config ident seq s).1.is_init ≡ true))
        ⊎ (((run x text config ident seq s).0 ≢ returned tt)
            × ((run x text config ident seq s).1.seq ≡ s.seq)
            × ((((init x text config ident s).0 ≡ returned tt)
                  × ((run x text config ident seq s).1.is_init ≡ true))
                ⊎ (((init x text config ident s).0 ≢ returned tt)
                    × ((run x text config ident seq s).1.is_init ≡ s.is_init))))
  unfolding run
  run_marks config ident seq s =
      elim (marks_after seq (body config ident seq) (body-Stores config ident seq)
        (init x text config ident s)) [
          | inl h ↦ inl h
          | inr (a, b, inl h) ↦ inr (a, b ∙ (init-Keeps x text config ident s).0, inl h)
          | inr (a, b, inr (n, k)) ↦ inr (
            a,
            b ∙ (init-Keeps x text config ident s).0,
            inr (n, k ∙ (init-Keeps x text config ident s).1),
          )
        ]

  -- A script without an `init` table does nothing on a plan that is initialised; on any other it panics,
  -- at the read of p.Init.Self, if the plan's own pool is there, and fails if it is not, and so does the
  -- whole run. No call is made.
  pub init_cases :
      (config : ScriptConfig) (ident : String) (seq : ℤ) (s : State x text)
      → config.init ≡ none
      → ((s.is_init ≡ true) × (init x text config ident s ≡ (returned tt, s)))
        ⊎ (((s.is_init ≡ false)
              × (x.has_pool ident ≡ true)
              × (run x text config ident seq s ≡ (panicked, s)))
            ⊎ ((s.is_init ≡ false)
                × (x.has_pool ident ≡ false)
                × (run x text config ident seq s ≡ (failed (no_pool ident), s))))
  unfolding run init
  init_cases config ident seq s n = elim (Bool-cases s.is_init) [
    | inl d ↦ inl (d, ground arith)
    | inr f ↦ elim (Bool-cases (x.has_pool ident)) [
      | inl h ↦ inr (inl (f, h, ground arith))
      | inr h ↦ inr (inr (f, h, ground arith))
    ]
  ]
