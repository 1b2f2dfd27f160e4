-- ===== src/Syncd/Plans.antt =====
-- What a reset of the scripts leaves in the map of plans.
use oncecall.Prelude.{
  ◌≡◌, ◌≢◌, refl, sym, ap, ◌∙◌, ◌⊎◌, inl, inr, Bool, true, false, Bool-cases, Option, none, some,
  Option-cases, List, [], ◌∷◌, arith, ite, String, str_dec, Dict, lookup, keys, contains, Separate,
  Distinct, keys-Separate, lookup_missing, contains_missing, if◌then◌else◌,
}
use oncecall.SharedState.SyncMap.{load, store, delete, load-store, load-delete, load-keys}
use oncecall.Syncd.{
  Script, PlanData, script_at, new_plan_data, remove_missing, reset_one, reset_loop,
  reset_script_plan,
}

module _ {H A : Type 0} where
  remove_missing_lem :
      (ks rest : List String) (m : Dict String (PlanData H A)) (j : String)
      → load str_dec (remove_missing ks rest m) j ≡ (
          if contains str_dec ks j
          then load str_dec m j
          else if contains str_dec rest j
          then none
          else load str_dec m j)
  unfolding remove_missing contains
  remove_missing_lem ks [] m j = ground arith
  remove_missing_lem ks (key ∷ rest) m j = elim (Bool-cases (contains str_dec ks key)) [
    | inl c ↦ elim (str_dec key j) [
      | yes e ↦
          let d : contains str_dec ks j ≡ true = ap (contains str_dec ks) (sym e) ∙ c in
          ground (arith, remove_missing_lem ks rest m j)
      | no n ↦ ground (arith, remove_missing_lem ks rest m j)
    ]
    | inr c ↦ elim (str_dec key j) [
      | yes e ↦
          let d : contains str_dec ks j ≡ false = ap (contains str_dec ks) (sym e) ∙ c in
          ground (
            arith,
            remove_missing_lem ks rest (delete str_dec m key) j,
            load-delete str_dec m key j,
          )
      | no n ↦
          ground (
            arith,
            remove_missing_lem ks rest (delete str_dec m key) j,
            load-delete str_dec m key j,
          )
    ]
  ]

  -- Only the scripts of the list are left.
  kept :
      (ks : List String) (m : Dict String (PlanData H A)) (j : String)
      → load str_dec (remove_missing ks (keys m) m) j
        ≡ (if contains str_dec ks j then load str_dec m j else none)
  kept ks m j = elim (Bool-cases (contains str_dec (keys m) j)) [
    | inl c ↦ ground (arith, remove_missing_lem ks (keys m) m j)
    | inr c ↦ ground (arith, remove_missing_lem ks (keys m) m j, load-keys str_dec m j c)
  ]

  module _ (hash_dec : Discrete H) (sync_ident : String) where
    -- The plan that a script is to have: the one that is there if it was made from the same text, and
    -- else a new one, which a script without an option cannot have.
    abbrev pub wanted : String → H × Script → Option (PlanData H A) → Option (PlanData H A)
    wanted k data_ none = new_plan_data sync_ident k data_
    wanted k data_ (some old) =
        ite (hash_dec old.hash data_.0) (some old) (new_plan_data sync_ident k data_)

    reset_one-none :
        (k : String) (data_ : H × Script) (m : Dict String (PlanData H A))
        → wanted k data_ (load str_dec m k) ≡ none
        → reset_one hash_dec sync_ident k data_ m ≡ none
    unfolding reset_one
    reset_one-none k data_ m h = elim (Option-cases (load str_dec m k)) [
      | inl e ↦ ground (arith, e)
      | inr (old, e) ↦ ground (arith, e)
    ]

    reset_one-some :
        (k : String) (data_ : H × Script) (m : Dict String (PlanData H A)) (p : PlanData H A)
        → wanted k data_ (load str_dec m k) ≡ some p
        → (m' : Dict String (PlanData H A)) × (reset_one hash_dec sync_ident k data_ m ≡ some m')
          × ((j : String) → load str_dec m' j ≡ ite (str_dec k j) (some p) (load str_dec m j))
    unfolding reset_one
    reset_one-some k data_ m p h = elim (Option-cases (load str_dec m k)) [
      | inl e ↦ (store str_dec m k p, ground (arith, e), λ j. load-store str_dec m k j p)
      | inr (old, e) ↦ elim (hash_dec old.hash data_.0) [
        | yes same ↦ (
          m,
          ground (arith, e),
          λ j. elim (str_dec k j) [
            | yes q ↦
                let f : load str_dec m j ≡ some old = ap (load str_dec m) (sym q) ∙ e in
                ground (arith, e)
            | no n ↦ ground (arith, e)
          ],
        )
        | no new ↦ (
          store str_dec (delete str_dec m k) k p,
          ground (arith, e),
          λ j.
              ground
                (arith, load-store str_dec (delete str_dec m k) k j p, load-delete str_dec m k j),
        )
      ]
    ]

    module _ (zero : H × Script) (list : Dict String (H × Script)) where
      -- What the script `k` is to have after the loop over the map `m`.
      abbrev due : Dict String (PlanData H A) → String → Option (PlanData H A)
      due m k = wanted k (script_at zero list k) (load str_dec m k)

      abbrev Done : List String → Dict String (PlanData H A) → Dict String (PlanData H A) → Type 0
      Done ks m m' =
          (j : String)
          → (load str_dec m' j ≡ (if contains str_dec ks j then due m j else load str_dec m j))
            × (contains str_dec ks j ≡ true → load str_dec m' j ≢ none)

      abbrev Refused : List String → Dict String (PlanData H A) → Type 0
      Refused ks m = (k : String) × (contains str_dec ks k ≡ true) × (due m k ≡ none)

      cons-Done :
          (k : String) (ks : List String) (m m1 m' : Dict String (PlanData H A)) (p : PlanData H A)
          → contains str_dec ks k ≡ false
          → due m k ≡ some p
          → ((j : String) → load str_dec m1 j ≡ ite (str_dec k j) (some p) (load str_dec m j))
          → Done ks m1 m'
          → Done (k ∷ ks) m m'
      unfolding contains
      cons-Done k ks m m1 m' p s e l d j = elim (str_dec k j) [
        | yes q ↦
            let c : contains str_dec ks j ≡ false = ap (contains str_dec ks) (sym q) ∙ s in
            let f : due m j ≡ some p = ap (due m) (sym q) ∙ e in ground (arith, l j, d j)
        | no n ↦ ground (arith, l j, d j)
      ]

      reset_loop_lem :
          (ks : List String) (m : Dict String (PlanData H A))
          → Separate str_dec ks
          → ((m' : Dict String (PlanData H A)) × (reset_loop hash_dec sync_ident zero list ks m
                ≡ some m')
              × Done ks m m')
            ⊎ ((reset_loop hash_dec sync_ident zero list ks m ≡ none) × Refused ks m)
      unfolding reset_loop contains
      reset_loop_lem [] m s = inl (m, refl, λ j. (refl, λ c. cc))
      reset_loop_lem (k ∷ ks) m s = elim (Option-cases (due m k)) [
        | inl e ↦
            let r = reset_one-none k (script_at zero list k) m e in
            inr (ground (arith, r), (k, ground arith, e))
        | inr (p, e) ↦
            let (m1, r, l) = reset_one-some k (script_at zero list k) m p e in
            elim (reset_loop_lem ks m1 s.1) [
              | inl (m', q, d) ↦ inl (m', ground (arith, r, q), cons-Done k ks m m1 m' p s.0 e l d)
              | inr (q, (j, c, w)) ↦
                  let n : k ≢ j = λ z. cc (s.0, c, z) in
                  inr (ground (arith, r, q), (j, ground (arith, c, n), ground (arith, w, l j, n)))
            ]
      ]

      due_kept :
          (m : Dict String (PlanData H A)) (ks : List String) (j : String) (b : Bool)
          → contains str_dec ks j ≡ b
          → due (remove_missing ks (keys m) m) j
            ≡ (if b then due m j else wanted j (script_at zero list j) none)
      due_kept m ks j b c = ground (arith, kept ks m j, c)

      refused_option :
          (k : String) (old : Option (PlanData H A)) (d : H × Script)
          → wanted k d old ≡ none
          → d.1.option ≡ none
      unfolding new_plan_data
      refused_option k old d h = ground arith

      -- The plans after a reset by a list of scripts without repeated names, over any map of plans:
      -- just the scripts of the list have a plan, the old one, with its state, if the text is the same,
      -- and else a new one; or the reset panics, and then a script of the list has no option.
      pub reset_script_plan_cases :
          (m : Dict String (PlanData H A))
          → Distinct str_dec list
          → ((m' : Dict String (PlanData H A)) × (reset_script_plan hash_dec sync_ident zero
                  (keys list)
                  list
                  m
                ≡ some m')
              × ((j : String)
                  → load str_dec m' j ≡ elim (lookup str_dec j list) [
                    | none ↦ none
                    | some d ↦ wanted j d (load str_dec m j)
                  ])
              × ((j : String) → lookup str_dec j list ≢ none → load str_dec m' j ≢ none))
            ⊎ ((reset_script_plan hash_dec sync_ident zero (keys list) list m ≡ none)
                × ((k : String) × (d : H × Script) × (lookup str_dec k list ≡ some d)
                    × (d.1.option ≡ none)))
      unfolding reset_script_plan
      reset_script_plan_cases m h =
          let rest = remove_missing (keys list) (keys m) m in
          elim (reset_loop_lem (keys list) rest (keys-Separate str_dec list h)) [
            | inl (m', r, d) ↦ inl (
              m',
              r,
              λ j. elim (Bool-cases (contains str_dec (keys list) j)) [
                | inl c ↦ elim (Option-cases (lookup str_dec j list)) [
                  | inl e ↦ absurd (cc (contains_missing str_dec list j e, c))
                  | inr (x, e) ↦ ground (arith, d j, c, e, due_kept m (keys list) j true c)
                ]
                | inr c ↦
                    ground (arith, d j, c, kept (keys list) m j, lookup_missing str_dec list j c)
              ],
              λ j n. elim (Bool-cases (contains str_dec (keys list) j)) [
                | inl c ↦ (d j).1 c
                | inr c ↦ absurd (n (lookup_missing str_dec list j c))
              ],
            )
            | inr (r, (k, c, w)) ↦ elim (Option-cases (lookup str_dec k list)) [
              | inl e ↦ absurd (cc (contains_missing str_dec list k e, c))
              | inr (d, e) ↦
                  inr
                    (r, (k, d, e, refused_option k (load str_dec rest k) d (ground (arith, w, e))))
            ]
          ]
