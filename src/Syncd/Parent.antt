-- ===== src/Syncd/Parent.antt =====
-- IsParentRunning of entry/syncd/proc_sync_linux.go. Texts are lists of bytes.
use oncecall.Prelude.{
  ℕ, suc, ◌+◌, ◌≡◌, ◌≢◌, refl, ap, ◌∙◌, Bool, true, false, ◌&&◌, not, Option, none, some, List, [],
  ◌∷◌, ◌++◌, arith, length, get_elem?, ◌==◌, if◌then◌else◌, ℤ, pos, ltb_ℤ,
}

-- strings.LastIndex for a text of one byte.
abbrev later : ℕ → Bool → Option ℕ → Option ℕ
later i here (some j) = some j
later i here none = if here then some i else none

pub last_index : ℕ → ℕ → List ℕ → Option ℕ
last_index b i [] = none
last_index b i (c ∷ l) = later i (c == b) (last_index b (suc i) l)

-- The byte after the last ")" and a space: not 'Z' and not 'X'.
abbrev state_of : List ℕ → Option ℕ → Bool
state_of stat none = false
state_of stat (some idx) = elim (get_elem? stat (idx + 2)) [
  | none ↦ false
  | some state ↦ not (state == 90) && not (state == 88)
]

-- `stat` is what reading /proc/<ppid>/stat gives, or none if it fails.
pub is_parent_running : ℤ → Option (List ℕ) → Bool
unfolding last_index
is_parent_running ppid none = false
is_parent_running ppid (some stat) =
    if ltb_ℤ (pos 0) ppid then state_of stat (last_index 41 0 stat) else false

-- No byte of the text is `b`.
abbrev pub Without : ℕ → List ℕ → Type 0
Without b [] = Unit
Without b (c ∷ l) = (c ≢ b) × Without b l

last_index-none : (b i : ℕ) (l : List ℕ) → Without b l → last_index b i l ≡ none
unfolding last_index
last_index-none b i [] h = refl
last_index-none b i (c ∷ l) h = ground (arith, last_index-none b (suc i) l h.1, h.0)

last_index-append :
    (b i : ℕ) (before after : List ℕ)
    → Without b after
    → last_index b i (before ++ b ∷ after) ≡ some (i + length before)
unfolding last_index
last_index-append b i [] after h = ground (arith, last_index-none b (suc i) after h)
last_index-append b i (c ∷ before) after h =
    ground (arith, last_index-append b (suc i) before after h)

get_elem?-append :
    (before : List ℕ) (a s c : ℕ) (after : List ℕ)
    → get_elem? (before ++ a ∷ s ∷ c ∷ after) (length before + 2) ≡ some c
get_elem?-append [] a s c after = refl
get_elem?-append (b ∷ before) a s c after =
    let shift : suc (length before) + 2 ≡ suc (length before + 2) = omega arith in
    ap (get_elem? ((b ∷ before) ++ a ∷ s ∷ c ∷ after)) shift ∙ get_elem?-append before a s c after

-- The parent counts as running just when its state is neither Z nor X, whatever the name of its program
-- is, brackets and spaces included: the line of the kernel has the name between the first "(" and the
-- last ")", and after that a space and the state.
pub is_parent_running-stat :
    (ppid : ℤ) (front rest : List ℕ) (state : ℕ)
    → ltb_ℤ (pos 0) ppid ≡ true
    → state ≢ 41
    → Without 41 rest
    → is_parent_running ppid (some (front ++ 41 ∷ 32 ∷ state ∷ rest))
      ≡ not (state == 90) && not (state == 88)
unfolding is_parent_running
is_parent_running-stat ppid front rest state h n w = ground (
  arith,
  last_index-append 41 0 front (32 ∷ state ∷ rest) (ground arith, (n, w)),
  get_elem?-append front 41 32 state rest,
)
