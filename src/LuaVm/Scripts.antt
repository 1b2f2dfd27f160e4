-- ===== src/LuaVm/Scripts.antt =====
-- Do of lua_vm.go, for any script: what it does is the sequence of its calls, each with what it does next.
use oncecall.Prelude.{
  ◌≡◌, Bool, true, false, Option, none, some, List, [], arith, String, Dict, str_dec, Result, ok,
  err, map,
}
use oncecall.SharedState.SyncMap.{load, store, delete}
use oncecall.LuaVm.{Top, Any, Interp, Error, get_data, put_data}
use oncecall.LuaVm.Data.{normal, RowsPass, put_data-get_data}

abbrev is_there : {A : Type 0} → Option A → Bool
is_there none = false
is_there (some v) = true

module _ (x : Interp) (E : Type 0) where
  open x use {N}

  -- A call that fails raises an error, which the script may catch. `key` is none for a key that is no text.
  pub data Script : Type 0 where
    done : Script
    fail : E → Script
    get : (Top N → Script) → (Error → Script) → Script
    put : Top N → Script → (Error → Script) → Script
    cache_get : (key : Option String) → (Bool → Script) → Script
    cache_set : (key : Option String) → Top N → Script → Script
    cache_del : (key : Option String) → Script → Script

  -- `cache` is tempGPtrMap, which the caller keeps.
  pub record Vm : Type 0 where
    pub input : List (List (Any N))
    pub output : List (List (Any N))
    pub cache : Dict String (Top N)

module _ (x : Interp) {E : Type 0} where
  open x use {N}

  -- A get of the cache gives a userdata, or nil.
  abbrev there : Option String → Vm x E → Bool
  there none vm = false
  there (some key) vm = is_there (load str_dec vm.cache key)

  abbrev with_cache : Vm x E → Dict String (Top N) → Vm x E
  with_cache vm cache = record vm { cache = cache }

  abbrev set_cache : Option String → Top N → Vm x E → Vm x E
  set_cache none v vm = vm
  set_cache (some key) v vm = with_cache vm (store str_dec vm.cache key v)

  abbrev del_cache : Option String → Vm x E → Vm x E
  del_cache none vm = vm
  del_cache (some key) vm = with_cache vm (delete str_dec vm.cache key)

  abbrev set_output : Vm x E → List (List (Any N)) → Vm x E
  set_output vm output = record vm { output = output }

  -- The script on the functions that are registered.
  unfoldable pub run : Script x E → Vm x E → Option E × Vm x E
  run done vm = (none, vm)
  run (fail e) vm = (some e, vm)
  run (get next catch) vm = elim (get_data x vm.input) [
    | ok top ↦ run (next top) vm
    | err e ↦ run (catch e) vm
  ]
  run (put v next catch) vm = elim (put_data x v vm.output).0 [
    | none ↦ run next (set_output vm (put_data x v vm.output).1)
    | some e ↦ run (catch e) (set_output vm (put_data x v vm.output).1)
  ]
  run (cache_get key next) vm = run (next (there key vm)) vm
  run (cache_set key v next) vm = run next (set_cache key v vm)
  run (cache_del key next) vm = run next (del_cache key vm)

  -- Before and after DoString: an output that is empty is not told from none.
  abbrev pub before : Dict String (Top N) → List (List (Any N)) → Vm x E → Vm x E
  before cache data_ vm = record vm { input = data_; cache = cache }

  abbrev after : Option E × Vm x E → Result E (List (List (Any N))) × Vm x E
  after (some e, vm) = (err e, record vm { input = [] })
  after (none, vm) = (ok vm.output, record vm { input = []; output = [] })

  pub do_script :
      Dict String (Top N)
      → Script x E
      → List (List (Any N))
      → Vm x E
      → Result E (List (List (Any N))) × Vm x E
  unfolding run
  do_script cache script data_ vm = after (run script (before cache data_ vm))

  -- A script that puts its input back as it got it.
  abbrev pub echo : (Error → E) → Script x E
  echo e = get (λ top. put top done (λ f. fail (e f))) (λ f. fail (e f))

  -- Do of a script that passes its input on returns the rows in their normal form, whatever an earlier
  -- script has put, and leaves neither input nor output behind.
  pub do_script-echo :
      (e : Error → E) (cache : Dict String (Top N)) (rows : List (List (Any N))) (vm : Vm x E)
      → RowsPass rows
      → do_script cache (echo e) rows vm
        ≡ (ok (map (map (normal x)) rows), record { input = []; output = []; cache = cache })
  unfolding do_script run
  do_script-echo e cache rows vm h =
      let (top, a, b) = put_data-get_data x rows vm.output h in ground (arith, a, b)
