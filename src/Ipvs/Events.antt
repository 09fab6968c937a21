-- ===== src/Ipvs/Events.antt =====
-- internal/ipvs/event_handler.go: FindObjectsForNode, with the goroutine that it starts, and
-- `ProcessingNodes`, which is to keep a second goroutine from the same node. The calls of
-- strconv.ParseFloat are `is_float`: whether a text is accepted, since the number is only logged.
pub mod Exclusion
use mc_kube.Prelude.{
  ℕ, String, Bool, true, false, List, [], ◌∷◌, ◌++◌, Option, none, some, lookup, insert, delete,
  any, string_eq, nat_eq, ◌==◌, if◌then◌else◌,
}
use mathlib.Core.List.{Memᴰ}
use mc_kube.CpuPool.CoreSet.{code_points, trim_space, is_empty}
use mc_kube.CpuPool.Store.{is_set}
use mc_kube.Ipvs.{or_blank}

abbrev pub ann_usage_key : String
ann_usage_key = "mckube.sdv.com/cpu-usage"

abbrev pub ann_dur_key : String
ann_dur_key = "mckube.sdv.com/cpu-over90-duration-s"

abbrev pub ann_cpu_busy_key : String
ann_cpu_busy_key = "mckube.sdv.com/isCpuBusy"

-- `strings.TrimSpace(ann[key])`
unfoldable pub ann_text : String → List (String × String) → List ℕ
unfolding trim_space
ann_text key ann = trim_space (code_points (or_blank (lookup key ann)))

abbrev pub same_text : List ℕ → List ℕ → Bool
same_text [] [] = true
same_text (a ∷ xs) (b ∷ ys) = if a == b then same_text xs ys else false
same_text _ _ = false

abbrev pub is_one_of : List String → List ℕ → Bool
is_one_of words text = any (λ w. same_text (code_points w) text) words

-- `strconv.ParseBool`
unfoldable pub parse_bool : List ℕ → Option Bool
parse_bool text =
    if is_one_of ("1" ∷ "t" ∷ "T" ∷ "TRUE" ∷ "true" ∷ "True" ∷ []) text
    then some true
    else if is_one_of ("0" ∷ "f" ∷ "F" ∷ "FALSE" ∷ "false" ∷ "False" ∷ []) text
    then some false
    else none

-- What cannot be read, or is missing, reads as busy.
abbrev pub or_busy : Option Bool → Bool
or_busy none = true
or_busy (some busy) = busy

-- The set of nodes in process, and the goroutines that run, each with its node and whether it
-- handles CPU pressure.
pub record Monitor : Type 0 where
  pub processing_nodes : List (String × Bool)
  pub workers : List (String × Bool)

-- With the annotations of the node that has changed.
unfoldable pub find_objects_for_node :
    (List ℕ → Bool) → String → Option (List (String × String)) → Monitor → Monitor
unfolding ann_text parse_bool
find_objects_for_node is_float node_name none m = m
find_objects_for_node is_float node_name (some ann) m =
    let usage = ann_text ann_usage_key ann in
    if is_empty usage
    then m
    else if is_float usage
    then if is_set (lookup node_name m.processing_nodes) then m else record {
      processing_nodes = insert node_name true m.processing_nodes;
      workers = (node_name, or_busy (parse_bool (ann_text ann_cpu_busy_key ann))) ∷ m.workers;
    }
    else m

-- One of the goroutines of the node is gone.
unfoldable pub retire : String → List (String × Bool) → List (String × Bool)
retire node_name [] = []
retire node_name ((n, busy) ∷ workers) =
    if n == node_name then workers else (n, busy) ∷ retire node_name workers

-- What a goroutine does when it returns.
unfoldable pub finish : String → Monitor → Monitor
unfolding retire
finish node_name m = record {
  processing_nodes = delete node_name m.processing_nodes;
  workers = retire node_name m.workers;
}

-- The part of handleCPURecovery, of internal/controller/mckube_controller.go, on the same set.
unfoldable pub clear_processing : String → Monitor → Monitor
clear_processing node_name m = record m { processing_nodes = delete node_name m.processing_nodes }

module _ (is_float : List ℕ → Bool) where
  -- Events of any nodes, and goroutines that return, in any order.
  pub data Step : Monitor → Monitor → Type 0 where
    changes :
        (node_name : String) (ann : Option (List (String × String))) (m : Monitor)
        → Step m (find_objects_for_node is_float node_name ann m)
    returns :
        (node_name : String) (busy : Bool) (m : Monitor)
        → Memᴰ (node_name, busy) m.workers
        → Step m (finish node_name m)

  pub data Reach (start : Monitor) : Monitor → Type 0 where
    here : Reach start start
    next : {m n : Monitor} → Reach start m → Step m n → Reach start n
