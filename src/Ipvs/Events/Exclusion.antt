-- ===== src/Ipvs/Events/Exclusion.antt =====
-- internal/ipvs/event_handler.go: one goroutine for a node at most, as long as no recovery clears the
-- set of nodes in process.
use mc_kube.Prelude.{
  ◌≡◌, ◌≢◌, refl, sym, ap, subst, ◌∙◌, inl, inr, ℕ, String, Bool, true, false, List, [], ◌∷◌,
  Option, none, some, lookup, lookup-insert, lookup-insert_self, lookup-delete_ne,
  lookup-delete_self, IsMap, insert, delete, All, All-map, All-Memᴰ, string_eq, ◌==◌, Bool-cases,
}
use mathlib.Core.List.{Memᴰ}
use mc_kube.CpuPool.CoreSet.{is_empty}
use mc_kube.CpuPool.Store.{is_set}
use mc_kube.Ipvs.Events.{
  ann_text, ann_usage_key, Monitor, find_objects_for_node, retire, finish, clear_processing, Step,
  changes, returns, Reach, here, next,
}

abbrev pub IsElsewhere : String → String × Bool → Type 0
IsElsewhere node_name worker = worker.0 ≢ node_name

-- No two goroutines of one node.
abbrev pub AreAlone : List (String × Bool) → Type 0
AreAlone [] = Unit
AreAlone ((n, busy) ∷ workers) = All (IsElsewhere n) workers × AreAlone workers

abbrev IsMarked : List (String × Bool) → String × Bool → Type 0
IsMarked nodes worker = lookup worker.0 nodes ≡ some true

-- A goroutine's node is in the set.
record IsGuarded (m : Monitor) : Type 0 where
  alone : AreAlone m.workers
  marked : All (IsMarked m.processing_nodes) m.workers

-- A node that is not in the set has no goroutine.
unmarked-IsElsewhere :
    (node_name : String) (nodes workers : List (String × Bool))
    → is_set (lookup node_name nodes) ≡ false
    → All (IsMarked nodes) workers
    → All (IsElsewhere node_name) workers
unmarked-IsElsewhere node_name nodes workers free marked =
    All-map (IsMarked nodes) (IsElsewhere node_name) workers
      (λ w mark same.
        let mark_here = subst (λ n. lookup n nodes ≡ some true) same mark in
        cc (free, ap is_set mark_here))
      marked

other_name : (a b : String) → a ≢ b → (a == b) ≡ false
other_name a b differ = elim (Bool-cases (a == b)) [
  | inl hit ↦ absurd (differ ((string_eq.equal_iff a b).0 hit))
  | inr miss ↦ miss
]

insert-IsMarked :
    (node_name : String) (nodes workers : List (String × Bool))
    → All (IsElsewhere node_name) workers
    → All (IsMarked nodes) workers
    → All (IsMarked (insert node_name true nodes)) workers
insert-IsMarked node_name nodes [] away marked = tt
insert-IsMarked node_name nodes (w ∷ workers) away marked = (
  lookup-insert node_name w.0 true nodes
      ∙ rw (other_name node_name w.0 (λ e. away.0 (sym e))) marked.0,
  insert-IsMarked node_name nodes workers away.1 marked.1,
)

delete-IsMarked :
    (node_name : String) (nodes workers : List (String × Bool))
    → All (IsElsewhere node_name) workers
    → All (IsMarked nodes) workers
    → All (IsMarked (delete node_name nodes)) workers
delete-IsMarked node_name nodes [] away marked = tt
delete-IsMarked node_name nodes (w ∷ workers) away marked = (
  lookup-delete_ne node_name w.0 nodes (λ e. away.0 (sym e)) ∙ marked.0,
  delete-IsMarked node_name nodes workers away.1 marked.1,
)

retire-All {κ} :
    (P : String × Bool → Type κ) (node_name : String) (workers : List (String × Bool))
    → All P workers
    → All P (retire node_name workers)
unfolding retire
retire-All P node_name [] h = tt
retire-All P node_name ((n, busy) ∷ workers) h = elim (Bool-cases (n == node_name)) [
  | inl hit ↦ rw hit h.1
  | inr miss ↦ rw miss (h.0, retire-All P node_name workers h.1)
]

retire-AreAlone :
    (node_name : String) (workers : List (String × Bool))
    → AreAlone workers
    → AreAlone (retire node_name workers)
unfolding retire
retire-AreAlone node_name [] h = tt
retire-AreAlone node_name ((n, busy) ∷ workers) h = elim (Bool-cases (n == node_name)) [
  | inl hit ↦ rw hit h.1
  | inr miss ↦
      rw miss
        (retire-All (IsElsewhere n) node_name workers h.0, retire-AreAlone node_name workers h.1)
]

-- Where no two goroutines are of one node, none of this one is left.
retire-IsElsewhere :
    (node_name : String) (workers : List (String × Bool))
    → AreAlone workers
    → All (IsElsewhere node_name) (retire node_name workers)
unfolding retire
retire-IsElsewhere node_name [] h = tt
retire-IsElsewhere node_name ((n, busy) ∷ workers) h = elim (Bool-cases (n == node_name)) [
  | inl hit ↦
      rw hit
        (subst (λ k. All (IsElsewhere k) workers) ((string_eq.equal_iff n node_name).0 hit) h.0)
  | inr miss ↦ rw miss (
    λ e. cc ((string_eq.equal_iff n node_name).1 e, miss),
    retire-IsElsewhere node_name workers h.1,
  )
]

module _ (is_float : List ℕ → Bool) where
  find_objects_for_node-IsGuarded :
      (node_name : String) (ann : Option (List (String × String))) (m : Monitor)
      → IsGuarded m
      → IsGuarded (find_objects_for_node is_float node_name ann m)
  unfolding find_objects_for_node
  find_objects_for_node-IsGuarded node_name none m g = g
  find_objects_for_node-IsGuarded node_name (some ann) m g =
      elim (Bool-cases (is_empty (ann_text ann_usage_key ann))) [
        | inl e ↦ rw e g
        | inr e ↦ elim (Bool-cases (is_float (ann_text ann_usage_key ann))) [
          | inr bad ↦ rw (e, bad) g
          | inl good ↦ elim (Bool-cases (is_set (lookup node_name m.processing_nodes))) [
            | inl taken ↦ rw (e, good, taken) g
            | inr free ↦
                let away =
                  unmarked-IsElsewhere node_name m.processing_nodes m.workers free g.marked in
                rw (e, good, free)
                  (record {
                    alone = (away, g.alone);
                    marked = (
                      lookup-insert_self node_name true m.processing_nodes,
                      insert-IsMarked node_name m.processing_nodes m.workers away g.marked,
                    );
                  })
          ]
        ]
      ]

  finish-IsGuarded :
      (node_name : String) (m : Monitor) → IsGuarded m → IsGuarded (finish node_name m)
  unfolding finish
  finish-IsGuarded node_name m g = record {
    alone = retire-AreAlone node_name m.workers g.alone;
    marked =
        delete-IsMarked node_name m.processing_nodes (retire node_name m.workers)
          (retire-IsElsewhere node_name m.workers g.alone)
          (retire-All (IsMarked m.processing_nodes) node_name m.workers g.marked);
  }

  Step-IsGuarded : {m n : Monitor} → Step is_float m n → IsGuarded m → IsGuarded n
  Step-IsGuarded (changes node_name ann m) g = find_objects_for_node-IsGuarded node_name ann m g
  Step-IsGuarded (returns node_name busy m running) g = finish-IsGuarded node_name m g

  Reach-IsGuarded : {start m : Monitor} → IsGuarded start → Reach is_float start m → IsGuarded m
  Reach-IsGuarded g here = g
  Reach-IsGuarded g (next r s) = Step-IsGuarded s (Reach-IsGuarded g r)

  -- From the start, with no node in process and no goroutine: whatever nodes change, and whatever
  -- goroutines return, in any order, there are never two goroutines of one node.
  pub Reach-AreAlone :
      (m : Monitor)
      → Reach is_float (record { processing_nodes = []; workers = [] }) m
      → AreAlone m.workers
  Reach-AreAlone m r = (Reach-IsGuarded (record { alone = tt; marked = tt }) r).alone

  -- While a goroutine of the node runs, handleCPURecovery takes the node out of the set: the next
  -- change of the node that is not ignored starts a second goroutine of it.
  pub clear_processing_doubles :
      (node_name : String) (ann : List (String × String)) (busy : Bool) (m : Monitor)
      → IsMap m.processing_nodes
      → Memᴰ (node_name, busy) m.workers
      → is_empty (ann_text ann_usage_key ann) ≡ false
      → is_float (ann_text ann_usage_key ann) ≡ true
      → ¬ AreAlone
          (find_objects_for_node is_float node_name
            (some ann)
            (clear_processing node_name m)).workers
  unfolding find_objects_for_node clear_processing
  clear_processing_doubles node_name ann busy m distinct running e good alone =
      let free : is_set (lookup node_name (delete node_name m.processing_nodes)) ≡ false =
        ap is_set (lookup-delete_self node_name m.processing_nodes distinct) in
      let both = rw (e, good, free) at alone in All-Memᴰ (IsElsewhere node_name) both.0 running refl
