-- ===== src/CpuPool/Placement/Entered.antt =====
-- internal/cpupool/cpupool.go: every core that can take the pod is entered in its slice.
use mc_kube.Prelude.{
  ◌≡◌, refl, sym, ap, subst, String, List, [], ◌∷◌, ℤ, lookup, string_eq, int_eq, Option,
}
use mathlib.Core.List.{Memᴰ}
use mc_kube.Prelude.Float.{Float64}
use mc_kube.Prelude.Sort.{Sorter}
use mc_kube.CpuPool.{CpuPool, Pools}
use mc_kube.CpuPool.Search.{
  Node, Candidate, Verdict, direct, with_evict, refused, num_cores, cores_to_check, core_of, judge,
  enter, check_cores, check_nodes,
}
use mc_kube.CpuPool.Placement.{candidate, IsSite}

module _ {F : Type 0} ⦃fl : Float64 F⦄ (s : Sorter) (required : F) (incoming : String) where
  -- The two slices that the loops fill.
  abbrev Slices : Type 0
  Slices = List (Candidate F) × List (Candidate F)

  enter_later :
      (v : Verdict) (d : Candidate F) (later : Slices) (c : Candidate F)
      → (Memᴰ c later.0 → Memᴰ c (enter s required incoming v d later).0)
        × (Memᴰ c later.1 → Memᴰ c (enter s required incoming v d later).1)
  unfolding enter
  enter_later direct d later c = (λ m. Memᴰ.tail m, λ m. m)
  enter_later (with_evict _) d later c = (λ m. m, λ m. Memᴰ.tail m)
  enter_later refused d later c = (λ m. m, λ m. m)

  check_cores_later :
      (n : String) (pool : Option CpuPool) (cores : List ℤ) (later : Slices) (c : Candidate F)
      → (Memᴰ c later.0 → Memᴰ c (check_cores s required incoming n pool cores later).0)
        × (Memᴰ c later.1 → Memᴰ c (check_cores s required incoming n pool cores later).1)
  unfolding check_cores
  check_cores_later n pool [] later c = (λ m. m, λ m. m)
  check_cores_later n pool (id ∷ cores) later c =
      let rest = check_cores_later n pool cores later c in
      let step =
        enter_later (judge s required incoming (core_of pool id)) (candidate n pool id [])
          (check_cores s required incoming n pool cores later) c in
      (λ m. step.0 (rest.0 m), λ m. step.1 (rest.1 m))

  -- Where a core's verdict puts it.
  abbrev pub Entered : String → Option CpuPool → ℤ → Slices → Type 0
  Entered n pool id found =
      (judge s required incoming (core_of pool id) ≡ direct → Memᴰ (candidate n pool id []) found.0)
      × ((names : List String)
          → judge s required incoming (core_of pool id) ≡ with_evict names
          → Memᴰ (candidate n pool id names) found.1)

  enter_first :
      (v : Verdict) (n : String) (pool : Option CpuPool) (id : ℤ) (later : Slices)
      → (v ≡ direct
          → Memᴰ
              (candidate n pool id [])
              (enter s required incoming v (candidate n pool id []) later).0)
        × ((names : List String)
            → v ≡ with_evict names
            → Memᴰ
                (candidate n pool id names)
                (enter s required incoming v (candidate n pool id []) later).1)
  unfolding enter
  enter_first direct n pool id later = (λ _. Memᴰ.head refl, λ names e. absurd (cc))
  enter_first (with_evict ns) n pool id later = (
    λ e. absurd (cc),
    λ names e. Memᴰ.head (let same : ns ≡ names = cc in ap (candidate n pool id) (sym same)),
  )
  enter_first refused n pool id later = (λ e. absurd (cc), λ names e. absurd (cc))

  check_cores-Entered :
      (n : String) (pool : Option CpuPool) (cores : List ℤ) (later : Slices) (id : ℤ)
      → Memᴰ id cores
      → Entered n pool id (check_cores s required incoming n pool cores later)
  unfolding check_cores
  check_cores-Entered n pool [] later id m = elim m [ ]
  check_cores-Entered n pool (j ∷ cores) later id (Memᴰ.head e) = rw e (
      enter_first (judge s required incoming (core_of pool j)) n pool j
        (check_cores s required incoming n pool cores later))
  check_cores-Entered n pool (j ∷ cores) later id (Memᴰ.tail m) =
      let rest = check_cores-Entered n pool cores later id m in
      let step = λ (c : Candidate F).
        enter_later (judge s required incoming (core_of pool j)) (candidate n pool j [])
          (check_cores s required incoming n pool cores later) c in
      (
        λ e. (step (candidate n pool id [])).0 (rest.0 e),
        λ names e. (step (candidate n pool id names)).1 (rest.1 names e),
      )

  pub check_nodes-Entered :
      (preferred : List ℤ) (pools : Pools) (nodes : List Node) (node : Node) (id : ℤ)
      → IsSite preferred pools nodes node id
      → Entered node.name
          (lookup node.name pools)
          id
          (check_nodes s required incoming preferred pools nodes)
  unfolding check_nodes
  check_nodes-Entered preferred pools [] node id (m, k) = elim m [ ]
  check_nodes-Entered preferred pools (x ∷ nodes) node id (Memᴰ.head e, k) =
      let pool = lookup node.name pools in
      subst
        (λ (y : Node). Entered node.name pool id (
          check_cores s required incoming y.name (lookup y.name pools)
            (cores_to_check preferred (num_cores y.cpu_capacity) (lookup y.name pools))
            (check_nodes s required incoming preferred pools nodes)))
        e
        (check_cores-Entered node.name pool
          (cores_to_check preferred (num_cores node.cpu_capacity) pool)
          (check_nodes s required incoming preferred pools nodes) id k)
  check_nodes-Entered preferred pools (x ∷ nodes) node id (Memᴰ.tail m, k) =
      let rest = check_nodes-Entered preferred pools nodes node id (m, k) in
      let step = λ (c : Candidate F).
        check_cores_later x.name (lookup x.name pools)
          (cores_to_check preferred (num_cores x.cpu_capacity) (lookup x.name pools))
          (check_nodes s required incoming preferred pools nodes) c in
      (
        λ e. (step (candidate node.name (lookup node.name pools) id [])).0 (rest.0 e),
        λ names e.
            (step (candidate node.name (lookup node.name pools) id names)).1 (rest.1 names e),
      )
