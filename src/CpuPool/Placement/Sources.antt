-- ===== src/CpuPool/Placement/Sources.antt =====
-- internal/cpupool/cpupool.go: what stands in the slices comes from a core that was looked at.
use mc_kube.Prelude.{
  ◌≡◌, refl, ◌⊎◌, inl, inr, String, List, [], ◌∷◌, ℤ, lookup, string_eq, int_eq, Option,
}
use mathlib.Core.List.{Memᴰ}
use mathlib.Core.List.Memᴰ
use mc_kube.Prelude.Float.{Float64}
use mc_kube.Prelude.Sort.{Sorter}
use mc_kube.CpuPool.{CpuPool, Pools}
use mc_kube.CpuPool.Search.{
  Node, Candidate, Verdict, direct, with_evict, refused, num_cores, cores_to_check, core_of, judge,
  enter, check_cores, check_nodes,
}
use mc_kube.CpuPool.Placement.{candidate, IsSite}

module _ {F : Type 0} ⦃fl : Float64 F⦄ (s : Sorter) (required : F) (incoming : String) where
  abbrev Slices : Type 0
  Slices = List (Candidate F) × List (Candidate F)

  enter_cases :
      (v : Verdict) (d : Candidate F) (later : Slices) (c : Candidate F)
      → (Memᴰ c (enter s required incoming v d later).0 → Memᴰ c later.0 ⊎ ((v ≡ direct) × (c ≡ d)))
        × (Memᴰ c (enter s required incoming v d later).1
            → Memᴰ c later.1
              ⊎ ((names : List String) × (v ≡ with_evict names)
                  × (c ≡ record d { victims = names })))
  unfolding enter
  enter_cases direct d later c =
      (λ m. elim (Memᴰ.cases_cons m) [ inl e ↦ inr (refl, e) | inr t ↦ inl t ], λ m. inl m)
  enter_cases (with_evict names) d later c =
      (λ m. inl m, λ m. elim (Memᴰ.cases_cons m) [ inl e ↦ inr (names, refl, e) | inr t ↦ inl t ])
  enter_cases refused d later c = (λ m. inl m, λ m. inl m)

  -- The candidate is what the search makes of this core.
  abbrev FromCore : String → Option CpuPool → List ℤ → Candidate F → Verdict → List String → Type 0
  FromCore n pool cores c v names =
      (id : ℤ) × Memᴰ id cores
      × (judge s required incoming (core_of pool id) ≡ v)
      × (c ≡ candidate n pool id names)

  check_cores_cases :
      (n : String) (pool : Option CpuPool) (cores : List ℤ) (later : Slices) (c : Candidate F)
      → (Memᴰ c (check_cores s required incoming n pool cores later).0
          → Memᴰ c later.0 ⊎ FromCore n pool cores c direct [])
        × (Memᴰ c (check_cores s required incoming n pool cores later).1
            → Memᴰ c later.1
              ⊎ ((names : List String) × FromCore n pool cores c (with_evict names) names))
  unfolding check_cores
  check_cores_cases n pool [] later c = (λ m. inl m, λ m. inl m)
  check_cores_cases n pool (id ∷ cores) later c =
      let rest = check_cores_cases n pool cores later c in
      let step =
        enter_cases (judge s required incoming (core_of pool id)) (candidate n pool id [])
          (check_cores s required incoming n pool cores later) c in
      (
        λ m. elim (step.0 m) [
          | inr (e, f) ↦ inr (id, Memᴰ.head refl, e, f)
          | inl t ↦ elim (rest.0 t) [
            | inl u ↦ inl u
            | inr (j, k, e, f) ↦ inr (j, Memᴰ.tail k, e, f)
          ]
        ],
        λ m. elim (step.1 m) [
          | inr (names, e, f) ↦ inr (names, (id, Memᴰ.head refl, e, f))
          | inl t ↦ elim (rest.1 t) [
            | inl u ↦ inl u
            | inr (names, (j, k, e, f)) ↦ inr (names, (j, Memᴰ.tail k, e, f))
          ]
        ],
      )

  abbrev pub Source : List ℤ → Pools → List Node → Candidate F → Verdict → List String → Type 0
  Source preferred pools nodes c v names =
      (node : Node) × (id : ℤ) × IsSite preferred pools nodes node id
      × (judge s required incoming (core_of (lookup node.name pools) id) ≡ v)
      × (c ≡ candidate node.name (lookup node.name pools) id names)

  pub check_nodes-Source :
      (preferred : List ℤ) (pools : Pools) (nodes : List Node) (c : Candidate F)
      → (Memᴰ c (check_nodes s required incoming preferred pools nodes).0
          → Source preferred pools nodes c direct [])
        × (Memᴰ c (check_nodes s required incoming preferred pools nodes).1
            → (names : List String) × Source preferred pools nodes c (with_evict names) names)
  unfolding check_nodes
  check_nodes-Source preferred pools [] c = (λ m. elim m [ ], λ m. elim m [ ])
  check_nodes-Source preferred pools (x ∷ nodes) c =
      let rest = check_nodes-Source preferred pools nodes c in
      let step =
        check_cores_cases x.name (lookup x.name pools)
          (cores_to_check preferred (num_cores x.cpu_capacity) (lookup x.name pools))
          (check_nodes s required incoming preferred pools nodes) c in
      (
        λ m. elim (step.0 m) [
          | inr (id, k, e, f) ↦ (x, id, (Memᴰ.head refl, k), e, f)
          | inl t ↦
              let (node, id, site, e, f) = rest.0 t in (node, id, (Memᴰ.tail site.0, site.1), e, f)
        ],
        λ m. elim (step.1 m) [
          | inr (names, (id, k, e, f)) ↦ (names, (x, id, (Memᴰ.head refl, k), e, f))
          | inl t ↦
              let (names, (node, id, site, e, f)) = rest.1 t in
              (names, (node, id, (Memᴰ.tail site.0, site.1), e, f))
        ],
      )
