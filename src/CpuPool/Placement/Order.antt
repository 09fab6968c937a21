-- ===== src/CpuPool/Placement/Order.antt =====
-- internal/cpupool/cpupool.go: the two `less` functions of SelectBestNodeAndCore are orders, and what
-- they compare is never NaN.
use mc_kube.Prelude.{
  ◌≡◌, true, false, nat_eq, arith, string_eq, int_eq, Option, none, some, length, ◌≤◌,
}
use mc_kube.Prelude.Float.{Float64, IsOrdered, IsNumber}
use mc_kube.Prelude.Sort.{IsStrictOrder}
use mc_kube.CpuPool.{CpuCoreInfo}
use mc_kube.CpuPool.Search.{Candidate, free_of, freer, fewer_victims}

module _ {F : Type 0} ⦃fl : Float64 F⦄ (laws : IsOrdered F) where
  abbrev pub HasFree : Candidate F → Type 0
  HasFree c = IsNumber c.free

  pub freer-IsStrictOrder : IsStrictOrder HasFree freer
  unfolding freer
  freer-IsStrictOrder = record {
    asym = λ x y px py h. ground (
      arith,
      laws.lt-eq-not-le y.free x.free py px,
      laws.lt-eq-not-le x.free y.free px py,
      laws.le_total x.free y.free px py,
    );
    incomparable_trans = λ x y z px py pz h k. ground (
      arith,
      laws.lt-eq-not-le x.free y.free px py,
      laws.lt-eq-not-le y.free z.free py pz,
      laws.lt-eq-not-le x.free z.free px pz,
      laws.le_trans z.free y.free x.free,
    );
  }

  pub fewer_victims-IsStrictOrder : IsStrictOrder HasFree fewer_victims
  unfolding fewer_victims
  fewer_victims-IsStrictOrder = record {
    asym = λ x y px py h. ground (
      arith,
      laws.lt-eq-not-le y.free x.free py px,
      laws.lt-eq-not-le x.free y.free px py,
      laws.le_total x.free y.free px py,
    );
    incomparable_trans = λ x y z px py pz h k. ground (
      arith,
      laws.lt-eq-not-le x.free y.free px py,
      laws.lt-eq-not-le y.free z.free py pz,
      laws.lt-eq-not-le x.free z.free px pz,
      laws.le_trans z.free y.free x.free,
    );
  }

  pub free_of-IsNumber : (core : Option CpuCoreInfo) → IsNumber {F = F} (free_of core)
  unfolding free_of
  free_of-IsNumber none = laws.decimal_less_decimal 95 2 0 0
  free_of-IsNumber (some core) = laws.decimal_less_millis 95 2 core.usage_millis

  pub freer_irrefl : (c : Candidate F) → HasFree c → freer c c ≡ false
  unfolding freer
  freer_irrefl c h = ground (arith, laws.lt-eq-not-le c.free c.free h h)

  pub freer→le :
      (c b : Candidate F) → HasFree c → HasFree b → freer c b ≡ false → fl.le c.free b.free ≡ true
  unfolding freer
  freer→le c b hc hb e = ground (arith, laws.lt-eq-not-le b.free c.free hb hc)

  pub fewer_irrefl : (c : Candidate F) → HasFree c → fewer_victims c c ≡ false
  unfolding fewer_victims
  fewer_irrefl c h = ground (arith, laws.lt-eq-not-le c.free c.free h h)

  -- The second candidate has no more victims, and at equal numbers no less free budget.
  abbrev pub IsNoBetter : Candidate F → Candidate F → Type 0
  IsNoBetter c b =
      (length b.victims ≤ length c.victims)
      × (length b.victims ≡ length c.victims → fl.le c.free b.free ≡ true)

  pub fewer→le :
      (c b : Candidate F) → HasFree c → HasFree b → fewer_victims c b ≡ false → IsNoBetter c b
  unfolding fewer_victims
  fewer→le c b hc hb e =
      (ground (arith, e), λ same. ground (arith, e, same, laws.lt-eq-not-le b.free c.free hb hc))
