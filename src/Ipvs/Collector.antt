-- ===== src/Ipvs/Collector.antt =====
-- internal/ipvs/data_collector.go: GetRealTimeData, on what the accessors of unstructured objects
-- give for each field of each resource.
use mc_kube.Prelude.{String, List, [], ◌∷◌, Option, none, some, insert, string_eq, ℤ}
use mc_kube.Prelude.Float.{Float64}
use mc_kube.Ipvs.{RealTimeWcet, RealTimeData}

-- `unstructured.NestedString` and the like: a field that is missing is no error, one of another
-- type is.
pub data Field (A : Type 0) : Type 0 where
  found : A → Field A
  missing : Field A
  mistyped : Field A

pub data Number (F : Type 0) : Type 0 where
  whole : ℤ → Number F
  fraction : F → Number F
  other : Number F

-- An element of `rtWcets`: a map with the text of its node, or something else.
pub data Element (F : Type 0) : Type 0 where
  mapping : String → Number F → Element F
  unmapped : Element F

pub record Item (F : Type 0) : Type 0 where
  pub app_name : Field String
  pub criticality : Field String
  pub rt_deadline : Field ℤ
  pub rt_period : Field ℤ
  pub rt_wcets : Field (List (Element F))

-- A value and no error; neither of them; an error.
pub data Answer (A : Type 0) : Type 0 where
  ok : A → Answer A
  nothing : Answer A
  failed : Answer A

infixl 5 ◌>>=◌
abbrev pub ◌>>=◌ : {A B : Type 0} → Answer A → (A → Answer B) → Answer B
ok a >>= f = f a
nothing >>= f = nothing
failed >>= f = failed

-- `if !found || err != nil { return nil, err }`
abbrev pub need : {A : Type 0} → Field A → Answer A
need (found a) = ok a
need missing = nothing
need mistyped = failed

module _ (F : Type 0) ⦃fl : Float64 F⦄ where
  unfoldable pub read_number : Number F → Answer ℤ
  read_number (whole v) = ok v
  read_number (fraction v) = ok (fl.to_int v)
  read_number other = failed

  unfoldable pub read_wcets : List (Element F) → Answer (List RealTimeWcet)
  unfolding read_number
  read_wcets [] = ok []
  read_wcets (unmapped ∷ elements) = failed
  read_wcets (mapping node number ∷ elements) = do
    v ← read_number number
    rest ← read_wcets elements
    ok (record { node = node; rt_wcet = v } ∷ rest)

  unfoldable pub read_item : Item F → Answer (String × RealTimeData)
  unfolding read_wcets
  read_item item = do
    app_name ← need item.app_name
    criticality ← need item.criticality
    rt_deadline ← need item.rt_deadline
    rt_period ← need item.rt_period
    elements ← need item.rt_wcets
    rt_wcets ← read_wcets elements
    ok (
      app_name,
      record {
        criticality = criticality;
        rt_deadline = rt_deadline;
        rt_period = rt_period;
        rt_wcets = rt_wcets;
      },
    )

  unfoldable pub collect :
      List (String × RealTimeData) → List (Item F) → Answer (List (String × RealTimeData))
  unfolding read_item
  collect result [] = ok result
  collect result (item ∷ items) =
      read_item item >>= λ entry. collect (insert entry.0 entry.1 result) items

  -- With the resources listed, if there was no error.
  unfoldable pub get_real_time_data : Option (List (Item F)) → Answer (List (String × RealTimeData))
  unfolding collect
  get_real_time_data none = failed
  get_real_time_data (some items) = collect [] items
