-- ===== src/Cnpg/Quantities.antt =====
-- The quantities of the Kubernetes API, the Instance's component that carries them, and the checks
-- of names, none of which is the provider's code: parameters of the checks, with the laws of the
-- documentation.
use provider_cloudnative_pg.Common.{String, Bool, true, ◌≡◌, ◌↔◌, Option, List}
use provider_cloudnative_pg.Common.Dict.{Dict}
use provider_cloudnative_pg.Common.Int.{ℤ, pos, ◌<ℤ◌}
use provider_cloudnative_pg.Cnpg.Types.{Opaque, StorageConfiguration}

-- `resource.Quantity` and the methods that the program calls.
pub record Quantities : Type 1 where
  pub Quantity : Type 0
  pub sign : Quantity → ℤ
  pub is_zero : Quantity → Bool
  pub cmp : Quantity → Quantity → ℤ
  pub milli_value : Quantity → ℤ
  pub new_milli_quantity : ℤ → Quantity
  pub to_text : Quantity → String
  pub get_size_or_nil : StorageConfiguration → Option Quantity

-- A quantity stands for a number, here in units of 10⁻⁹; `Sign`, `IsZero` and `Cmp` compare these.
pub record IsLawful (q : Quantities) : Type 0 where
  pub nano : q.Quantity → ℤ
  pub sign-pos : (a : q.Quantity) → (pos 0 <ℤ q.sign a) ↔ (pos 0 <ℤ nano a)
  pub is_zero_iff : (a : q.Quantity) → (q.is_zero a ≡ true) ↔ (nano a ≡ pos 0)
  pub cmp-pos : (a b : q.Quantity) → (pos 0 <ℤ q.cmp a b) ↔ (nano b <ℤ nano a)
  pub cmp-zero : (a b : q.Quantity) → (q.cmp a b ≡ pos 0) ↔ (nano a ≡ nano b)
  -- A milli-quantity is a whole number of 10⁶ units, and every such number is one.
  pub milli_exact :
      (a : q.Quantity)
      → (nano (q.new_milli_quantity (q.milli_value a)) ≡ nano a)
        ↔ ((m : ℤ) × (nano (q.new_milli_quantity m) ≡ nano a))

-- What `Requests.Cpu()` and the like read; a missing entry reads as the zero quantity.
pub record Resources (Quantity : Type 0) : Type 0 where
  pub request_cpu : Quantity
  pub request_memory : Quantity
  pub limit_cpu : Quantity
  pub limit_memory : Quantity

pub record Storage (Quantity : Type 0) : Type 0 where
  pub size : Quantity
  pub storage_class : Option String

pub record SchedulingAffinity : Type 0 where
  pub node_affinity : Option Opaque
  pub pod_affinity : Option Opaque
  pub pod_anti_affinity : Option Opaque

pub record SchedulingPolicy : Type 0 where
  pub scheduler_name : String
  pub affinity : Option SchedulingAffinity
  pub node_selector : Dict String
  pub tolerations : List Opaque

-- One entry of the Instance's `spec.components`.
pub record ComponentSpec (Quantity : Type 0) : Type 0 where
  pub kind : String
  pub version : String
  pub image : String
  pub replicas : Option ℤ
  pub storage : Option (Storage Quantity)
  pub resources : Option (Resources Quantity)
  pub scheduling_policy : Option SchedulingPolicy
  -- The raw parameters: none for nil, and the bytes otherwise.
  pub parameters : Option String

-- The functions of `k8s.io/apimachinery/pkg/util/validation`: the faults of a name.
pub record NameChecks : Type 0 where
  pub is_dns1123_subdomain : String → List String
  pub is_dns1123_label : String → List String
  pub is_dns1035_label : String → List String
