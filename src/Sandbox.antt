-- ===== src/Sandbox.antt =====
-- workers/__init__.py: `SandboxPolicy`, `SandboxCapabilities` and `SandboxCapabilities.unmet`, which a
-- launcher consults before it runs a request.
mod Tests
use job_slayer.Base.{
  ℕ, String, Bool, true, false, not, ◌&&◌, ◌||◌, List, [], ◌∷◌, if◌then◌else◌, ◌≡◌, refl, ◌↔◌,
  arith, is_empty, sym, ◌∙◌,
}

pub data NetworkPolicy : Type 0 where
  deny allow : NetworkPolicy

pub record SandboxPolicy : Type 0 where
  pub network : NetworkPolicy
  pub read_only_root : Bool

pub record SandboxCapabilities : Type 0 where
  pub network_isolation : Bool
  pub mount_isolation : Bool
  pub cpu_limit : Bool
  pub memory_limit : Bool
  pub process_limit : Bool
  pub process_tree_termination : Bool
  pub wall_timeout : Bool

abbrev pub is_deny : NetworkPolicy → Bool
is_deny deny = true
is_deny allow = false

-- A requirement: its name, whether the policy asks for it, and whether the adapter has it.
pub record Requirement : Type 0 where
  pub name : String
  pub required : Bool
  pub present : Bool

abbrev requirement : String → Bool → Bool → Requirement
requirement name required present = record { name = name; required = required; present = present }

unfoldable pub requirements : SandboxCapabilities → SandboxPolicy → List Requirement
requirements c policy =
    requirement "network_isolation" (is_deny policy.network) c.network_isolation
    ∷ requirement "mount_isolation" policy.read_only_root c.mount_isolation
    ∷ requirement "cpu_limit" true c.cpu_limit
    ∷ requirement "memory_limit" true c.memory_limit
    ∷ requirement "process_limit" true c.process_limit
    ∷ requirement "process_tree_termination" true c.process_tree_termination
    ∷ requirement "wall_timeout" true c.wall_timeout
    ∷ []

abbrev pub unmet_names : List Requirement → List String
unmet_names [] = []
unmet_names (r ∷ rs) =
    let rest = unmet_names rs in if r.required && not r.present then r.name ∷ rest else rest

unfoldable pub unmet : SandboxCapabilities → SandboxPolicy → List String
unfolding requirements
unmet c policy = unmet_names (requirements c policy)

-- What the policy asks of an adapter, written out.
pub record Enforces (c : SandboxCapabilities) (policy : SandboxPolicy) : Type 0 where
  pub isolates_network : is_deny policy.network ≡ true → c.network_isolation ≡ true
  pub isolates_mounts : policy.read_only_root ≡ true → c.mount_isolation ≡ true
  pub limits_cpu : c.cpu_limit ≡ true
  pub limits_memory : c.memory_limit ≡ true
  pub limits_processes : c.process_limit ≡ true
  pub ends_process_tree : c.process_tree_termination ≡ true
  pub limits_time : c.wall_timeout ≡ true

all_met : List Requirement → Bool
all_met [] = true
all_met (r ∷ rs) = (not r.required || r.present) && all_met rs

unmet_names-nil : (rs : List Requirement) → is_empty (unmet_names rs) ≡ all_met rs
unfolding all_met
unmet_names-nil [] = refl
unmet_names-nil (r ∷ rs) = ground (arith, unmet_names-nil rs)

is_empty-nil : (xs : List String) → (xs ≡ []) ↔ (is_empty xs ≡ true)
is_empty-nil [] = ((λ e. refl), (λ h. refl))
is_empty-nil (x ∷ xs) = ((λ e. cc), (λ h. cc))

-- No requirement of a policy is unmet exactly when the adapter isolates the network and the mounts
-- where the policy asks for it, and has each of the limits.
pub unmet-Enforces :
    (c : SandboxCapabilities) (policy : SandboxPolicy) → (unmet c policy ≡ []) ↔ Enforces c policy
unfolding unmet all_met
unmet-Enforces c policy = (
  (λ e.
      let met : all_met (requirements c policy) ≡ true =
        sym (unmet_names-nil (requirements c policy))
        ∙ (is_empty-nil (unmet_names (requirements c policy))).0 e in
      record {
        isolates_network = λ h. ground (arith, met);
        isolates_mounts = λ h. ground (arith, met);
        limits_cpu = ground (arith, met);
        limits_memory = ground (arith, met);
        limits_processes = ground (arith, met);
        ends_process_tree = ground (arith, met);
        limits_time = ground (arith, met);
      }),
  (λ h.
      let met : all_met (requirements c policy) ≡ true = ground (
        arith, h.isolates_network, h.isolates_mounts, h.limits_cpu, h.limits_memory,
        h.limits_processes, h.ends_process_tree, h.limits_time,
      ) in
      (is_empty-nil (unmet_names (requirements c policy))).1
        (unmet_names-nil (requirements c policy) ∙ met)),
)
