-- ===== src/Plan.antt =====
-- orchestration/__init__.py: task plans. The nodes and edges of a plan, and their validators.
pub mod Graph
pub mod Order
pub mod Pigeon
pub mod Visit
pub mod Acyclic
pub mod Snapshot
pub mod Assess
pub mod Readiness
pub mod Record
pub mod Port
pub mod Changes
pub mod Edits
pub mod Service
pub mod Next
pub mod Edited
pub mod Final
pub mod Lineage
pub mod Reached
pub mod Rules
pub mod Concurrent
pub mod Finalized
pub mod Local
pub mod LocalLaws
pub mod LocalStore
pub mod LocalPort
pub mod Refines
pub mod Roundtrip
mod Tests
mod ServiceTests
use job_slayer.Base.{
  ℕ, String, Bool, true, false, not, ◌&&◌, ◌||◌, List, [], ◌∷◌, ◌++◌, Option, none, some, any, all,
  ltb, leb, length, codes, is_identifier, is_blank, str_eq,
}

pub data NodeKind : Type 0 where
  task milestone validation human_gate : NodeKind

-- An entry of the dictionary `attributes`.
pub record Attribute : Type 0 where
  pub key : String
  pub value : String

pub record TaskPlanNode : Type 0 where
  pub node_id : String
  pub title : String
  pub description : String
  pub kind : NodeKind
  pub executor_hint : Option String
  pub acceptance_criteria : List String
  pub deliverables : List String
  pub constraints : List String
  pub risks : List String
  pub verification_requirements : List String
  pub requires_human_decision : Bool
  pub attributes : List Attribute

-- `min_length` and `max_length` of a text.
abbrev pub is_sized : ℕ → ℕ → String → Bool
is_sized low high text = leb low (length (codes text)) && leb (length (codes text)) high

abbrev pub optional : (String → Bool) → Option String → Bool
optional test none = true
optional test (some text) = test text

-- A structured field: at most 24 entries, not blank, of at most 1000 characters.
abbrev is_structured : List String → Bool
is_structured items =
    leb (length items) 24
    && all (λ item. not (is_blank item) && leb (length (codes item)) 1000) items

-- The fields of a node, and `validate_node`.
unfoldable pub is_valid_node : TaskPlanNode → Bool
is_valid_node n =
    is_identifier n.node_id
    && is_sized 1 96 n.node_id
    && is_sized 1 200 n.title
    && is_sized 0 8000 n.description
    && optional (is_sized 0 160) n.executor_hint
    && not (is_blank n.title)
    && optional (λ hint. not (is_blank hint)) n.executor_hint
    && is_structured n.acceptance_criteria
    && is_structured n.deliverables
    && is_structured n.constraints
    && is_structured n.risks
    && is_structured n.verification_requirements
    && all (λ a. not (is_blank a.key) && not (is_blank a.value)) n.attributes

pub data EdgeRelation : Type 0 where
  sequence dependency branch subtask : EdgeRelation

pub record TaskPlanEdge : Type 0 where
  pub edge_id : String
  pub source_node_id : String
  pub target_node_id : String
  pub relation : EdgeRelation
  pub label : Option String

-- The fields of an edge, and `validate_edge`.
unfoldable pub is_valid_edge : TaskPlanEdge → Bool
is_valid_edge e =
    is_identifier e.edge_id
    && is_sized 1 128 e.edge_id
    && is_identifier e.source_node_id
    && is_sized 1 96 e.source_node_id
    && is_identifier e.target_node_id
    && is_sized 1 96 e.target_node_id
    && optional (is_sized 0 160) e.label
    && not (str_eq e.source_node_id e.target_node_id)
    && optional (λ text. not (is_blank text)) e.label
