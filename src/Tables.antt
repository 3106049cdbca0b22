-- ===== src/Tables.antt =====
-- The database: the tables that ml_metadata/util/metadata_source_query_config.cc creates, as lists of
-- rows in the order of insertion, with the counters of the AUTOINCREMENT keys. The children are the
-- queries of that file, as QueryConfigExecutor runs them. A query has its documented effect or
-- breaks a uniqueness constraint; other failures of the engine are left to `Source`.
pub mod TypeQueries
pub mod NodeQueries
pub mod LinkQueries
use ml_metadata_l_metadata_s.Prelude.{ℕ, String, Bool, Option, none, List, [], if◌then◌else◌}
use ml_metadata_l_metadata_s.Messages.{Kind, PropertyType, ℤ, Step, same_kind}
use ml_metadata_l_metadata_s.Ancestry.{Links}

pub record TypeRow : Type 0 where
  pub id : ℕ
  pub kind : Kind
  pub name : String
  pub version : Option String
  pub description : Option String

pub record TypePropertyRow : Type 0 where
  pub type_id : ℕ
  pub name : String
  pub data_type : PropertyType

-- `Artifact`, `Execution` and `Context`: `uri` is a column of the first, `state` of the first two.
-- NULL is none.
pub record NodeRow : Type 0 where
  pub id : ℕ
  pub type_id : ℕ
  pub name : Option String
  pub uri : Option String
  pub state : Option ℕ
  pub create_time : ℕ
  pub update_time : ℕ

-- The value columns of a property table.
pub record Columns : Type 0 where
  pub int_column : Option ℤ
  pub double_column : Option ℕ
  pub string_column : Option (List ℕ)

pub record PropertyRow : Type 0 where
  pub node_id : ℕ
  pub name : String
  pub is_custom : Bool
  pub columns : Columns

pub record EventRow : Type 0 where
  pub id : ℕ
  pub artifact_id : ℕ
  pub execution_id : ℕ
  pub type : ℕ
  pub time : ℕ

-- `Association` (context, execution) and `Attribution` (context, artifact).
pub record PairRow : Type 0 where
  pub id : ℕ
  pub context_id : ℕ
  pub node_id : ℕ

pub record Db : Type 0 where
  pub types : List TypeRow
  pub type_properties : List TypePropertyRow
  pub parent_types : Links
  pub nodes : Kind → List NodeRow
  pub properties : Kind → List PropertyRow
  pub events : List EventRow
  pub event_paths : List (ℕ × Step)
  pub associations : List PairRow
  pub attributions : List PairRow
  pub parent_contexts : Links
  -- The last key handed out, by table.
  pub last_type_id : ℕ
  pub last_node_id : Kind → ℕ
  pub last_event_id : ℕ
  pub last_association_id : ℕ
  pub last_attribution_id : ℕ

abbrev pub no_columns : Columns
no_columns = record { int_column = none; double_column = none; string_column = none }

-- The tables after InitMetadataSource.
abbrev pub empty_db : Db
empty_db = record {
  types = [];
  type_properties = [];
  parent_types = [];
  nodes = λ _. [];
  properties = λ _. [];
  events = [];
  event_paths = [];
  associations = [];
  attributions = [];
  parent_contexts = [];
  last_type_id = 0;
  last_node_id = λ _. 0;
  last_event_id = 0;
  last_association_id = 0;
  last_attribution_id = 0;
}

-- A new value for the table of one kind.
abbrev pub update_kind {ℓ} : {A : Type ℓ} → (Kind → A) → Kind → A → Kind → A
update_kind f k v j = if same_kind k j then v else f j
