-- ===== src/Lib.antt =====
-- ML Metadata: the metadata store and its relational access object, modelled at one commit.
--
-- ML Metadata records artifacts, executions and contexts, their types, and the events, associations,
-- attributions and parent relations between them, in a relational database. A handler of
-- MetadataStore (ml_metadata/metadata_store/metadata_store.cc) runs its body in one transaction
-- (transaction_executor.cc over metadata_source.cc); the body calls the access object
-- (rdbms_metadata_access_object.cc), whose queries (query_config_executor.cc) are templates of
-- ml_metadata/util/metadata_source_query_config.cc.
--
-- Files and the code they follow:
--   Prelude        shared names, Boolean tests, lists over the native numbers
--   Status         absl::Status and the macros of ml_metadata/util/return_utils.h
--   Exec           methods that change the database and return a status; an error leaves what was
--                  written before it, and Exec/Preserves has the rules for what methods preserve
--   Source         MetadataSource and RdbmsTransactionExecutor::Execute over a driver of an engine
--   Schema         GetSchemaVersion, the upgrade and downgrade of the schema, InitMetadataSourceIfNotExists
--   Maps           protobuf maps as association lists
--   Messages       the messages of ml_metadata/proto/metadata_store.proto
--   Consistency    CheckFieldsConsistent of metadata_store.cc
--   Ancestry       CheckCyClicDependency of rdbms_metadata_access_object.cc
--   Tables         the tables and their queries, with the uniqueness constraints
--   Types          CreateTypeImpl, FindTypeImpl, UpdateTypeImpl and the parent types
--   Upsert         UpsertType, UpsertTypes and UpsertTypeInheritanceLink
--   EventEdges     CheckEventEdges
--   Values         the value columns: BindValue, PopulateNodeProperties and struct_utils.cc
--   Properties     ValidatePropertiesWithType and ModifyProperties
--   Nodes          CreateNodeImpl, FindNodesImpl, UpdateNodeImpl and the three upserts
--   ListQuery      the options and page tokens of list operations, and the query they turn into
--   ListNodes      ListNodes, and what a client gets that follows the page tokens
--   Finds          the searches: events by their ends, nodes by links, type and uri
--   Expand         the traversal of a lineage query: the expansions and the boundary nodes
--   Lineage        QueryLineageGraph and GetLineageGraph
--   Links          CreateEvent, CreateAssociation, CreateAttribution, CreateParentContext
--   PutExecution   PutExecution, UpsertContextWithOptions and UpsertArtifactAndEvent
--   PutNodes       PutArtifacts, PutExecutions and PutContexts
--   Gets           the handlers that get events and nodes
--   TypeHandlers   the handlers that put and get types, SetBaseType and GetSystemTypeEnum
--   Puts           PutEvents, PutAttributionsAndAssociations and PutParentContexts
-- A module with the code has children that hold its theorems, named for what they are about, and a
-- child Tests with concrete runs.
--
-- The templates over artifacts, executions and contexts are functions of a `Kind`. The database is a
-- record of tables, each a list of rows in the order of insertion; an AUTOINCREMENT key is a counter.
-- Ids are natural numbers. A query has its documented effect or breaks a uniqueness constraint; that
-- an engine fails in other ways is left to `Source`, whose driver is a parameter. The time that
-- absl::Now reads is an argument: one time for a whole handler that reads it more than once, except
-- PutArtifacts and its like, which take a clock. Arguments are also the order in which a hash set is
-- walked and the order in which an engine gives the events that a query selects; the other queries
-- without an ORDER BY, that of EventPath among them, give their rows in the order of insertion.
-- Base64, the parsing of a struct and the printing of a double are the fields of `Codec`, those of
-- page tokens the fields of `TokenCodec`, the rows that a filter query selects a `FilterQuery`, and
-- the queries of a migration those of `Engine`. The walk over ancestors has fuel, two more than
-- there are rows, and a theorem that it is enough; so has the loop over batches of boundary nodes
-- (Expand/Fuel), as much as there are candidates; the other loops are structural.
--
-- Not modelled: the engines and their clients, gRPC and the server's main, filter queries (which
-- print syntax trees of ZetaSQL), generated bindings; deletions, which no handler calls; and the
-- set-up of the store by InitMetadataStore and Create.
pub mod Prelude
pub mod Status
pub mod Exec
pub mod Source
pub mod Schema
pub mod Maps
pub mod Messages
pub mod Consistency
pub mod Ancestry
pub mod Tables
pub mod Types
pub mod Upsert
pub mod EventEdges
pub mod Values
pub mod Properties
pub mod Nodes
pub mod Links
pub mod PutExecution
pub mod Puts
pub mod PutNodes
pub mod Gets
pub mod TypeHandlers
pub mod ListQuery
pub mod ListNodes
pub mod Finds
pub mod Expand
pub mod Lineage
