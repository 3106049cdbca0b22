-- ===== src/Maps.antt =====
-- google::protobuf::Map<std::string, V>: a list of entries, in the order in which a loop happens to
-- meet them. The keys of a message's map are distinct (`IsMap`).
mod Lookup
mod Overlap
unfoldable pub use Lookup.{lookup, contains}
pub use Lookup.{
  IsMap, or_else, contains-lookup, lookup-append, lookup-behind, lookup-tail, lookup_self,
  contains_self, contains-tail,
}
unfoldable pub use Overlap.{shared, missing}
pub use Overlap.{shared-missing, missing-zero, missing-of_contains, shared_comm}
