-- ===== src/Tests.antt =====
-- The theorems at concrete inputs, and small runs of the definitions.
mod Syntax
mod Working
mod Requiring
mod Selecting
mod Expanding
mod Parsing
mod Scoping
mod Capabilities
mod Policies
mod Loading
mod Secrets
mod Serials
mod Filtering
mod Grouping
