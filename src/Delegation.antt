-- ===== src/Delegation.antt =====
-- holonbridge/delegation.py: validation of a request, and the lookup of active delegations.
--
-- An instant is a number of seconds (UTC). `datetime.fromisoformat` and the regular expression that
-- drops fractional seconds are parameters. The queries are read on the triples of the `holons` graph.
pub mod Request
pub mod Lookup
pub mod Resolve
pub mod Build
