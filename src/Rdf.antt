-- ===== src/Rdf.antt =====
-- Named graphs as the queries in `holonbridge/acl.py` and `holonbridge/delegation.py` read them:
-- a list of triples, `ASK { s p o }` and the objects of `s p ?o`.
mod Triples
pub use Triples.*
