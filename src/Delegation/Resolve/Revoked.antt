-- ===== src/Delegation/Resolve/Revoked.antt =====
-- A revoked delegation is never found again.
use holon_bridge_python.Prelude.{
  ℕ, String, List, true, Option, ◌≡◌, ◌≢◌, sym, ◌∙◌, ok, In, arith, ap, eq_iff,
}
use holon_bridge_python.Rdf.{Graph, iri, ask, ask_any}
use holon_bridge_python.Delegation.Request.{safe_iri}
use holon_bridge_python.Delegation.Lookup.{Clock, DelegationMatch, holon, rdf_type, find_delegation}
use holon_bridge_python.Delegation.Lookup.Active.{find_delegation_iff}
use holon_bridge_python.Delegation.Resolve.{stamp, revoke_update}

stamp_stamps :
    (g : Graph) (d when : String)
    → ask g d rdf_type (iri (holon "Delegation")) ≡ true
    → ask_any (stamp g d when) d (holon "revokedAt") ≡ true
unfolding stamp
stamp_stamps g d when typed = ground (arith, eq_iff d d)

stamp-stamp : (g : Graph) (d when later : String) → stamp (stamp g d when) d later ≡ stamp g d when
unfolding stamp
stamp-stamp g d when later = ground (arith, eq_iff d d)

revoke_update-eq-ok :
    (g g' : Graph) (holons_graph d when : String)
    → revoke_update g holons_graph d when ≡ ok g'
    → g' ≡ stamp g d when
unfolding revoke_update safe_iri
revoke_update-eq-ok g g' holons_graph d when h = ground arith

revoke_update_ok :
    (g g' x : Graph) (holons_graph d when later : String)
    → revoke_update g holons_graph d when ≡ ok g'
    → revoke_update x holons_graph d later ≡ ok (stamp x d later)
unfolding revoke_update safe_iri
revoke_update_ok g g' x holons_graph d when later h = ground arith

-- After a revocation of `d` that was not refused, no lookup (whoever asks, at any time, with any
-- narrowing) returns `d`.
pub revoke_update_final :
    (g g' : Graph) (holons_graph d when : String)
    → revoke_update g holons_graph d when ≡ ok g'
    → ask g d rdf_type (iri (holon "Delegation")) ≡ true
    → (clock : Clock) (now : ℕ) (delegate permission : String) (target delegator : Option String)
      (ms : List DelegationMatch)
    → find_delegation clock now g' holons_graph delegate permission target delegator ≡ ok ms
    → (m : DelegationMatch) → In m ms
    → m.delegation ≢ d
revoke_update_final g g' holons_graph d when h typed clock now delegate permission target delegator
      ms found m here same =
    let (row, _, active, _, shown) =
      (find_delegation_iff clock now g' holons_graph delegate permission target delegator ms found
          m).0
        here in
    let stamped = stamp_stamps g d when typed in
    let stored = revoke_update-eq-ok g g' holons_graph d when h in
    let e : row.d ≡ d = sym (ap (λ (x : DelegationMatch). x.delegation) shown) ∙ same in
    cc (stamped, active.unrevoked)

-- Revoking twice changes nothing more.
pub revoke_update_idem :
    (g g' : Graph) (holons_graph d when later : String)
    → revoke_update g holons_graph d when ≡ ok g'
    → revoke_update g' holons_graph d later ≡ ok g'
revoke_update_idem g g' holons_graph d when later h =
    let e = revoke_update-eq-ok g g' holons_graph d when h in
    cc (e, revoke_update_ok g g' g' holons_graph d when later h, stamp-stamp g d when later)
