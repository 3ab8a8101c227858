-- ===== src/Tests/Transitions.antt =====
-- Runs of fluent transitions.
use holon_bridge_python.Prelude.{
  String, List, [], ◌∷◌, map, false, none, some, ◌≡◌, ◌≢◌, inl, inr, refl, sym, ap, ◌∙◌, eq_iff, In,
  ◌==◌, if◌then◌else◌,
}
use holon_bridge_python.Fluent.{
  OperationMode, set_value, set, TypedValue, Input, Arithmetic, assigning, plan, valid_ops, Entry,
  guard_holds, apply_change, Attempt, read_and_plan, commit, confirm,
}
use holon_bridge_python.Fluent.Race.{Step, reads, commits, step, run, fresh}
use holon_bridge_python.Fluent.Chain.{Chained, Shows, transitions-Chained}
use holon_bridge_python.Fluent.Confirm.{commit_all, confirm_own}

abbrev arithmetic : Arithmetic
arithmetic = record {
  decimal = λ add old delta. none;
  days = λ add old delta. none;
  same = λ x y. x.lexical == y.lexical;
}

abbrev text_value : String → TypedValue
text_value s = record { is_uri = false; lexical = s; datatype = none }

abbrev input : String → Input
input s = record {
  lexical_form = s;
  text = s;
  xsd_datatype = none;
  rendered = text_value s;
  is_iri = false;
}

-- b reads what a left, c sets the same value again, and then b commits.
abbrev transitions : List Step
transitions =
    reads set (input "open") "a"
    ∷ commits "a"
    ∷ reads set (input "closed") "b"
    ∷ reads set (input "open") "c"
    ∷ commits "c"
    ∷ commits "b"
    ∷ []

not_list : set_value ≢ OperationMode.list
not_list e = cc

transitions-Chained_example :
    Chained arithmetic (run arithmetic set_value transitions fresh).store.ledger
    × Shows
        (run arithmetic set_value transitions fresh).store.ledger
        (run arithmetic set_value transitions fresh).store.scene.value
transitions-Chained_example = transitions-Chained arithmetic set_value transitions not_list

-- The guard compares values: b and c both supersede a, and c is superseded by none.
superseded_twice :
    map (λ (e : Entry). e.supersedes) (run arithmetic set_value transitions fresh).store.ledger
    ≡ some "a" ∷ some "a" ∷ none ∷ []
unfolding run step read_and_plan plan valid_ops commit guard_holds apply_change
superseded_twice = refl

abbrev attempt : String → Attempt
attempt iri = record {
  iri = iri;
  operation = set;
  current = none;
  current_assertion = none;
  planned = assigning none (text_value iri);
}

others : (u : Attempt) → In u (attempt "b" ∷ []) → u.iri ≢ "a"
others u (inl e) = λ same.
    let at = ap (λ (x : Attempt). x.iri) e in let equal = (eq_iff "b" "a").1 (sym at ∙ same) in cc
others u (inr m) = absurd m

unwritten : confirm "a" fresh.store ≡ none
unfolding confirm
unwritten = refl

confirm_own_example :
    confirm "a"
      (commit_all arithmetic (attempt "b" ∷ []) (commit arithmetic (attempt "a") fresh.store))
    ≡ (if guard_holds arithmetic (attempt "a").planned.guard fresh.store.scene
        then some (text_value "a")
        else none)
confirm_own_example =
    confirm_own arithmetic (attempt "a") (attempt "b" ∷ []) fresh.store unwritten others
