-- ===== src/Fluent.antt =====
-- holonbridge/fluent.py: the plan of a transition of a fluent, and its guarded commit.
--
-- The scene of one fluent has at most one current value and assertion, and a list of members. One
-- request appends to the ledger and changes the scene under one guard, so it is one function here.
-- `Decimal` and `date` arithmetic on lexical forms, and SPARQL's `=` on terms, are parameters. The
-- pre-commit check reads scratch copies only and either lets the commit go on or stops it.
pub mod Race
pub mod Chain
pub mod Confirm
use holon_bridge_python.Prelude.{
  ℕ, String, List, [], ◌∷◌, Bool, true, false, ◌&&◌, not, Option, none, some, ◌==◌, Result, ok, err,
  require, ◌>>◌, ◌>>=◌, if◌then◌else◌, any, select, find,
}

pub data OperationMode : Type 0 where
  numeric date set_value list : OperationMode

pub data Operation : Type 0 where
  set insert remove list_insert list_remove : Operation

-- `_VALID_OPS`
unfoldable pub valid_ops : OperationMode → Operation → Bool
valid_ops list list_insert = true
valid_ops list list_remove = true
valid_ops numeric set = true
valid_ops numeric insert = true
valid_ops numeric remove = true
valid_ops date set = true
valid_ops date insert = true
valid_ops date remove = true
valid_ops set_value set = true
valid_ops _ _ = false

pub data FluentError : Type 0 where
  invalid_operation no_current_value bad_value not_a_member contention : FluentError

pub record TypedValue : Type 0 where
  pub is_uri : Bool
  pub lexical : String
  pub datatype : Option String

-- A caller's value: `_lexical_form`, `str()`, `_xsd_datatype` of it, and the term of `_render_input`.
pub record Input : Type 0 where
  pub lexical_form : String
  pub text : String
  pub xsd_datatype : Option String
  pub rendered : TypedValue
  pub is_iri : Bool

-- Python's arithmetic on lexical forms, `none` where it raises, and SPARQL's `=`.
pub record Arithmetic : Type 0 where
  pub decimal : (add : Bool) → (old delta : String) → Option String
  pub days : (add : Bool) → (old delta : String) → Option String
  pub same : TypedValue → TypedValue → Bool

pub data Guard : Type 0 where
  always unset : Guard
  holds_value has_item : TypedValue → Guard

pub data Change : Type 0 where
  assign add_item remove_item : TypedValue → Change

pub record Plan : Type 0 where
  pub new_value : TypedValue
  pub guard : Guard
  pub change : Change

abbrev pub member_value : Input → TypedValue
member_value v = record { is_uri = v.is_iri; lexical = v.text; datatype = none }

abbrev pub set_to : Input → TypedValue
set_to v = record {
  is_uri = v.is_iri;
  lexical = v.lexical_form;
  datatype = if v.is_iri then none else v.xsd_datatype;
}

abbrev pub literal_or : Option String → String → Result FluentError TypedValue
literal_or none datatype = err bad_value
literal_or (some s) datatype = ok (record { is_uri = false; lexical = s; datatype = some datatype })

-- The value after a delta.
unfoldable pub moved :
    Arithmetic
    → OperationMode
    → (add : Bool) → (current : TypedValue) → Input
    → Result FluentError TypedValue
moved a numeric add current v =
    literal_or (a.decimal add current.lexical v.text) "http://www.w3.org/2001/XMLSchema#decimal"
moved a date add current v =
    literal_or (a.days add current.lexical v.text) "http://www.w3.org/2001/XMLSchema#date"
moved a set_value add current v = err invalid_operation
moved a list add current v = err invalid_operation

abbrev pub delta :
    Arithmetic
    → OperationMode
    → (add : Bool) → (current : Option TypedValue) → Input
    → Result FluentError TypedValue
delta a mode add none v = err no_current_value
delta a mode add (some current) v = moved a mode add current v

abbrev pub guard_of : Option TypedValue → Guard
guard_of none = unset
guard_of (some v) = holds_value v

abbrev pub assigning : Option TypedValue → TypedValue → Plan
assigning current v = record { new_value = v; guard = guard_of current; change = assign v }

-- `_plan`
unfoldable pub plan :
    Arithmetic
    → OperationMode
    → Operation
    → (current : Option TypedValue) → Input
    → Result FluentError Plan
plan a mode list_insert current v =
    ok (record { new_value = member_value v; guard = always; change = add_item v.rendered })
plan a mode list_remove current v = ok (record {
  new_value = member_value v;
  guard = has_item v.rendered;
  change = remove_item v.rendered;
})
plan a mode set current v = ok (assigning current (set_to v))
plan a mode insert current v = delta a mode true current v >>= λ new. ok (assigning current new)
plan a mode remove current v = delta a mode false current v >>= λ new. ok (assigning current new)

pub record Scene : Type 0 where
  pub value : Option TypedValue
  pub assertion : Option String
  pub items : List TypedValue

-- A StateAssertion.
pub record Entry : Type 0 where
  pub iri : String
  pub operation : Operation
  pub old_value : Option TypedValue
  pub has_value : TypedValue
  pub supersedes : Option String

-- The graphs of one fluent; the ledger's latest entry is first.
pub record Store : Type 0 where
  pub scene : Scene
  pub ledger : List Entry

abbrev same_datatype : Option String → Option String → Bool
same_datatype none none = true
same_datatype (some a) (some b) = a == b
same_datatype _ _ = false

-- The same RDF term.
abbrev pub same_term : TypedValue → TypedValue → Bool
same_term a b =
    (if a.is_uri then b.is_uri else not b.is_uri)
    && (a.lexical == b.lexical && same_datatype a.datatype b.datatype)

abbrev pub is_value : Arithmetic → TypedValue → Option TypedValue → Bool
is_value a v none = false
is_value a v (some existing) = a.same existing v

unfoldable pub guard_holds : Arithmetic → Guard → Scene → Bool
guard_holds a always s = true
guard_holds a unset s = elim s.value [ none ↦ true | some _ ↦ false ]
guard_holds a (holds_value v) s = is_value a v s.value
guard_holds a (has_item v) s = any (λ x. same_term x v) s.items

unfoldable pub apply_change : String → Change → Scene → Scene
apply_change iri (assign v) s = record s { value = some v; assertion = some iri }
apply_change iri (add_item v) s =
    if any (λ x. same_term x v) s.items then s else record s { items = v ∷ s.items }
apply_change iri (remove_item v) s = record s { items = select (λ x. not (same_term x v)) s.items }

-- What an attempt has read and planned, under the assertion IRI that it minted.
pub record Attempt : Type 0 where
  pub iri : String
  pub operation : Operation
  pub current : Option TypedValue
  pub current_assertion : Option String
  pub planned : Plan

-- A list_remove of a value that is no member is refused up front.
abbrev pub may_apply : Arithmetic → Operation → Input → Scene → Bool
may_apply a list_remove v s = any (λ x. a.same x v.rendered) s.items
may_apply a _ v s = true

-- The reads of one attempt, up to its plan.
unfoldable pub read_and_plan :
    Arithmetic
    → OperationMode
    → Operation
    → Input
    → (iri : String) → Store
    → Result FluentError Attempt
read_and_plan a mode operation v iri store = do
  require (valid_ops mode operation) invalid_operation
  require (may_apply a operation v store.scene) not_a_member
  planned ← plan a mode operation store.scene.value v
  ok (record {
    iri = iri;
    operation = operation;
    current = store.scene.value;
    current_assertion = store.scene.assertion;
    planned = planned;
  })

-- The live commit: ledger and scene together, or neither.
unfoldable pub commit : Arithmetic → Attempt → Store → Store
commit a t store =
    if guard_holds a t.planned.guard store.scene
    then record {
      scene = apply_change t.iri t.planned.change store.scene;
      ledger =
          record {
            iri = t.iri;
            operation = t.operation;
            old_value = t.current;
            has_value = t.planned.new_value;
            supersedes = t.current_assertion;
          }
          ∷ store.ledger;
    }
    else store

-- `_confirm_own_assertion`
unfoldable pub confirm : (iri : String) → Store → Option TypedValue
confirm iri store = elim (find (λ e. e.iri == iri) store.ledger) [
  | none ↦ none
  | some e ↦ some e.has_value
]
