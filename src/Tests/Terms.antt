-- ===== src/Tests/Terms.antt =====
-- Terms that are read back.
use Prim.Native.String.{◌++◌}
use holon_bridge_python.Prelude.{String, true, false, ◌≡◌, refl, some, ok}
use holon_bridge_python.Prelude.Text.{any_char, local_name}
use holon_bridge_python.Params.{
  integer, other, str, render_term_core, is_iri_datatype, escape_literal, expand_datatype,
  has_scheme,
}
use holon_bridge_python.Params.Literals.{read_literal, read_literal-escape_literal}
use holon_bridge_python.Params.Rendered.{read_iri, is_control, type_suffix, render_term_core-reads}

-- Quotation marks, a backslash and a line break, and an attempt to end the literal.
abbrev attack : String
attack = "a\" } ; DROP ALL # \\\n"

read_literal-escape_literal_example :
    read_literal false (escape_literal attack ++ ("\"" ++ " . }")) ≡ some (attack, " . }")
read_literal-escape_literal_example = read_literal-escape_literal attack " . }"

attack_escaped : escape_literal attack ≡ "a\\\" } ; DROP ALL # \\\\\\n"
unfolding escape_literal
attack_escaped = refl

rendered : render_term_core (λ p t. false) (other "urn:x") "xsd:anyURI" ≡ ok "<urn:x>"
unfolding render_term_core is_iri_datatype expand_datatype local_name has_scheme str
rendered = refl

render_term_core-reads_example :
    (is_iri_datatype "xsd:anyURI" ≡ true
      → any_char is_control (str (other "urn:x")) ≡ false
      → (body : String) × ("<urn:x>" ++ " }" ≡ "<" ++ body)
        × (read_iri body ≡ some (str (other "urn:x"), " }")))
    × ((s : String)
        → other "urn:x" ≡ other s
        → is_iri_datatype "xsd:anyURI" ≡ false
        → (body : String) × ("<urn:x>" ++ " }" ≡ "\"" ++ body)
          × (read_literal false body ≡ some (s, type_suffix "xsd:anyURI" ++ " }")))
render_term_core-reads_example =
    render_term_core-reads (λ p t. false) (other "urn:x") "xsd:anyURI" "<urn:x>" " }" rendered

-- A number goes into the query as it is, whatever the declared datatype.
untyped : render_term_core (λ p t. false) (integer "5") "xsd:dateTime" ≡ ok "5"
unfolding render_term_core is_iri_datatype expand_datatype local_name
untyped = refl
