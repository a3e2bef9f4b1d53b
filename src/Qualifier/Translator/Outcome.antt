-- ===== src/Qualifier/Translator/Outcome.antt =====
-- When a command is generated for a URI, when it is refused, and when the generator panics.
use bb_remote_asset.Prelude.{
  String, ◌≡◌, refl, ap, ◌∙◌, ◌↔◌, ◌⊎◌, inl, inr, true, false, Option, none, some, List, [], ◌∷◌,
  arith, ◌==◌, eq_iff, Bool-cases, has_char,
}
use bb_remote_asset.Prelude.Effect.{ok, Error, plain, err, panic}
use bb_remote_asset.Dict.{lookup}
use bb_remote_asset.Qualifier.Defs.{Qualifier}
use bb_remote_asset.Qualifier.Translator.{
  tree_and_directory, Command, make_map, git_command, octet_stream_command, qualifiers_to_command,
  checksum_script, with_checksum, wget_script, command_for,
}
use bb_remote_asset.Qualifier.Translator.Laws.{
  last_value, lookup-make_map, parse_checksum_panics, parse_checksum_parts, command_of,
  checksum_fault,
}

checksum_outcome :
    (o : Option String) (script : String)
    → (checksum_fault o ≡ true) × (with_checksum o script ≡ panic)
      ⊎ (checksum_fault o ≡ false) × ((s : String) × (with_checksum o script ≡ ok s))
checksum_outcome none script = inr (refl, (script, refl))
checksum_outcome (some c) script = elim (Bool-cases (has_char b'-' c)) [
  | inl dash ↦
      let (p, e) = parse_checksum_parts c dash in inr (rw dash, (checksum_script script p, rw e))
  | inr missing ↦ inl (rw missing, rw (parse_checksum_panics c missing))
]

octet_stream_outcome :
    (m : List (String × String)) (url : String)
    → (checksum_fault (lookup "checksum.sri" m) ≡ true) × (octet_stream_command m url ≡ panic)
      ⊎ (checksum_fault (lookup "checksum.sri" m) ≡ false)
        × ((c : Command) × (octet_stream_command m url ≡ ok c))
unfolding octet_stream_command
octet_stream_outcome m url = elim (checksum_outcome (lookup "checksum.sri" m) (wget_script m url)) [
  | inl (f, e) ↦ inl (f, rw e)
  | inr (f, (s, e)) ↦ inr (
    f,
    (
      record {
        arguments = "sh" ∷ "-c" ∷ s ∷ [];
        output_paths = "out" ∷ [];
        output_directory_format = tree_and_directory;
        platform = none;
      },
      rw e,
    ),
  )
]

-- The three ways in which a resource type is read.
pub data Generated (qs : List Qualifier) (uri : String) : Type 0 where
  refused : (e : Error) → command_of qs uri ≡ err none e → Generated qs uri
  crashed :
      last_value "resource_type" qs ≡ some "application/octet-stream"
      → checksum_fault (last_value "checksum.sri" qs) ≡ true
      → command_of qs uri ≡ panic
      → Generated qs uri
  command : (c : Command) → command_of qs uri ≡ ok c → Generated qs uri

octet_stream-Generated :
    (qs : List Qualifier) (uri : String)
    → last_value "resource_type" qs ≡ some "application/octet-stream"
    → command_of qs uri ≡ octet_stream_command (make_map qs) uri
    → Generated qs uri
octet_stream-Generated qs uri t e = elim (octet_stream_outcome (make_map qs) uri) [
  | inl (f, p) ↦ crashed t (rw (lookup-make_map "checksum.sri" qs) at f) (e ∙ p)
  | inr (f, (c, p)) ↦ command c (e ∙ p)
]

-- The generator refuses, panics or yields a command; it panics only on a checksum without
-- a dash.
outcome_of :
    (qs : List Qualifier) (uri : String) (o : Option String)
    → last_value "resource_type" qs ≡ o
    → Generated qs uri
unfolding command_of qualifiers_to_command command_for
outcome_of qs uri none e =
    refused (plain "missing resource_type") (rw (lookup-make_map "resource_type" qs, e))
outcome_of qs uri (some t) e =
    let l = lookup-make_map "resource_type" qs ∙ e in
    elim (Bool-cases (t == "application/x-git")) [
      | inl git ↦ command (git_command (make_map qs) uri) (rw (l, git))
      | inr other ↦ elim (Bool-cases (t == "application/octet-stream")) [
        | inl octet ↦
            octet_stream-Generated qs uri (e ∙ ap some ((eq_iff _ _).0 octet))
              (rw (l, other, octet))
        | inr neither ↦ refused (plain "unhandled resource_type") (rw (l, other, neither))
      ]
    ]

generated : (qs : List Qualifier) (uri : String) → Generated qs uri
generated qs uri = outcome_of qs uri (last_value "resource_type" qs) refl

panic_found :
    (qs : List Qualifier) (uri : String)
    → command_of qs uri ≡ panic
    → (last_value "resource_type" qs ≡ some "application/octet-stream")
      × (checksum_fault (last_value "checksum.sri" qs) ≡ true)
panic_found qs uri h = elim (generated qs uri) [
  | refused e r ↦ cc
  | crashed t f _ ↦ (t, f)
  | command d r ↦ cc
]

panic_caused :
    (qs : List Qualifier) (uri : String)
    → last_value "resource_type" qs ≡ some "application/octet-stream"
    → checksum_fault (last_value "checksum.sri" qs) ≡ true
    → command_of qs uri ≡ panic
unfolding command_of qualifiers_to_command command_for
panic_caused qs uri t f = elim (octet_stream_outcome (make_map qs) uri) [
  | inl (_, p) ↦ rw (lookup-make_map "resource_type" qs, t) p
  | inr (g, _) ↦ ground (arith, f, g, lookup-make_map "checksum.sri" qs)
]

-- Generating a command panics exactly when the last `resource_type` is
-- `application/octet-stream` and the last `checksum.sri` is there and holds no `-`.
pub command_of-eq-panic_iff :
    (qs : List Qualifier) (uri : String)
    → (command_of qs uri ≡ panic) ↔ (
        (last_value "resource_type" qs ≡ some "application/octet-stream")
        × (checksum_fault (last_value "checksum.sri" qs) ≡ true))
command_of-eq-panic_iff qs uri = (panic_found qs uri, λ (t, f). panic_caused qs uri t f)
