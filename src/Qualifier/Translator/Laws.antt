-- ===== src/Qualifier/Translator/Laws.antt =====
-- Which qualifiers a command depends on, and when none is generated.
use mathlib.Core.Path.{fun_ext}
use bb_remote_asset.Prelude.{
  String, ◌≡◌, refl, sym, ◌∙◌, Bool, true, false, not, Option, none, some, List, [], ◌∷◌, arith,
  ◌==◌, if◌then◌else◌, All, has_char, split_whole, split_parts,
}
use bb_remote_asset.Prelude.Effect.{ok, Result, panic, and_then}
use bb_remote_asset.Dict.{lookup, insert, lookup-insert}
use bb_remote_asset.Qualifier.Defs.{Qualifier}
use bb_remote_asset.Qualifier.Translator.{
  Command, make_map, git_command, parse_checksum, octet_stream_command, qualifiers_to_command,
  make_map_from, command_for,
}

-- The value of the last qualifier of the name.
unfoldable pub last_value : String → List Qualifier → Option String
last_value k [] = none
last_value k (q ∷ qs) = elim (last_value k qs) [
  | some v ↦ some v
  | none ↦ if q.name == k then some q.value else none
]

abbrev or_else : Option String → Option String → Option String
or_else (some v) o = some v
or_else none o = o

lookup-make_map_from :
    (k : String) (m : List (String × String)) (qs : List Qualifier)
    → lookup k (make_map_from m qs) ≡ or_else (last_value k qs) (lookup k m)
unfolding make_map_from last_value
lookup-make_map_from k m [] = refl
lookup-make_map_from k m (q ∷ qs) =
    ground
      (arith, lookup-make_map_from k (insert q.name q.value m) qs, lookup-insert q.name k q.value m)

or_else-none : (o : Option String) → or_else o none ≡ o
or_else-none none = refl
or_else-none (some v) = refl

-- Of qualifiers with one name the last counts.
pub lookup-make_map : (k : String) (qs : List Qualifier) → lookup k (make_map qs) ≡ last_value k qs
unfolding make_map lookup
lookup-make_map k qs = lookup-make_map_from k [] qs ∙ or_else-none (last_value k qs)

-- The names that the generators read.
abbrev pub read_names : List String
read_names =
    "resource_type" ∷ "vcs.branch" ∷ "vcs.commit" ∷ "auth.basic.username" ∷ "auth.basic.password"
    ∷ "checksum.sri" ∷ []

-- Two lists of qualifiers give every name that the generators read the same last value.
abbrev pub AgreeOn : List String → List Qualifier → List Qualifier → Type 0
AgreeOn ks qs rs = All (λ k. last_value k qs ≡ last_value k rs) ks

same_lookup :
    (k : String) (qs rs : List Qualifier)
    → last_value k qs ≡ last_value k rs
    → lookup k (make_map qs) ≡ lookup k (make_map rs)
same_lookup k qs rs e = lookup-make_map k qs ∙ e ∙ sym (lookup-make_map k rs)

module _ (m n : List (String × String)) where
  git_command-cong :
      lookup "vcs.branch" m ≡ lookup "vcs.branch" n
      → lookup "vcs.commit" m ≡ lookup "vcs.commit" n
      → (url : String) → git_command m url ≡ git_command n url
  unfolding git_command
  git_command-cong b c url = rw (b, c)

  octet_stream_command-cong :
      lookup "auth.basic.username" m ≡ lookup "auth.basic.username" n
      → lookup "auth.basic.password" m ≡ lookup "auth.basic.password" n
      → lookup "checksum.sri" m ≡ lookup "checksum.sri" n
      → (url : String) → octet_stream_command m url ≡ octet_stream_command n url
  unfolding octet_stream_command
  octet_stream_command-cong u p s url = rw (u, p, s)

  command_for-cong :
      (o : Option String)
      → ((url : String) → git_command m url ≡ git_command n url)
      → ((url : String) → octet_stream_command m url ≡ octet_stream_command n url)
      → command_for m o ≡ command_for n o
  unfolding command_for
  command_for-cong none g h = refl
  command_for-cong (some t) g h = rw (fun_ext h) (rw (fun_ext g))

-- The command depends on the last values of those six names alone.
pub qualifiers_to_command-cong :
    (qs rs : List Qualifier)
    → AgreeOn read_names qs rs
    → qualifiers_to_command qs ≡ qualifiers_to_command rs
unfolding qualifiers_to_command
qualifiers_to_command-cong qs rs (t, (b, (c, (u, (p, (s, _)))))) =
    rw (same_lookup "resource_type" qs rs t) (
      command_for-cong (make_map qs) (make_map rs) (lookup "resource_type" (make_map rs))
        (git_command-cong _ _ (same_lookup _ qs rs b) (same_lookup _ qs rs c))
        (octet_stream_command-cong _ _ (same_lookup _ qs rs u) (same_lookup _ qs rs p)
          (same_lookup _ qs rs s)))

-- The expression has no `-`.
abbrev pub HasNoDash : String → Type 0
HasNoDash c = has_char b'-' c ≡ false

pub parse_checksum_panics : (c : String) → HasNoDash c → parse_checksum c ≡ panic
unfolding parse_checksum
parse_checksum_panics c h = rw (split_whole b'-' c h)

pub parse_checksum_parts :
    (c : String) → has_char b'-' c ≡ true → (p : String × String) × (parse_checksum c ≡ ok p)
unfolding parse_checksum
parse_checksum_parts c h = let (p, q, r, e) = split_parts b'-' c h in ((p, q), rw e)

-- The command for one URI.
unfoldable pub command_of : List Qualifier → String → Result Command
command_of qs uri = and_then (qualifiers_to_command qs) λ generate. generate uri

-- A checksum expression is there, and has no dash.
abbrev pub checksum_fault : Option String → Bool
checksum_fault none = false
checksum_fault (some c) = not (has_char b'-' c)
