-- ===== src/Lineage/JsonFile.antt =====
-- The JSON files of lineage/_io.py: what is written for an object, and how a file is read.
pub mod Trees
use post_training_rsi_pipeli.Prelude.{
  String, List, [], ◌∷◌, Option, none, some, Bool, true, false, not, ◌&&◌, Outcome, ok, raise,
  lineage_conflict, lineage_integrity, ◌>>=◌, ◌≡◌, ◌↔◌, str_eq, if◌then◌else◌,
}
use post_training_rsi_pipeli.Platform.{Platform}
use post_training_rsi_pipeli.ControlPlane.Value.{Fields, normalize_json_object}
use post_training_rsi_pipeli.ControlPlane.Value.Canonical.{is_canonical}

-- The `json` module on `bytes`.
pub record Json (P : Platform) : Type 1 where
  -- the content of a file, with `==`
  pub Bytes : Type 0
  pub same : Bytes → Bytes → Bool
  -- `(json.dumps(value, ...) + "\n").encode("utf-8")`
  pub dumps : Fields P → Bytes
  -- `json.load` of a file with the content; `none` if it is no JSON object
  pub load : Bytes → Option (Fields P)

-- Equality of bytes, and the documented round trip: an object of JSON values with finite numbers
-- and sorted keys is read back from its text.
pub record IsJson (P : Platform) (json : Json P) : Type 0 where
  pub same_iff : (a b : json.Bytes) → (json.same a b ≡ true) ↔ (a ≡ b)
  pub load-dumps :
      (value : Fields P) → is_canonical P value ≡ true → json.load (json.dumps value) ≡ some value

module _ (P : Platform) (json : Json P) where
  unfoldable pub canonical_json_bytes : Fields P → Outcome json.Bytes
  canonical_json_bytes payload = do
    normalized ← normalize_json_object P payload
    ok (json.dumps normalized)

  -- `read_json_object` of a file with the content
  unfoldable pub read_json_object : json.Bytes → Outcome (Fields P)
  read_json_object content = elim (json.load content) [
    | none ↦ raise lineage_integrity
    | some value ↦ ok value
  ]

  -- A directory: the names of its files with their contents.
  abbrev pub Directory : Type 0
  Directory = List (String × json.Bytes)

  abbrev pub read_file : String → Directory → Option json.Bytes
  read_file name [] = none
  read_file name ((n, content) ∷ files) =
      if str_eq name n then some content else read_file name files

  -- `write_immutable`: the content is created, or is there already
  unfoldable pub write_immutable : String → json.Bytes → Directory → Outcome Directory
  write_immutable name content files = elim (read_file name files) [
    | none ↦ ok ((name, content) ∷ files)
    | some existing ↦ if json.same existing content then ok files else raise lineage_conflict
  ]
