-- ===== src/ControlPlane/Text.antt =====
-- The text tests of control_plane/validation.py, character by character.
pub mod Laws
use Prim.Native.Char.{code}
use Prim.Native.String.{◌++◌ as append, char_at}
use post_training_rsi_pipeli.Prelude.{
  ℕ, zero, suc, ◌-◌, Bool, true, false, not, ◌&&◌, ◌||◌, String, List, [], ◌∷◌, length, all, any,
  leb, ◌==◌, if◌then◌else◌,
}

-- the code points of a text
abbrev pub codes : String → List ℕ
codes String.[] = []
codes (String.◌∷◌ c s) = code c ∷ codes s

unfoldable pub between : ℕ → ℕ → ℕ → Bool
between lo hi c = leb lo c && leb c hi

-- [A-Za-z0-9]
unfoldable pub is_alnum : ℕ → Bool
unfolding between
is_alnum c = between b'A' b'Z' c || between b'a' b'z' c || between b'0' b'9' c

-- [A-Za-z0-9._:-]
unfoldable pub is_id_char : ℕ → Bool
unfolding is_alnum
is_id_char c = is_alnum c || c == b'.' || c == b'_' || c == b':' || c == b'-'

unfoldable pub id_codes : List ℕ → Bool
unfolding is_id_char
id_codes [] = false
id_codes (c ∷ cs) = is_alnum c && all is_id_char cs && leb (length cs) 255

-- `_ID_PATTERN.fullmatch(value)`: one letter or digit, and at most 255 more characters
unfoldable pub is_id : String → Bool
unfolding id_codes
is_id s = id_codes (codes s)

-- [0-9a-f]
unfoldable pub is_hex : ℕ → Bool
unfolding between
is_hex c = between b'0' b'9' c || between b'a' b'f' c

-- `_SHA256_PATTERN.fullmatch(value)`
unfoldable pub is_sha256 : String → Bool
unfolding is_hex
is_sha256 s = all is_hex (codes s) && length (codes s) == 64

-- what `str.strip` removes: `str.isspace`
unfoldable pub is_space : ℕ → Bool
unfolding between
is_space c =
    between 9 13 c
    || between 28 32 c
    || c == 0x85
    || c == 0xa0
    || c == 0x1680
    || between 0x2000 0x200a c
    || c == 0x2028
    || c == 0x2029
    || c == 0x202f
    || c == 0x205f
    || c == 0x3000

-- a control character other than tab, newline and carriage return
unfoldable pub is_control : ℕ → Bool
is_control c = leb c 31 && not (c == 9 || c == 10 || c == 13)

-- the two tests of `validate_text`
unfoldable pub is_text : String → Bool
unfolding is_space is_control
is_text s = not (all is_space (codes s)) && not (any is_control (codes s))

-- value.replace("Z", "+00:00")
unfoldable pub z_to_offset : String → String
z_to_offset String.[] = ""
z_to_offset (String.◌∷◌ c s) =
    let rest = z_to_offset s in if code c == b'Z' then append "+00:00" rest else String.◌∷◌ c rest

abbrev is_offset : List ℕ → Bool
is_offset (a ∷ b ∷ c ∷ d ∷ e ∷ f ∷ []) =
    a == b'+' && b == b'0' && c == b'0' && d == b':' && e == b'0' && f == b'0'
is_offset _ = false

-- value.replace("+00:00", "Z")
unfoldable pub offset_to_z : String → String
offset_to_z
      (String.◌∷◌ a (String.◌∷◌ b (String.◌∷◌ c (String.◌∷◌ d (String.◌∷◌ e (String.◌∷◌ f s)))))) =
    elim (is_offset (code a ∷ code b ∷ code c ∷ code d ∷ code e ∷ code f ∷ [])) [
      | true ↦ append "Z" (offset_to_z s)
      | false ↦
          String.◌∷◌ a (
            offset_to_z
              (String.◌∷◌ b (String.◌∷◌ c (String.◌∷◌ d (String.◌∷◌ e (String.◌∷◌ f s))))))
    ]
offset_to_z s = s

-- value[:n]
unfoldable pub take_text : ℕ → String → String
take_text zero s = ""
take_text (suc n) String.[] = ""
take_text (suc n) (String.◌∷◌ c s) = String.◌∷◌ c (take_text n s)

-- `value.lower()` of a text in ASCII
unfoldable pub lower : String → String
unfolding between
lower String.[] = ""
lower (String.◌∷◌ c s) =
    String.◌∷◌
      (if between b'A' b'Z' (code c)
        then char_at "abcdefghijklmnopqrstuvwxyz" (code c - b'A')
        else c)
      (lower s)
