-- ===== src/Clipboard/Formats.antt =====
-- The rest of src/clipboard/formats.rs: the kinds of a selection and their MIME types, what is
-- written for each, the repair of a bitmap's header, and the decoding of texts. A file's or a
-- text's bytes are a list of numbers below 256.
pub mod Mimes
pub mod Utf16
pub mod Bitmap
use Prim.Native.String.{String}
use package.text.Mathlib.Text.{◌==◌ as str_eq}
use hypr_rdp.Base.{
  ℕ, ◌+◌, ◌-◌, ◌*◌, ◌/◌, ◌%◌, Bool, true, false, ◌&&◌, ◌||◌, not, Option, none, some, List, [], ◌∷◌,
  ◌++◌, ◌==◌, if◌then◌else◌, ltb, leb, length, get_or, take, drop, u64_max,
}

abbrev pub text_mime : String
text_mime = "text/plain;charset=utf-8"

abbrev pub utf8_mime : String
utf8_mime = "UTF8_STRING"

abbrev pub text_plain_mime : String
text_plain_mime = "text/plain"

abbrev pub latin1_string_mime : String
latin1_string_mime = "STRING"

abbrev pub image_png_mime : String
image_png_mime = "image/png"

abbrev pub file_uri_list_mime : String
file_uri_list_mime = "text/uri-list"

abbrev pub gnome_copied_files_mime : String
gnome_copied_files_mime = "x-special/gnome-copied-files"

pub data SelectionKind : Type 0 where
  text image files : SelectionKind

unfoldable pub accepts_wayland_mime : SelectionKind → String → Bool
accepts_wayland_mime text mime =
    str_eq mime text_mime || (str_eq mime utf8_mime || str_eq mime text_plain_mime)
accepts_wayland_mime image mime = str_eq mime image_png_mime
accepts_wayland_mime files mime =
    str_eq mime file_uri_list_mime || str_eq mime gnome_copied_files_mime

-- `iter().find(test)`.
abbrev pub find : (String → Bool) → List String → Option String
find test [] = none
find test (mime ∷ mimes) = let rest = find test mimes in if test mime then some mime else rest

-- The Latin-1 fallback: for texts alone.
abbrev pub latin1_offer : SelectionKind → List String → Option String
latin1_offer text mimes = find (λ mime. str_eq mime latin1_string_mime) mimes
latin1_offer _ mimes = none

abbrev pub or_fallback : Option String → Option String → Option String
or_fallback none other = other
or_fallback (some mime) other = some mime

unfoldable pub offered_wayland_mime : SelectionKind → List String → Option String
unfolding accepts_wayland_mime
offered_wayland_mime kind mimes =
    or_fallback (find (accepts_wayland_mime kind) mimes) (latin1_offer kind mimes)

pub data PendingWrite : Type 0 where
  text_data : List ℕ → PendingWrite
  image_data : List ℕ → PendingWrite
  files_data : (uri_list gnome_copied_files : List ℕ) → PendingWrite

unfoldable pub write_kind : PendingWrite → SelectionKind
write_kind (text_data _) = text
write_kind (image_data _) = image
write_kind (files_data _ _) = files

unfoldable pub data_for_mime : PendingWrite → String → Option (List ℕ)
unfolding accepts_wayland_mime
data_for_mime (text_data bytes) mime = if accepts_wayland_mime text mime then some bytes else none
data_for_mime (image_data bytes) mime = if accepts_wayland_mime image mime then some bytes else none
data_for_mime (files_data uri_list gnome_copied_files) mime =
    if str_eq mime file_uri_list_mime
    then some uri_list
    else if str_eq mime gnome_copied_files_mime
    then some gnome_copied_files
    else none

-- `u16::from_le_bytes` and `u32::from_le_bytes` of the bytes at an index.
abbrev pub le16_at : List ℕ → ℕ → ℕ
le16_at bytes i = get_or bytes i 0 + 256 * get_or bytes (i + 1) 0

abbrev pub le32_at : List ℕ → ℕ → ℕ
le32_at bytes i = le16_at bytes i + 65536 * le16_at bytes (i + 2)

abbrev pub bi_rgb : List ℕ
bi_rgb = 0 ∷ (0 ∷ (0 ∷ (0 ∷ [])))

unfoldable pub fix_bitfields_dib : List ℕ → Option (List ℕ)
fix_bitfields_dib bytes =
    if ltb (length bytes) 52
    then none
    else if not (le32_at bytes 0 == 40)
    then none
    else if not (le16_at bytes 14 == 32)
    then none
    else if not (le32_at bytes 16 == 3)
    then none
    else some (take 16 bytes ++ (bi_rgb ++ (take 20 (drop 20 bytes) ++ drop 52 bytes)))

-- `char::encode_utf8`.
abbrev pub encode_utf8 : ℕ → List ℕ
encode_utf8 c =
    if ltb c 0x80
    then c ∷ []
    else if ltb c 0x800
    then (0xC0 + c / 64) ∷ ((0x80 + c % 64) ∷ [])
    else if ltb c 0x10000
    then (0xE0 + c / 4096) ∷ ((0x80 + c / 64 % 64) ∷ ((0x80 + c % 64) ∷ []))
    else (0xF0 + c / 262144)
      ∷ ((0x80 + c / 4096 % 64) ∷ ((0x80 + c / 64 % 64) ∷ ((0x80 + c % 64) ∷ [])))

abbrev pub encode_all_utf8 : List ℕ → List ℕ
encode_all_utf8 [] = []
encode_all_utf8 (c ∷ cs) = encode_utf8 c ++ encode_all_utf8 cs

-- `as_chunks::<2>` with `u16::from_le_bytes`: a last odd byte is left out.
abbrev pub units : List ℕ → List ℕ
units [] = []
units (a ∷ []) = []
units (a ∷ (b ∷ bytes)) = (a + 256 * b) ∷ units bytes

-- The units before the first 0.
abbrev pub until_nul : List ℕ → List ℕ
until_nul [] = []
until_nul (u ∷ us) = let rest = until_nul us in if u == 0 then [] else u ∷ rest

abbrev pub is_high : ℕ → Bool
is_high u = leb 0xD800 u && ltb u 0xDC00

abbrev pub is_low : ℕ → Bool
is_low u = leb 0xDC00 u && ltb u 0xE000

abbrev pub replacement : ℕ
replacement = 0xFFFD

abbrev pub pair : (high low : ℕ) → ℕ
pair high low = (high - 0xD800) * 1024 + (low - 0xDC00) + 0x10000

-- `String::from_utf16_lossy`: a surrogate without its partner becomes U+FFFD.
unfoldable pub from_utf16_lossy : List ℕ → List ℕ
from_utf16_lossy [] = []
from_utf16_lossy (u ∷ []) = if is_high u || is_low u then replacement ∷ [] else u ∷ []
from_utf16_lossy (u ∷ (v ∷ us)) = elim (is_high u && is_low v) [
  | true ↦ pair u v ∷ from_utf16_lossy us
  | false ↦ (if is_high u || is_low u then replacement else u) ∷ from_utf16_lossy (v ∷ us)
]

unfoldable pub utf16le_to_utf8 : List ℕ → List ℕ
unfolding from_utf16_lossy
utf16le_to_utf8 bytes = encode_all_utf8 (from_utf16_lossy (until_nul (units bytes)))

-- `byte >= 0x80`, counted.
abbrev pub high_bytes : List ℕ → ℕ
high_bytes [] = 0
high_bytes (b ∷ bytes) = (if leb 0x80 b then 1 else 0) + high_bytes bytes

-- A text in ISO-8859-1; `checked_add` is of 64 bits.
latin1_to_utf8 : List ℕ → (limit : ℕ) → Option (List ℕ)
latin1_to_utf8 bytes limit =
    let output_len = length bytes + high_bytes bytes in
    if ltb u64_max output_len || ltb limit output_len then none else some (encode_all_utf8 bytes)

unfoldable pub decode_wayland_text_offer : String → List ℕ → (limit : ℕ) → Option (List ℕ)
unfolding latin1_to_utf8
decode_wayland_text_offer mime bytes limit =
    if ltb limit (length bytes)
    then none
    else if str_eq mime text_mime || (str_eq mime utf8_mime || str_eq mime text_plain_mime)
    then some bytes
    else if str_eq mime latin1_string_mime
    then latin1_to_utf8 bytes limit
    else none
