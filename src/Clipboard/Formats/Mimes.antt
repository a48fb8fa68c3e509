-- ===== src/Clipboard/Formats/Mimes.antt =====
-- Which MIME type is asked for, and what is given for it.
use Prim.Native.String.{String}
use package.text.Mathlib.Text.{◌==◌ as str_eq}
use hypr_rdp.Base.{
  ℕ, ◌+◌, ◌≤◌, ◌≡◌, refl, Bool, true, false, none, some, List, [], ◌∷◌, arith, length, is_some, All,
  length-append, ◌<◌, ltb, leb, if◌then◌else◌, u64_max, Bool-cases, Option-cases, inl, inr,
}
use hypr_rdp.Clipboard.Formats.{
  text, PendingWrite, text_data, image_data, files_data, accepts_wayland_mime, offered_wayland_mime,
  find, write_kind, data_for_mime, high_bytes, encode_utf8, encode_all_utf8, latin1_to_utf8,
  decode_wayland_text_offer, latin1_string_mime,
}

pub data-for_mime_iff :
    (w : PendingWrite) (mime : String)
    → is_some (data_for_mime w mime) ≡ accepts_wayland_mime (write_kind w) mime
unfolding data_for_mime write_kind accepts_wayland_mime
data-for_mime_iff (text_data bytes) mime = ground arith
data-for_mime_iff (image_data bytes) mime = ground arith
data-for_mime_iff (files_data uris gnome) mime = ground arith

find-accepts :
    (test : String → Bool) (mimes : List String) (mime : String)
    → find test mimes ≡ some mime
    → test mime ≡ true
find-accepts test [] mime h = cc
find-accepts test (m ∷ mimes) mime h = elim (Bool-cases (test m)) [
  | inl e ↦ cc
  | inr e ↦ find-accepts test mimes mime (rw e at h)
]

-- The UTF-8 form of a Latin-1 text has a byte more for each byte from 0x80 on.
length-encode_all_utf8 :
    (bytes : List ℕ)
    → All (λ b. b < 256) bytes
    → length (encode_all_utf8 bytes) ≡ length bytes + high_bytes bytes
length-encode_all_utf8 [] h = refl
length-encode_all_utf8 (b ∷ bytes) h =
    let rest = length-encode_all_utf8 bytes h.1 in
    let joined = length-append (encode_utf8 b) (encode_all_utf8 bytes) in
    elim (Bool-cases (ltb b 0x80)) [ inl e ↦ ground arith | inr e ↦ ground arith ]

-- What a text offer decodes to: the bytes themselves, or their UTF-8 form for Latin-1.
abbrev pub decoded : String → List ℕ → List ℕ
decoded mime bytes = if accepts_wayland_mime text mime then bytes else encode_all_utf8 bytes

offered_latin1 :
    (mimes : List String) (mime : String)
    → offered_wayland_mime text mimes ≡ some mime
    → accepts_wayland_mime text mime ≡ false
    → str_eq mime latin1_string_mime ≡ true
unfolding offered_wayland_mime
offered_latin1 mimes mime offered refused =
    elim (Option-cases (find (accepts_wayland_mime text) mimes)) [
      | inl e ↦ find-accepts (λ m. str_eq m latin1_string_mime) mimes mime (rw e at offered)
      | inr (m, e) ↦
          let accepted = find-accepts (accepts_wayland_mime text) mimes m e in
          let same : m ≡ mime = cc in absurd (cc)
    ]

-- Of the MIME types that are offered for a text, whichever is picked can be decoded: to the bytes
-- themselves, or from Latin-1 to their UTF-8 form, exactly if that is within the limit.
pub decode-offered :
    (mimes : List String) (mime : String) (bytes : List ℕ) (limit : ℕ)
    → offered_wayland_mime text mimes ≡ some mime
    → All (λ b. b < 256) bytes
    → limit ≤ u64_max
    → decode_wayland_text_offer mime bytes limit
      ≡ (if leb (length (decoded mime bytes)) limit then some (decoded mime bytes) else none)
unfolding decode_wayland_text_offer accepts_wayland_mime latin1_to_utf8
decode-offered mimes mime bytes limit offered b8 l64 =
    elim (Bool-cases (accepts_wayland_mime text mime)) [
      | inl e ↦ rw e (ground arith)
      | inr e ↦
          let latin1 = offered_latin1 mimes mime offered e in
          let size = length-encode_all_utf8 bytes b8 in rw (e, latin1) (ground arith)
    ]
