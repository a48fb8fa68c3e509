-- ===== src/Clipboard/Tests.antt =====
-- Small selections of src/clipboard: a text in both forms, the types it is offered in, a bitmap.
use Prim.Native.String.{String}
use hypr_rdp.Base.{◌≡◌, refl, arith, ℕ, List, [], ◌∷◌, All, some, leb, length, if◌then◌else◌, none}
use hypr_rdp.Clipboard.Text.{normalize_lf, to_crlf}
use hypr_rdp.Clipboard.Text.RoundTrip.{NotCr, endings_round_trip}
use hypr_rdp.Clipboard.Formats.{
  text, files_data, offered_wayland_mime, data_for_mime, decode_wayland_text_offer, utf16le_to_utf8,
  encode_all_utf8, fix_bitfields_dib,
}
use hypr_rdp.Clipboard.Formats.Mimes.{decoded, decode-offered}
use hypr_rdp.Clipboard.Formats.Utf16.{unicode_text, utf16le_round_trip}
use hypr_rdp.Clipboard.Formats.Bitmap.{IsRepair, fix_bitfields_dib-IsRepair}

-- "a", CR, "b", CRLF, LF.
abbrev lines : List ℕ
lines = 97 ∷ (13 ∷ (98 ∷ (13 ∷ (10 ∷ (10 ∷ [])))))

normalize_lf_run : normalize_lf lines ≡ 97 ∷ (10 ∷ (98 ∷ (10 ∷ (10 ∷ []))))
unfolding normalize_lf
normalize_lf_run = refl

to_crlf_run : to_crlf lines ≡ 97 ∷ (13 ∷ (10 ∷ (98 ∷ (13 ∷ (10 ∷ (13 ∷ (10 ∷ [])))))))
unfolding to_crlf
to_crlf_run = refl

endings_round_trip_example :
    (normalize_lf (to_crlf lines) ≡ normalize_lf lines)
    × (to_crlf (normalize_lf lines) ≡ to_crlf lines)
    × All NotCr (normalize_lf lines)
endings_round_trip_example = endings_round_trip lines

-- An A, a smiling face from the second plane, and an e with an acute accent.
abbrev face : List ℕ
face = 65 ∷ (0x1F600 ∷ (0xE9 ∷ []))

utf16le_round_trip_example :
    utf16le_to_utf8 (unicode_text face (7 ∷ (8 ∷ (9 ∷ [])))) ≡ encode_all_utf8 face
utf16le_round_trip_example = utf16le_round_trip face (7 ∷ (8 ∷ (9 ∷ []))) (ground arith)

-- A high surrogate at the end, and a low one alone.
lone_surrogates :
    utf16le_to_utf8 (0x00 ∷ (0xDC ∷ (0x41 ∷ (0 ∷ (0x3D ∷ (0xD8 ∷ []))))))
    ≡ encode_all_utf8 (0xFFFD ∷ (0x41 ∷ (0xFFFD ∷ [])))
unfolding utf16le_to_utf8
lone_surrogates = refl

abbrev motif_mimes : List String
motif_mimes = "TIMESTAMP" ∷ ("STRING" ∷ [])

abbrev cafe : List ℕ
cafe = 99 ∷ (0xE9 ∷ [])

motif_offer : offered_wayland_mime text motif_mimes ≡ some "STRING"
unfolding offered_wayland_mime
motif_offer = refl

decode-offered_example :
    decode_wayland_text_offer "STRING" cafe 3
    ≡ (if leb (length (decoded "STRING" cafe)) 3 then some (decoded "STRING" cafe) else none)
decode-offered_example =
    decode-offered motif_mimes "STRING" cafe 3 motif_offer (ground arith) (omega arith)

uri_list_for_files : data_for_mime (files_data cafe []) "text/uri-list" ≡ some cafe
unfolding data_for_mime
uri_list_for_files = refl

abbrev bitmap : List ℕ
bitmap =
    40
    ∷ (0
        ∷ (0
            ∷ (0
                ∷ (1
                    ∷ (0
                        ∷ (0
                            ∷ (0
                                ∷ (1
                                    ∷ (0
                                        ∷ (0
                                            ∷ (0
                                                ∷ (1
                                                    ∷ (0
                                                        ∷ (32
                                                            ∷ (0
                                                            ∷ (3
                                                            ∷ (0
                                                            ∷ (0
                                                            ∷ (0
                                                            ∷ (4
                                                            ∷ (0
                                                            ∷ (0
                                                            ∷ (0
                                                            ∷ (0
                                                            ∷ (0
                                                            ∷ (0
                                                            ∷ (0
                                                            ∷ (0
                                                            ∷ (0
                                                            ∷ (0
                                                            ∷ (0
                                                            ∷ (0
                                                            ∷ (0
                                                            ∷ (0
                                                            ∷ (0
                                                            ∷ (0
                                                            ∷ (0
                                                            ∷ (0
                                                            ∷ (0
                                                            ∷ (0
                                                            ∷ (0
                                                            ∷ (255
                                                            ∷ (0
                                                            ∷ (0
                                                            ∷ (255
                                                            ∷ (0
                                                            ∷ (0
                                                            ∷ (255
                                                            ∷ (0
                                                            ∷ (0 ∷ (0 ∷ (1 ∷ (2 ∷ (3 ∷ (4 ∷ []))))))
                                                            ))))))))))))))))))))))))))))))))))))))))
                                                            )))))))))

fix_bitfields_dib-IsRepair_example : IsRepair bitmap (fix_bitfields_dib bitmap)
fix_bitfields_dib-IsRepair_example = fix_bitfields_dib-IsRepair bitmap
