-- ===== src/Input/Keymap.antt =====
-- src/input/keymap.rs: RDP scancodes to Linux evdev keycodes.
pub mod Inverse
use hypr_rdp.Base.{
  ℕ, Bool, true, false, ◌&&◌, Option, none, some, List, [], ◌∷◌, leb, ◌==◌, if◌then◌else◌,
}

-- The first pair with the given key.
abbrev pub lookup_code : ℕ → List (ℕ × ℕ) → Option ℕ
lookup_code k [] = none
lookup_code k ((j, v) ∷ m) = if j == k then some v else lookup_code k m

-- The arms of the two `match`es, in their order.
abbrev pub base_codes : List (ℕ × ℕ)
base_codes = (0x70, 93) ∷ (0x73, 89) ∷ (0x79, 92) ∷ (0x7B, 94) ∷ (0x7D, 124) ∷ (0x7E, 121) ∷ []

abbrev pub extended_codes : List (ℕ × ℕ)
extended_codes =
    (0x10, 165)
    ∷ (0x19, 163)
    ∷ (0x1C, 96)
    ∷ (0x1D, 97)
    ∷ (0x20, 113)
    ∷ (0x21, 140)
    ∷ (0x22, 164)
    ∷ (0x24, 166)
    ∷ (0x2E, 114)
    ∷ (0x30, 115)
    ∷ (0x32, 172)
    ∷ (0x35, 98)
    ∷ (0x37, 99)
    ∷ (0x38, 100)
    ∷ (0x46, 119)
    ∷ (0x47, 102)
    ∷ (0x48, 103)
    ∷ (0x49, 104)
    ∷ (0x4B, 105)
    ∷ (0x4D, 106)
    ∷ (0x4F, 107)
    ∷ (0x50, 108)
    ∷ (0x51, 109)
    ∷ (0x52, 110)
    ∷ (0x53, 111)
    ∷ (0x5B, 125)
    ∷ (0x5C, 126)
    ∷ (0x5D, 127)
    ∷ (0x65, 217)
    ∷ (0x66, 156)
    ∷ (0x6B, 157)
    ∷ (0x6C, 155)
    ∷ []

unfoldable pub xt_extended_to_evdev : ℕ → Option ℕ
xt_extended_to_evdev code = lookup_code code extended_codes

abbrev is_direct : ℕ → Bool
is_direct code = if leb 0x01 code && leb code 0x53 then true else leb 0x56 code && leb code 0x58

unfoldable pub xt_to_evdev : ℕ → Bool → Option ℕ
unfolding xt_extended_to_evdev
xt_to_evdev code true = xt_extended_to_evdev code
xt_to_evdev code false = if is_direct code then some code else lookup_code code base_codes
