-- ===== src/Input/Keymap/Inverse.antt =====
-- No two scancodes of src/input/keymap.rs share a keycode.
use native.Mathlib.Decide.{ℕ_discrete}
use hypr_rdp.Base.{
  ◌≤◌, ◌+◌, ℕ, zero, suc, ◌<◌, ◌≡◌, refl, sym, ap, ◌∙◌, Bool, true, false, ◌&&◌, Option, none, some,
  List, [], ◌∷◌, leb, ◌==◌, if◌then◌else◌, arith,
}
use hypr_rdp.Input.Keymap.{lookup_code, base_codes, extended_codes, xt_to_evdev}

abbrev swap_codes : List (ℕ × ℕ) → List (ℕ × ℕ)
swap_codes [] = []
swap_codes ((a, b) ∷ m) = (b, a) ∷ swap_codes m

-- A keycode tagged by the table that it comes from.
abbrev tagged : Option ℕ → Bool → ℕ × Bool
tagged none extended = (0, extended)
tagged (some code) extended = (code, extended)

abbrev extended_or_base : Option ℕ → ℕ → ℕ × Bool
extended_or_base (some code) key = (code, true)
extended_or_base none key = tagged (lookup_code key (swap_codes base_codes)) false

-- An independent inverse: below 0x54 and from 0x56 to 0x58 a key is its own code.
evdev_to_xt : ℕ → ℕ × Bool
evdev_to_xt key =
    if leb key 0x53
    then (key, false)
    else if leb 0x56 key && leb key 0x58
    then (key, false)
    else extended_or_base (lookup_code key (swap_codes extended_codes)) key

abbrev pair_eqb : ℕ × Bool → ℕ → Bool → Bool
pair_eqb (a, true) b true = a == b
pair_eqb (a, false) b false = a == b
pair_eqb _ _ _ = false

abbrev inverts : Option ℕ → ℕ → Bool → Bool
inverts none code extended = true
inverts (some key) code extended = pair_eqb (evdev_to_xt key) code extended && leb key 255

-- Whether a test passes for all codes from `from` on, `count` of them.
every_code : (test : ℕ → Bool) (from count : ℕ) → Bool
every_code test from zero = true
every_code test from (suc count) = if test from then every_code test (suc from) count else false

every_code_sound :
    (test : ℕ → Bool) (from count code : ℕ)
    → every_code test from count ≡ true
    → from ≤ code
    → code < from + count
    → test code ≡ true
unfolding every_code
every_code_sound test from zero code h lo hi = absurd (omega arith)
every_code_sound test from (suc count) code h lo hi = elim (ℕ_discrete from code) [
  | yes e ↦ ground arith
  | no other ↦
      every_code_sound test (suc from) count code (ground arith) (omega arith) (omega arith)
]

base_table : every_code (λ c. inverts (xt_to_evdev c false) c false) 0 256 ≡ true
unfolding every_code xt_to_evdev evdev_to_xt
base_table = refl

extended_table : every_code (λ c. inverts (xt_to_evdev c true) c true) 0 256 ≡ true
unfolding every_code xt_to_evdev evdev_to_xt
extended_table = refl

inverts_all :
    (code : ℕ) (extended : Bool)
    → code < 256
    → inverts (xt_to_evdev code extended) code extended ≡ true
inverts_all code true h =
    every_code_sound (λ c. inverts (xt_to_evdev c true) c true) 0 256 code extended_table
      (omega arith) (omega arith)
inverts_all code false h =
    every_code_sound (λ c. inverts (xt_to_evdev c false) c false) 0 256 code base_table
      (omega arith) (omega arith)

pair_eqb_sound : (p : ℕ × Bool) (b : ℕ) (y : Bool) → pair_eqb p b y ≡ true → p ≡ (b, y)
pair_eqb_sound (a, true) b true h = ground arith
pair_eqb_sound (a, false) b false h = ground arith
pair_eqb_sound (a, true) b false h = cc
pair_eqb_sound (a, false) b true h = cc

inverts_sound :
    (r : Option ℕ) (code : ℕ) (extended : Bool) {key : ℕ}
    → r ≡ some key
    → inverts r code extended ≡ true
    → (evdev_to_xt key ≡ (code, extended)) × (key < 256)
inverts_sound r code extended {key} e h =
    (pair_eqb_sound (evdev_to_xt key) code extended (ground arith), ground arith)

-- Two scancodes of one byte with the same keycode are the same scancode, from the same table, and the
-- keycode fits a byte.
pub xt_to_evdev-injective :
    (c d : ℕ) (x y : Bool) (key : ℕ)
    → c < 256
    → d < 256
    → xt_to_evdev c x ≡ some key
    → xt_to_evdev d y ≡ some key
    → (c ≡ d) × (x ≡ y) × (key < 256)
xt_to_evdev-injective c d x y key hc hd ec ed =
    let p = inverts_sound (xt_to_evdev c x) c x ec (inverts_all c x hc) in
    let q = inverts_sound (xt_to_evdev d y) d y ed (inverts_all d y hd) in
    let e : ◌≡◌ {A = ℕ × Bool} (c, x) (d, y) = sym p.0 ∙ q.0 in
    (ap (λ (t : ℕ × Bool). t.0) e, ap (λ (t : ℕ × Bool). t.1) e, p.1)
