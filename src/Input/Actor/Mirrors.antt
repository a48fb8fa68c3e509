-- ===== src/Input/Actor/Mirrors.antt =====
-- The lists of held keys in src/input/actor.rs say what the client's commands say, after every command.
use hypr_rdp.Base.{ℕ, ◌≡◌, refl, true, false, ◌||◌, List, [], ◌∷◌, arith}
use hypr_rdp.Input.Depressed.{
  DepressedKeys, contains, is_empty, no_keys, holds_modifier, press_unicode_shift,
  release_unicode_shift, press, release,
}
use hypr_rdp.Input.Depressed.Laws.{contains-push_new, contains-without}
use hypr_rdp.Input.Actor.{
  left_shift_key, is_modifier, Env, Actor, emit, press_key, release_key, hold_unicode_shift,
  drop_unicode_shift,
}
use hypr_rdp.Input.Actor.Calls.{At, is_down, drive_key_lem}
use hypr_rdp.Input.Actor.Client.{Edge, key_edge, shift_edge, all_up, key_down, shift_down}

-- The actor's lists hold what the edges say.
pub record Mirrors (d : DepressedKeys) (es : List Edge) : Type 0 where
  pub by_key : (k : ℕ) → (contains d.plain k || contains d.modifiers k) ≡ key_down k es
  pub by_shift : (c : ℕ) → contains d.unicode_shift_owners c ≡ shift_down c es

pub no_keys-Mirrors : (es : List Edge) → Mirrors no_keys (all_up ∷ es)
unfolding contains
no_keys-Mirrors es = record { by_key = λ k. refl; by_shift = λ c. refl }

pub empty-contains : (xs : List ℕ) (k : ℕ) → is_empty xs ≡ true → contains xs k ≡ false
unfolding contains
empty-contains [] k e = refl
empty-contains (x ∷ xs) k e = cc

pub nothing-Mirrors :
    (d : DepressedKeys) (es : List Edge) → ((k : ℕ) → is_down d k ≡ false) → Mirrors d (all_up ∷ es)
nothing-Mirrors d es up = record {
  by_key = λ k. let here = up k in ground arith;
  by_shift =
      λ c. let here = up left_shift_key in empty-contains d.unicode_shift_owners c (ground arith);
}

module _ {S : Type 0} (v : Env S) where
  pub press_key-Mirrors :
      (a : Actor S) (t j : ℕ) (es : List Edge)
      → At j a
      → Mirrors a.depressed es
      → Mirrors (press_key v a t j).depressed (key_edge j true ∷ es)
  unfolding press_key press emit holds_modifier
  press_key-Mirrors a t j es h m = record {
    by_key = λ k.
        let was = m.by_key k in
        ground (
          arith,
          drive_key_lem v k (record a { depressed = press a.depressed j (is_modifier j) }) t j true,
          contains-push_new a.depressed.plain j k,
          contains-push_new a.depressed.modifiers j k,
        );
    by_shift = λ c.
        let was = m.by_shift c in
        ground (
          arith,
          drive_key_lem v c (record a { depressed = press a.depressed j (is_modifier j) }) t j true,
        );
  }

  pub release_key-Mirrors :
      (a : Actor S) (t j : ℕ) (es : List Edge)
      → At j a
      → Mirrors a.depressed es
      → Mirrors (release_key v a t j).depressed (key_edge j false ∷ es)
  unfolding release_key release emit holds_modifier
  release_key-Mirrors a t j es h m = record {
    by_key = λ k.
        let was = m.by_key k in
        ground (
          arith,
          drive_key_lem v k (record a { depressed = release a.depressed j (is_modifier j) }) t j
              false,
          contains-without a.depressed.plain j k,
          contains-without a.depressed.modifiers j k,
        );
    by_shift = λ c.
        let was = m.by_shift c in
        ground (
          arith,
          drive_key_lem v c (record a { depressed = release a.depressed j (is_modifier j) }) t j
              false,
        );
  }

  pub hold_unicode_shift-Mirrors :
      (a : Actor S) (t cp : ℕ) (es : List Edge)
      → Mirrors a.depressed es
      → Mirrors (hold_unicode_shift v a t cp).depressed (shift_edge cp true ∷ es)
  unfolding hold_unicode_shift press_unicode_shift
  hold_unicode_shift-Mirrors a t cp es m = record {
    by_key = λ k.
        let was = m.by_key k in
        ground (
          arith,
          drive_key_lem v k (record a { depressed = press_unicode_shift a.depressed cp }) t
              left_shift_key true,
        );
    by_shift = λ c.
        let was = m.by_shift c in
        ground (
          arith,
          drive_key_lem v c (record a { depressed = press_unicode_shift a.depressed cp }) t
              left_shift_key true,
          contains-push_new a.depressed.unicode_shift_owners cp c,
        );
  }

  pub drop_unicode_shift-Mirrors :
      (a : Actor S) (t cp : ℕ) (es : List Edge)
      → Mirrors a.depressed es
      → Mirrors (drop_unicode_shift v a t cp).depressed (shift_edge cp false ∷ es)
  unfolding drop_unicode_shift release_unicode_shift
  drop_unicode_shift-Mirrors a t cp es m = record {
    by_key = λ k.
        let was = m.by_key k in
        ground (
          arith,
          drive_key_lem v k (record a { depressed = (release_unicode_shift a.depressed cp).0 }) t
              left_shift_key false,
        );
    by_shift = λ c.
        let was = m.by_shift c in
        ground (
          arith,
          drive_key_lem v c (record a { depressed = (release_unicode_shift a.depressed cp).0 }) t
              left_shift_key false,
          contains-without a.depressed.unicode_shift_owners cp c,
        );
  }
