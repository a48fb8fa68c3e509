-- ===== src/Input/Actor/Replay.antt =====
-- The handlers of src/input/actor.rs, and each command, keep the lists of held keys as the commands say.
use Prim.Native.String.{String}
use hypr_rdp.Base.{
  ℕ, ◌≡◌, Bool, true, false, some, List, [], ◌∷◌, if◌then◌else◌, arith, inl, inr, ◌⊎◌, ◌↔◌,
  Bool-cases, Option-cases, subst, sym, ◌∙◌,
}
use hypr_rdp.Input.Keymap.{xt_to_evdev}
use hypr_rdp.Input.Keyboard.{KeyboardStateTracker, UnicodeKeyMapping, layout_index_by_name}
use hypr_rdp.Input.Depressed.{DepressedKeys, contains, is_empty, press, release}
use hypr_rdp.Input.Depressed.Laws.{contains-push_new, contains-without}
use hypr_rdp.Input.Actor.{
  left_shift_key, is_modifier, KeyboardEvent, pressed, released, synchronize, unicode_pressed,
  unicode_released, InputCommand, keyboard, mouse, release_held, apply_keymap, set_locked_layout,
  set_initial_layout, keymap_call, key_call, Env, Actor, emit, announce_flush, release_depressed,
  release_held_keys, press_unicode, hold_unicode_shift, drop_unicode_shift, release_unicode,
  synchronize_keys, handle_rdp_event, handle_own_layout_event, lock_group, switch_keymap,
  handle_command, pick_initial_layout,
}
use hypr_rdp.Input.Actor.Typing.{Maps}
use hypr_rdp.Input.Actor.Calls.{At, is_down, release_depressed-At}
use hypr_rdp.Input.Actor.Held.{release_held_keys-At}
use hypr_rdp.Input.Actor.Client.{
  Edge, key_edge, shift_edge, all_up, key_down, shift_down, character_edges, event_edges,
  command_edges,
}
use hypr_rdp.Input.Actor.Mirrors.{
  hold_unicode_shift-Mirrors, drop_unicode_shift-Mirrors, press_key-Mirrors, release_key-Mirrors,
  Mirrors, no_keys-Mirrors, empty-contains, nothing-Mirrors,
}

plain_press-Mirrors :
    (d : DepressedKeys) (j : ℕ) (es : List Edge)
    → Mirrors d es
    → Mirrors (press d j false) (key_edge j true ∷ es)
unfolding press
plain_press-Mirrors d j es m = record {
  by_key = λ k. let was = m.by_key k in ground (arith, contains-push_new d.plain j k);
  by_shift = m.by_shift;
}

plain_release-Mirrors :
    (d : DepressedKeys) (j : ℕ) (es : List Edge)
    → contains d.modifiers j ≡ false
    → Mirrors d es
    → Mirrors (release d j false) (key_edge j false ∷ es)
unfolding release
plain_release-Mirrors d j es free m = record {
  by_key = λ k. let was = m.by_key k in ground (arith, contains-without d.plain j k);
  by_shift = m.by_shift;
}

-- The edges of a key and of a Shift can be taken in either order.
swap-Mirrors :
    (d : DepressedKeys) (j cp : ℕ) (down down' : Bool) (es : List Edge)
    → Mirrors d (shift_edge cp down ∷ (key_edge j down' ∷ es))
    → Mirrors d (key_edge j down' ∷ (shift_edge cp down ∷ es))
swap-Mirrors d j cp down down' es m = record { by_key = m.by_key; by_shift = m.by_shift }

module _ {S : Type 0} (v : Env S) where
  press_unicode-Mirrors :
      (a : Actor S) (t cp : ℕ) (m : UnicodeKeyMapping) (es : List Edge)
      → Mirrors a.depressed es
      → Mirrors (press_unicode v a t cp m).depressed (character_edges (some m) cp true es)
  unfolding press_unicode emit
  press_unicode-Mirrors a t cp m es h = elim (Bool-cases m.needs_shift) [
    | inl e ↦
        rw (e, press_unicode)
          (plain_press-Mirrors (hold_unicode_shift v a t cp).depressed m.evdev_key
            (shift_edge cp true ∷ es) (hold_unicode_shift-Mirrors v a t cp es h))
    | inr e ↦ rw (e, press_unicode) (plain_press-Mirrors a.depressed m.evdev_key es h)
  ]

  release_unicode-Mirrors :
      (a : Actor S) (t cp : ℕ) (m : UnicodeKeyMapping) (es : List Edge)
      → is_modifier m.evdev_key ≡ false
      → At m.evdev_key a
      → Mirrors a.depressed es
      → Mirrors (release_unicode v a t cp m).depressed (character_edges (some m) cp false es)
  unfolding release_unicode emit
  release_unicode-Mirrors a t cp m es plain at h =
      let key = m.evdev_key in
      let free : contains a.depressed.modifiers key ≡ false = ground arith in
      let b = record a {
        depressed = release a.depressed key false;
        calls = key_call t key false ∷ a.calls;
      } in
      let up = plain_release-Mirrors a.depressed key es free h in
      elim (Bool-cases m.needs_shift) [
        | inl e ↦
            rw (e, release_unicode)
              (swap-Mirrors (drop_unicode_shift v b t cp).depressed key cp false false es
                (drop_unicode_shift-Mirrors v b t cp (key_edge key false ∷ es) up))
        | inr e ↦ rw (e, release_unicode) up
      ]

  released-Mirrors :
      (a : Actor S) (t : ℕ) (es : List Edge)
      → At 0 a
      → Mirrors (release_depressed v a t).0.depressed (all_up ∷ es)
  released-Mirrors a t es at =
      subst (λ d. Mirrors d (all_up ∷ es)) (sym (release_depressed-At v 0 a t at).2)
        (no_keys-Mirrors es)

  release_held_keys-Mirrors :
      (a : Actor S) (t : ℕ) (es : List Edge)
      → ((k : ℕ) → At k a)
      → Mirrors (release_held_keys v a t).depressed (all_up ∷ es)
  release_held_keys-Mirrors a t es at =
      nothing-Mirrors (release_held_keys v a t).depressed es
        (λ k. let (after, up) = release_held_keys-At v k a t (at k) in sym after.tracks ∙ up)

  event-Mirrors :
      (a : Actor S) (t : ℕ) (e : KeyboardEvent) (es : List Edge)
      → Maps a.tracker
      → ((k : ℕ) → At k a)
      → Mirrors a.depressed es
      → Mirrors (handle_rdp_event v a t e).depressed (event_edges v a e es)
  unfolding handle_rdp_event event_edges synchronize_keys announce_flush
  event-Mirrors a t (pressed code extended) es maps at h =
      elim (Option-cases (xt_to_evdev code extended)) [
        | inl e ↦ rw (e, handle_rdp_event, event_edges) h
        | inr (j, e) ↦ rw (e, handle_rdp_event, event_edges) (press_key-Mirrors v a t j es (at j) h)
      ]
  event-Mirrors a t (released code extended) es maps at h =
      elim (Option-cases (xt_to_evdev code extended)) [
        | inl e ↦ rw (e, handle_rdp_event, event_edges) h
        | inr (j, e) ↦
            rw (e, handle_rdp_event, event_edges) (release_key-Mirrors v a t j es (at j) h)
      ]
  event-Mirrors a t (synchronize flags) es maps at h = released-Mirrors a t es (at 0)
  event-Mirrors a t (unicode_pressed cp) es maps at h =
      elim (Option-cases (a.tracker.unicode_to_keycode cp)) [
        | inl e ↦ rw (e, handle_rdp_event, event_edges) h
        | inr (m, e) ↦ rw (e, handle_rdp_event, event_edges) (press_unicode-Mirrors a t cp m es h)
      ]
  event-Mirrors a t (unicode_released cp) es maps at h =
      elim (Option-cases (a.tracker.unicode_to_keycode cp)) [
        | inl e ↦ rw (e, handle_rdp_event, event_edges) h
        | inr (m, e) ↦
            rw (e, handle_rdp_event, event_edges)
              (release_unicode-Mirrors a t cp m es (maps cp m e) (at m.evdev_key) h)
      ]

  lock_group-depressed : (a : Actor S) (group : ℕ) → (lock_group v a group).depressed ≡ a.depressed
  unfolding lock_group announce_flush
  lock_group-depressed a group = ground arith

  own_layout-depressed :
      (a : Actor S) (name : String) → (handle_own_layout_event v a name).depressed ≡ a.depressed
  unfolding handle_own_layout_event announce_flush emit
  own_layout-depressed a name = ground arith

  switch_keymap-Mirrors :
      (a : Actor S) (t : ℕ) (keymap : List ℕ) (tracker : KeyboardStateTracker S) (es : List Edge)
      → At 0 a
      → Mirrors a.depressed es
      → Mirrors
          (switch_keymap v a t keymap tracker).depressed
          (if v.accepts a.calls keymap then all_up ∷ es else es)
  unfolding switch_keymap announce_flush emit
  switch_keymap-Mirrors a t keymap tracker es at h =
      let b = record a { calls = keymap_call keymap ∷ a.calls } in
      let there : At 0 b = record {
        tracks = at.tracks;
        plain_only = at.plain_only;
        modifiers_only = at.modifiers_only;
        once = at.once;
        turns = at.turns;
      } in
      elim (Bool-cases (v.accepts a.calls keymap)) [
        | inl e ↦ rw (e, switch_keymap) (released-Mirrors b t es there)
        | inr e ↦ rw (e, switch_keymap) h
      ]

  pub command-Mirrors :
      (a : Actor S) (t : ℕ) (c : InputCommand) (es : List Edge)
      → Maps a.tracker
      → ((k : ℕ) → At k a)
      → Mirrors a.depressed es
      → Mirrors (handle_command v a t c).depressed (command_edges v a c es)
  unfolding handle_command command_edges emit
  command-Mirrors a t release_held es maps at h = release_held_keys-Mirrors a t es at
  command-Mirrors a t (keyboard e) es maps at h = event-Mirrors a t e es maps at h
  command-Mirrors a t (mouse e) es maps at h = h
  command-Mirrors a t (apply_keymap keymap) es maps at h = elim (Option-cases (v.load keymap)) [
    | inl e ↦ rw (e, handle_command, command_edges) h
    | inr (tracker, e) ↦
        rw (e, handle_command, command_edges) (switch_keymap-Mirrors a t keymap tracker es (at 0) h)
  ]
  command-Mirrors a t (set_locked_layout name true) es maps at h =
      subst (λ d. Mirrors d es) (sym (own_layout-depressed a name)) h
  command-Mirrors a t (set_locked_layout name false) es maps at h =
      elim (Option-cases (layout_index_by_name a.tracker name)) [
        | inl e ↦ rw (e, handle_command, command_edges) h
        | inr (group, e) ↦
            rw (e, handle_command, command_edges)
              (subst (λ d. Mirrors d es) (sym (lock_group-depressed a group)) h)
      ]
  command-Mirrors a t (set_initial_layout c) es maps at h =
      elim (Option-cases (pick_initial_layout (λ name. layout_index_by_name a.tracker name) c)) [
        | inl e ↦ rw (e, handle_command, command_edges) h
        | inr (p, e) ↦
            rw (e, handle_command, command_edges)
              (subst (λ d. Mirrors d es) (sym (lock_group-depressed a p.1)) h)
      ]

contains_any : (xs : List ℕ) → is_empty xs ≡ false → (c : ℕ) × (contains xs c ≡ true)
unfolding contains
contains_any [] e = cc
contains_any (x ∷ xs) e = (x, ground arith)

-- What is down by the lists is down by the edges.
pub is_down-edges :
    (d : DepressedKeys) (es : List Edge) (k : ℕ)
    → Mirrors d es
    → (is_down d k ≡ true)
      ↔ ((key_down k es ≡ true) ⊎ ((k ≡ left_shift_key) × ((c : ℕ) × (shift_down c es ≡ true))))
is_down-edges d es k m =
    let keys = m.by_key k in
    (
      λ down. elim (Bool-cases (key_down k es)) [
        | inl e ↦ inl e
        | inr e ↦
            let any : is_empty d.unicode_shift_owners ≡ false = ground arith in
            let (c, there) = contains_any d.unicode_shift_owners any in
            inr (ground arith, (c, sym (m.by_shift c) ∙ there))
      ],
      λ edges. elim edges [
        | inl e ↦ ground arith
        | inr (is, (c, e)) ↦
            let there = m.by_shift c ∙ e in
            elim (Bool-cases (is_empty d.unicode_shift_owners)) [
              | inl none_there ↦
                  let gone = empty-contains d.unicode_shift_owners c none_there in ground arith
              | inr any ↦ ground arith
            ]
      ],
    )
