-- ===== src/Capture/Gdi/Ledger.antt =====
-- What the system requires of the calls in gdi.rs: a ledger of the handles held, replayed over the
-- log of the calls.
use quicview.Prelude.{
  ℕ, ◌*◌, Bool, false, not, ◌&&◌, Option, none, some, List, [], ◌∷◌, ◌==◌, leb, length,
  if◌then◌else◌,
}
use quicview.Prelude.Int.{pos_part}
use quicview.Capture.Gdi.{Gdi}

-- The calls that name or return a handle, with what they were given and returned: the answer stands
-- last. The call that reads the bits is logged with the bytes that the system writes and the bytes
-- of the buffer.
pub data GdiCall : Type 0 where
  got_dc : ℕ → GdiCall
  made_dc made_bitmap : ℕ → ℕ → GdiCall
  selected : ℕ → ℕ → ℕ → GdiCall
  blitted : ℕ → ℕ → GdiCall
  read_bits : ℕ → ℕ → ℕ → ℕ → GdiCall
  deleted_object deleted_dc released_dc : ℕ → ℕ → GdiCall

-- The context of the screen, the memory context, the bitmap, and what is selected in the memory
-- context.
pub record Held : Type 0 where
  pub screen : Option ℕ
  pub mem : Option ℕ
  pub bitmap : Option ℕ
  pub chosen : Option ℕ

abbrev pub nothing_held : Held
nothing_held = record { screen = none; mem = none; bitmap = none; chosen = none }

abbrev pub holds : Option ℕ → ℕ → Bool
holds none h = false
holds (some x) h = x == h

-- A new handle joins; 0 is none. A slot that is taken would leak.
abbrev pub take_slot : Option ℕ → ℕ → Option (Option ℕ)
take_slot none h = some (if h == 0 then none else some h)
take_slot (some x) h = none

-- What a call leaves held; `none` if it uses a handle that is not held, loses one, deletes a bitmap
-- that is selected, or makes the system write past the buffer. A call that answered 0 failed: what it
-- was to select is not selected, and what it was to delete or release is still held.
abbrev pub after : GdiCall → Held → Option Held
after (got_dc h) l = elim (take_slot l.screen h) [
  | none ↦ none
  | some x ↦ some (record l { screen = x })
]
after (made_dc d h) l =
    if holds l.screen d
    then elim (take_slot l.mem h) [ none ↦ none | some x ↦ some (record l { mem = x }) ]
    else none
after (made_bitmap d h) l =
    if holds l.screen d
    then elim (take_slot l.bitmap h) [ none ↦ none | some x ↦ some (record l { bitmap = x }) ]
    else none
after (selected m x answer) l =
    if holds l.mem m then some (if answer == 0 then l else record l { chosen = some x }) else none
after (blitted m d) l = if holds l.mem m && holds l.screen d then some l else none
after (read_bits m b need size) l =
    if holds l.mem m && holds l.bitmap b && leb need size then some l else none
after (deleted_object b answer) l =
    if holds l.bitmap b && not (holds l.chosen b)
    then some (if answer == 0 then l else record l { bitmap = none })
    else none
after (deleted_dc m answer) l =
    if holds l.mem m
    then some (if answer == 0 then l else record l { mem = none; chosen = none })
    else none
after (released_dc d answer) l =
    if holds l.screen d then some (if answer == 0 then l else record l { screen = none }) else none

-- The newest call stands first.
abbrev pub replay : List GdiCall → Option Held
replay [] = some nothing_held
replay (c ∷ log) = elim (replay log) [ none ↦ none | some l ↦ after c l ]

-- The same system, with a log of the calls beside its state.
abbrev pub logged : {O : Type 0} → Gdi O → Gdi (O × List GdiCall)
logged g = record {
  screen_width = λ (o, log). g.screen_width o;
  screen_height = λ (o, log). g.screen_height o;
  header_size = g.header_size;
  bi_rgb = g.bi_rgb;
  get_dc = λ (o, log). let (o1, x) = g.get_dc o in ((o1, got_dc x ∷ log), x);
  create_compatible_dc =
      λ d (o, log). let (o1, x) = g.create_compatible_dc d o in ((o1, made_dc d x ∷ log), x);
  create_compatible_bitmap = λ d w h (o, log).
      let (o1, x) = g.create_compatible_bitmap d w h o in ((o1, made_bitmap d x ∷ log), x);
  select_object =
      λ m x (o, log). let (o1, old) = g.select_object m x o in ((o1, selected m x old ∷ log), old);
  bit_blt =
      λ m w h d (o, log). let (o1, done) = g.bit_blt m w h d o in ((o1, blitted m d ∷ log), done);
  get_di_bits = λ m b lines buffer header (o, log).
      let (o1, bytes, n) = g.get_di_bits m b lines buffer header o in
      ((o1, read_bits m b (pos_part header.width * lines * 4) (length buffer) ∷ log), bytes, n);
  delete_object =
      λ b (o, log). let (o1, r) = g.delete_object b o in ((o1, deleted_object b r ∷ log), r);
  delete_dc = λ m (o, log). let (o1, r) = g.delete_dc m o in ((o1, deleted_dc m r ∷ log), r);
  release_dc = λ d (o, log). let (o1, r) = g.release_dc d o in ((o1, released_dc d r ∷ log), r);
}
