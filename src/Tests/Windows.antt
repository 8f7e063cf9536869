-- ===== src/Tests/Windows.antt =====
-- Capture and injection over a Windows in memory (crates/quicview-capture/src/gdi.rs,
-- crates/quicview-input/src/sendinput.rs).
use quicview.Prelude.{ℕ, ◌+◌, ◌-◌, ◌≡◌, ◌↔◌, true, some, [], ◌∷◌, arith}
use quicview.Prelude.Int.{pos, negsuc}
use quicview.Protocol.Input.{InputEvent, mouse, right, press}
use quicview.Capture.Gdi.{Gdi, new}
use quicview.Capture.Gdi.Ledger.{logged, replay, nothing_held}
use quicview.Capture.Gdi.Release.{SelectsFresh, GivesBack}
use quicview.Capture.Gdi.Calls.{starts, stops, grabs, run, SmallScreens, run-replay}
use quicview.Input.SendInput.{Windows, Floats, Flags, WindowsInputInjector, inject, normalise}
use quicview.Input.SendInput.Inputs.{sends, size_for, count_after, inject-send_all}
use quicview.Input.SendInput.Coordinates.{Before, Spans, normalise_order}

-- Handles are given out one after the other; the screen is 1280 by 720. The state is the last
-- handle. The bits are not read.
abbrev system : Gdi ℕ
system = record {
  screen_width = λ o. pos 1280;
  screen_height = λ o. pos 720;
  header_size = 40;
  bi_rgb = 0;
  get_dc = λ o. (o + 1, o + 1);
  create_compatible_dc = λ d o. (o + 1, o + 1);
  create_compatible_bitmap = λ d w h o. (o + 1, o + 1);
  select_object = λ m x o. (o, o + 7);
  bit_blt = λ m w h d o. (o, 1);
  get_di_bits = λ m b lines buffer header o. (o, buffer, 0);
  delete_object = λ b o. (o, 1);
  delete_dc = λ m o. (o, 1);
  release_dc = λ d o. (o, 1);
}

system-SelectsFresh : SelectsFresh system
system-SelectsFresh screen mem w h o made e = omega (arith, e)

system-GivesBack : GivesBack system
system-GivesBack = record {
  restores = λ m x o o' h e. omega (arith, e);
  deletes_object = λ b o e. omega (arith, e);
  deletes_dc = λ m o e. omega (arith, e);
  releases_dc = λ d o e. omega (arith, e);
}

system-SmallScreens : SmallScreens system
system-SmallScreens o = omega arith

run-replay_example :
    replay
      (run (logged system) (new, (0, [])) (starts 0 ∷ grabs ∷ stops ∷ grabs ∷ starts 9 ∷ [])).1.1
    ≡ some nothing_held
run-replay_example =
    run-replay system system-SelectsFresh system-GivesBack system-SmallScreens 0
      (starts 0 ∷ grabs ∷ stops ∷ grabs ∷ starts 9 ∷ [])

-- `SendInput` takes the first input and refuses the second.
abbrev windows : Windows ℕ
windows = record {
  screen_width = λ o. pos 1280;
  screen_height = λ o. pos 720;
  send_input = λ i o. (o + 1, 1 - o);
}

abbrev floats : Floats
floats = record { is_significant = λ f. true; wheel = λ f. pos 120; neg_wheel = λ f. negsuc 119 }

abbrev flags : Flags
flags = record {
  absolute = 0x8000;
  move = 1;
  left_down = 2;
  left_up = 4;
  right_down = 8;
  right_up = 16;
  middle_down = 32;
  middle_up = 64;
  x_down = 128;
  x_up = 256;
  vertical_wheel = 0x800;
  horizontal_wheel = 0x1000;
  key_up = 2;
}

abbrev right_click : InputEvent
right_click = mouse (record { x = pos 50; y = pos 75; button = some (right, press) })

abbrev counting_four : WindowsInputInjector
counting_four = record { events_injected = 4 }

inject-send_all_example :
    ((inject flags floats windows right_click (counting_four, 0)).0.1
      ≡ (sends flags floats windows right_click (size_for flags floats windows right_click 0) 0).0)
    × ((inject flags floats windows right_click (counting_four, 0)).1
        ≡ (sends flags floats windows right_click
            (size_for flags floats windows right_click 0)
            0).1)
    × ((inject flags floats windows right_click (counting_four, 0)).0.0.events_injected
        ≡ count_after flags floats windows 4
            (sends flags floats windows right_click
              (size_for flags floats windows right_click 0)
              0).1)
inject-send_all_example = inject-send_all flags floats windows right_click counting_four 0

normalise_order_example :
    Before (normalise (negsuc 0) 1280) (normalise (pos 2560) 1280)
    × (Spans (pos 2560) 1280 ↔ Spans (normalise (pos 2560) 1280) 65535)
normalise_order_example =
    normalise_order (negsuc 0) (pos 2560) 1280 (omega arith, omega arith) (omega arith, omega arith)
      (omega arith) (omega arith)
