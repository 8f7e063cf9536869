-- ===== src/Input/SendInput/Inputs.antt =====
-- Which inputs an event of sendinput.rs becomes, and what a failure leaves.
use quicview.Prelude.{
  ℕ, suc, ◌+◌, ◌==◌, if◌then◌else◌, Bool-cases, inl, inr, arith, ap₂, ◌%◌, ◌^◌, ◌≡◌, refl, sym, ap,
  ◌∙◌, Bool, true, false, Option, none, some, List, [], ◌∷◌, ◌++◌, Result, ok, err, panic, bit_or,
}
use quicview.Prelude.Int.{ℤ, pos, to_u32, wrap_i32}
use quicview.Protocol.Input.{
  MouseButton, left, right, middle, back, forward, KeyAction, press, release, InputEvent, mouse,
  key, scroll, MouseEvent,
}
use quicview.Input.Error.{InputError, injection_failed}
use quicview.Input.Injector.{Answer, and_then}
use quicview.Input.SendInput.Coordinates.{share_of, normalise_lem}
use quicview.Input.SendInput.{
  Input, mi, ki, Windows, Floats, Flags, WindowsInputInjector, button_flags, key_flags, send_one,
  sent_one, screen_size, move_to, inject_mouse_move, inject_mouse_button, turn_wheel, inject_scroll,
  inject_key, inject_button, inject_event, inject, counted,
}

and_then_ok : {S : Type 0} (a : Answer S) → and_then a (λ s. (s, ok tt)) ≡ a
unfolding and_then
and_then_ok (s, ok u) = refl
and_then_ok (s, err e) = refl
and_then_ok (s, panic) = refl

and_then_cong :
    {S : Type 0} (a : Answer S) {f g : S → Answer S}
    → ((s : S) → f s ≡ g s)
    → and_then a f ≡ and_then a g
unfolding and_then
and_then_cong (s, ok u) h = h s
and_then_cong (s, err e) h = refl
and_then_cong (s, panic) h = refl

and_then_assoc :
    {S : Type 0} (a : Answer S) (f g : S → Answer S)
    → and_then (and_then a f) g ≡ and_then a (λ s. and_then (f s) g)
unfolding and_then
and_then_assoc (s, ok u) f g = refl
and_then_assoc (s, err e) f g = refl
and_then_assoc (s, panic) f g = refl

module _ {O : Type 0} (c : Flags) (floats : Floats) (win : Windows O) where
  abbrev still : ℕ → ℕ → Input
  still flags data1 = mi (record { dx = pos 0; dy = pos 0; mouse_data = data1; flags = flags })

  -- What a button's press and release are, and the number of an extra button.
  abbrev down_flag : MouseButton → ℕ
  down_flag left = c.left_down
  down_flag right = c.right_down
  down_flag middle = c.middle_down
  down_flag _ = c.x_down

  abbrev up_flag : MouseButton → ℕ
  up_flag left = c.left_up
  up_flag right = c.right_up
  up_flag middle = c.middle_up
  up_flag _ = c.x_up

  abbrev extra_button : MouseButton → ℕ
  extra_button back = 1
  extra_button forward = 2
  extra_button _ = 0

  abbrev button_input : MouseButton → KeyAction → Input
  button_input b press = still (down_flag b) (extra_button b)
  button_input b release = still (up_flag b) (extra_button b)

  abbrev key_input : ℕ → KeyAction → Input
  key_input keycode press = ki (keycode % 2 ^ 16) 0
  key_input keycode release = ki (keycode % 2 ^ 16) c.key_up

  abbrev pub buttons_of : Option (MouseButton × KeyAction) → List Input
  buttons_of none = []
  buttons_of (some (button, action)) = button_input button action ∷ []

  abbrev pub wheel_of : Bool → ℤ → ℕ → List Input
  wheel_of true delta flags = still flags (to_u32 delta) ∷ []
  wheel_of false delta flags = []

  -- The inputs of an event: the move before the button, the vertical wheel before the horizontal.
  abbrev pub inputs_of : InputEvent → ℕ × ℕ → List Input
  inputs_of (mouse m) (w, h) =
      mi (record {
        dx = wrap_i32 (share_of m.x w);
        dy = wrap_i32 (share_of m.y h);
        mouse_data = 0;
        flags = bit_or c.absolute c.move;
      })
      ∷ buttons_of m.button
  inputs_of (key k) size = key_input k.keycode k.action ∷ []
  inputs_of (scroll s) size =
      wheel_of (floats.is_significant s.dy) (floats.neg_wheel s.dy) c.vertical_wheel
      ++ wheel_of (floats.is_significant s.dx) (floats.wheel s.dx) c.horizontal_wheel

  -- A screen has a size if both numbers are positive.
  abbrev size_of : ℤ → ℤ → Result InputError (ℕ × ℕ)
  size_of (pos (suc w)) (pos (suc h)) = ok (suc w, suc h)
  size_of _ _ = err (injection_failed "failed to get screen dimensions")

  -- Only a mouse event needs the size of the screen.
  abbrev pub size_for : InputEvent → O → Result InputError (ℕ × ℕ)
  size_for (mouse m) o = size_of (win.screen_width o) (win.screen_height o)
  size_for (key k) o = ok (0, 0)
  size_for (scroll s) o = ok (0, 0)

  -- Sending inputs until one is refused, with 0.
  abbrev pub send_all : List Input → O → Answer O
  send_all [] o = (o, ok tt)
  send_all (i ∷ is) o =
      let sent = send_all is (win.send_input i o).0 in
      if (win.send_input i o).1 == 0
      then ((win.send_input i o).0, err (injection_failed "SendInput returned 0"))
      else sent

  abbrev pub sends : InputEvent → Result InputError (ℕ × ℕ) → O → Answer O
  sends event (ok size) o = send_all (inputs_of event size) o
  sends event (err e) o = (o, err e)
  sends event panic o = (o, panic)

  -- How many events were injected, after one with that answer.
  abbrev pub count_after : ℕ → Result InputError (Unit {0}) → ℕ
  count_after n (ok u) = (n + 1) % 2 ^ 64
  count_after n (err e) = n
  count_after n panic = n

  button_lem :
      (b : MouseButton) (a : KeyAction)
      → still (button_flags c b a).0 (button_flags c b a).1 ≡ button_input b a
  unfolding button_flags
  button_lem left press = refl
  button_lem left release = refl
  button_lem right press = refl
  button_lem right release = refl
  button_lem middle press = refl
  button_lem middle release = refl
  button_lem back press = refl
  button_lem back release = refl
  button_lem forward press = refl
  button_lem forward release = refl

  key_lem :
      (keycode : ℕ) (a : KeyAction) → ki (keycode % 2 ^ 16) (key_flags c a) ≡ key_input keycode a
  unfolding key_flags
  key_lem keycode press = refl
  key_lem keycode release = refl

  size_lem :
      (o : O) → screen_size c floats win o ≡ size_of (win.screen_width o) (win.screen_height o)
  unfolding screen_size
  size_lem o = ground arith

  send_one_lem :
      (i : Input) (is : List Input) (o : O)
      → and_then (send_one c floats win i o) (λ o1. send_all is o1) ≡ send_all (i ∷ is) o
  unfolding send_one sent_one and_then
  send_one_lem i is o = elim (Bool-cases ((win.send_input i o).1 == 0)) [
    | inl e ↦ rw e refl
    | inr e ↦ rw e refl
  ]

  send_all-one : (i : Input) (o : O) → send_all (i ∷ []) o ≡ send_one c floats win i o
  send_all-one i o = sym (send_one_lem i [] o) ∙ and_then_ok (send_one c floats win i o)

  inject_button_lem :
      (b : Option (MouseButton × KeyAction)) (o : O)
      → inject_button c floats win b o ≡ send_all (buttons_of b) o
  unfolding inject_button inject_mouse_button
  inject_button_lem none o = refl
  inject_button_lem (some (button, action)) o =
      sym (send_all-one _ o) ∙ ap (λ i. send_all (i ∷ []) o) (button_lem button action)

  turn_wheel_lem :
      (turns : Bool) (delta : ℤ) (flags : ℕ) (o : O)
      → turn_wheel c floats win turns delta flags o ≡ send_all (wheel_of turns delta flags) o
  unfolding turn_wheel
  turn_wheel_lem true delta flags o = sym (send_all-one _ o)
  turn_wheel_lem false delta flags o = refl

  send_all-append :
      (is js : List Input) (o : O)
      → and_then (send_all is o) (λ o1. send_all js o1) ≡ send_all (is ++ js) o
  unfolding and_then
  send_all-append [] js o = refl
  send_all-append (i ∷ is) js o =
      ap (λ a. and_then a (λ o1. send_all js o1)) (sym (send_one_lem i is o))
      ∙ and_then_assoc (send_one c floats win i o) (λ o1. send_all is o1) (λ o1. send_all js o1)
      ∙ and_then_cong (send_one c floats win i o) (λ o1. send_all-append is js o1)
      ∙ send_one_lem i (is ++ js) o

  mouse_lem :
      (m : MouseEvent) (r : Result InputError (ℕ × ℕ)) (o : O)
      → and_then (move_to c floats win m.x m.y r o) (λ o1. inject_button c floats win m.button o1)
        ≡ sends (mouse m) r o
  unfolding move_to and_then
  mouse_lem m (ok (w, h)) o =
      and_then_cong (send_one c floats win _ o) (inject_button_lem m.button)
      ∙ send_one_lem _ (buttons_of m.button) o
      ∙ ap₂
          (λ x y.
            send_all
              (mi (record { dx = x; dy = y; mouse_data = 0; flags = bit_or c.absolute c.move })
                ∷ buttons_of m.button)
              o)
          (normalise_lem m.x w) (normalise_lem m.y h)
  mouse_lem m (err e) o = refl
  mouse_lem m panic o = refl

  inject_event_lem :
      (event : InputEvent) (o : O)
      → inject_event c floats win event o ≡ sends event (size_for event o) o
  unfolding inject_event inject_mouse_move inject_key inject_scroll
  inject_event_lem (mouse m) o =
      mouse_lem m (screen_size c floats win o) o ∙ ap (λ r. sends (mouse m) r o) (size_lem o)
  inject_event_lem (key k) o =
      sym (send_all-one _ o) ∙ ap (λ i. send_all (i ∷ []) o) (key_lem k.keycode k.action)
  inject_event_lem (scroll s) o =
      let vertical =
        turn_wheel c floats win (floats.is_significant s.dy) (floats.neg_wheel s.dy)
          c.vertical_wheel o in
      and_then_cong vertical
        (turn_wheel_lem (floats.is_significant s.dx) (floats.wheel s.dx) c.horizontal_wheel)
      ∙ ap
          (λ a. and_then a (λ o1.
            send_all (wheel_of (floats.is_significant s.dx) (floats.wheel s.dx) c.horizontal_wheel)
              o1))
          (turn_wheel_lem (floats.is_significant s.dy) (floats.neg_wheel s.dy) c.vertical_wheel o)
      ∙ send_all-append
          (wheel_of (floats.is_significant s.dy) (floats.neg_wheel s.dy) c.vertical_wheel)
          (wheel_of (floats.is_significant s.dx) (floats.wheel s.dx) c.horizontal_wheel) o

  counted_lem :
      (s : WindowsInputInjector) (a : Answer O)
      → let r = counted c floats win s a in
        (r.0.1 ≡ a.0) × (r.1 ≡ a.1) × (r.0.0.events_injected ≡ count_after s.events_injected a.1)
  unfolding counted
  counted_lem s (o, ok u) = (refl, refl, refl)
  counted_lem s (o, err e) = (refl, refl, refl)
  counted_lem s (o, panic) = (refl, refl, refl)

  -- An event is injected as its inputs are sent, one after the other until `SendInput` refuses one:
  -- a mouse event as the move, to its shares of the screen, and then the button, with the flag of its
  -- press or release; a key event as the key, with the flag of a release; a scroll event as the
  -- vertical wheel and then the horizontal one, each if its axis turned. A mouse event sends nothing
  -- when the size of the screen is unknown. The count grows by one if everything was sent, and else
  -- stays.
  pub inject-send_all :
      (event : InputEvent) (s : WindowsInputInjector) (o : O)
      → let r = inject c floats win event (s, o) in
        let sent = sends event (size_for event o) o in
        (r.0.1 ≡ sent.0)
        × (r.1 ≡ sent.1)
        × (r.0.0.events_injected ≡ count_after s.events_injected sent.1)
  unfolding inject
  inject-send_all event s o =
      rw (sym (inject_event_lem event o)) (counted_lem s (inject_event c floats win event o))
