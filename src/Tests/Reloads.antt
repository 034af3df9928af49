-- ===== src/Tests/Reloads.antt =====
-- Three reload callbacks of src/mime/xdgmime.c.
use libxdg.Base.{◌≡◌, refl, none, some, [], arith}
use libxdg.Containers.Links.{set}
use libxdg.Mime.Callbacks.{Callbacks, register_reload_callback, remove_callback, call_loop}
use libxdg.Mime.Callbacks.Endless.{InMiddle, remove_callback-endless}

abbrev no_callbacks : Callbacks
no_callbacks = record {
  next = λ a. 0;
  prev = λ a. 0;
  callback_id = λ a. 0;
  callback_list = 0;
  next_id = 1;
}

abbrev three_callbacks : Callbacks
three_callbacks =
    (register_reload_callback
      (register_reload_callback (register_reload_callback no_callbacks 10).1 20).1 30).1

second-InMiddle : InMiddle three_callbacks 2 [] 30 20
unfolding register_reload_callback set
second-InMiddle = record {
  walks = refl;
  p_there = λ e. absurd (omega (arith, e));
  p_other = λ e. absurd (omega (arith, e));
  p_next = refl;
  x_there = λ e. absurd (omega (arith, e));
  x_id = refl;
  x_prev = refl;
  x_next = λ e. absurd (omega (arith, e));
  p_apart = tt;
  x_apart = tt;
}

remove_callback-endless_example :
    (c' : Callbacks) × (remove_callback 9 three_callbacks 2 three_callbacks.callback_list ≡ some c')
    × (call_loop 99 c' c'.callback_list ≡ none)
remove_callback-endless_example =
    remove_callback-endless three_callbacks 2 [] 30 20 9 99 second-InMiddle (omega arith)
