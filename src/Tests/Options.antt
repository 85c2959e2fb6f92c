-- ===== src/Tests/Options.antt =====
-- The settings, the command line and the place of the window at concrete inputs.
use dunst.Base.{pos, ◌+ℤ◌, ◌-ℤ◌, true, false, none, some, [], ◌∷◌, codes, nth, str_eq, ◌≡◌, refl}
use dunst.Draw.{Look, calc_window_pos}
use dunst.Ini.{Ini}
use dunst.Options.{string_parse_enum}
use dunst.Options.Tables.{boolean_enum_data}
use dunst.Options.Values.{stored_bool, string_parse_bool, string_parse_length, stored_pair}
use dunst.Options.Parse.{Outer}
use dunst.Options.Save.{Store, save_settings}
use dunst.Options.Save.Fits.{rules_fit, save_settings-rules_fit}
use dunst.Options.Cmdline.{config_paths}
use dunst.Dbus.RuleList.{enum_to_string}
use dunst.Dbus.Named.{string_parse_enum-enum_to_string}
use dunst.Options.Tables.{urgency_enum_data}

abbrev outer : Outer
outer = record {
  wordexp = λ s. some (s ∷ []);
  shell_parse_argv = λ s. some (s ∷ []);
  is_double = λ s. true;
}

abbrev nothing : Store
nothing = record { settings = []; rules = [] }

-- A member and a filter under a special section, a filter under a rule, and an old section.
abbrev saved_ini : Ini
saved_ini =
    record {
      name = codes "urgency_low";
      entries =
          record { key = codes "timeout"; value = codes "5" }
          ∷ record { key = codes "appname"; value = codes "mail" }
          ∷ record { key = codes "match_transient"; value = codes "true" }
          ∷ [];
    }
    ∷ record {
      name = codes "mail";
      entries = record { key = codes "appname"; value = codes "mail" } ∷ [];
    }
    ∷ record {
      name = codes "frame";
      entries = record { key = codes "timeout"; value = codes "1" } ∷ [];
    }
    ∷ []

save_settings-rules_fit_example : rules_fit (save_settings outer saved_ini nothing).rules ≡ true
save_settings-rules_fit_example =
    save_settings-rules_fit outer saved_ini nothing (unfold rules_fit in refl)

string_parse_enum-enum_to_string_example :
    string_parse_enum urgency_enum_data (codes "critical") ≡ some (pos 2)
unfolding nth
string_parse_enum-enum_to_string_example =
    string_parse_enum-enum_to_string 0 urgency_enum_data (pos 2) (codes "critical") refl
      (unfold enum_to_string in refl)

-- A word that is refused makes the setting true.
bool_refused :
    string_parse_bool boolean_enum_data (codes "fasle") ≡ (false, some (stored_bool true))
unfolding string_parse_bool str_eq
bool_refused = refl

lengths_parsed : string_parse_length (codes "(1, 20)") ≡ (true, some (stored_pair (pos 1) (pos 20)))
unfolding string_parse_length
lengths_parsed = refl

-- The path after the second spelling is not seen once the first spelling was found after it.
config_paths_lost :
    config_paths (record {
      argv = codes "dunst" ∷ codes "-config" ∷ codes "a" ∷ codes "-conf" ∷ codes "b" ∷ [];
      usage = none;
    })
    ≡ codes "b" ∷ []
unfolding config_paths str_eq nth
config_paths_lost = refl

-- A window higher than the screen, centred, on a screen of 100 by 100.
abbrev centred : Look
centred = record {
  text_icon_padding = pos 0;
  padding = pos 8;
  h_padding = pos 8;
  progress_bar = false;
  progress_bar_height = pos 10;
  progress_bar_min_width = pos 10;
  corner_radius = pos 0;
  width = (pos 0, pos 100);
  height = (pos 0, pos 300);
  offset_x = pos 0;
  origin = pos 0;
}

window_below_screen :
    calc_window_pos centred
      (record { x = pos 0; y = pos 0; w = pos 100; h = pos 100 })
      (pos 50)
      (pos 200)
      (pos 0)
      (pos 0)
    ≡ (pos 25, pos 2147483598)
unfolding calc_window_pos ◌+ℤ◌ ◌-ℤ◌
window_below_screen = refl
