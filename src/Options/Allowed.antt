-- ===== src/Options/Allowed.antt =====
-- allowed_settings, src/settings_data.h, in the order of its rows.
mod First
mod Second
use dunst.Base.{List, ◌++◌}
use dunst.Options.Values.{Setting}
use First.{
  allowed_settings_a, allowed_settings_b, allowed_settings_c, allowed_settings_d,
  allowed_settings_e, allowed_settings_f,
}
use Second.{
  allowed_settings_g, allowed_settings_h, allowed_settings_i, allowed_settings_j,
  allowed_settings_k,
}

abbrev pub allowed_settings : List Setting
allowed_settings =
    allowed_settings_a ++ allowed_settings_b ++ allowed_settings_c ++ allowed_settings_d
    ++ allowed_settings_e ++ allowed_settings_f ++ allowed_settings_g ++ allowed_settings_h
    ++ allowed_settings_i ++ allowed_settings_j ++ allowed_settings_k
