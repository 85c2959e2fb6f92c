-- ===== src/Options/Load.antt =====
-- Finding and loading the configuration files: src/settings.c, and add_paths_from_env and
-- string_to_array of src/utils.c.
use dunst.Base.{
  half, ℕ, ◌+◌, ℤ, pos, lt_ℤ, eq_ℤ, int_min, int_max, scale, Bool, true, false, not, ◌&&◌, ◌||◌,
  Option, none, some, List, [], ◌∷◌, ◌++◌, Str, CString, codes, str_eq, if◌then◌else◌, ◌>>=◌,
}
use dunst.Ini.{load_ini_file}
use dunst.Options.Values.{Stored, stored_int, stored_bool, stored_pair, string_to_array}
use dunst.Options.Parse.{Outer, string_to_path}
use dunst.Options.Save.{Store, set_defaults, save_settings}

-- The system: the environment, the directories (scandir's entries that the filter takes, sorted
-- by alphasort; `none` if there is no directory), the readable files' lines, standard input's
-- lines, SYSCONFDIR, and whether dunst was built for Wayland and runs on it.
pub record System : Type 0 where
  pub user_config_dir : Str
  pub getenv : Str → CString
  pub sysconfdir : Str
  pub scandir : Str → (Str → Bool) → Option (List Str)
  -- fnmatch with FNM_PATHNAME and FNM_PERIOD: the pattern, then the text.
  pub fnmatch : Str → Str → Bool
  pub lines : Str → Option (List Str)
  pub stdin : List Str
  pub enable_wayland : Bool
  pub on_wayland : Bool
  -- g_build_filename of two parts.
  pub build_filename : Str → Str → Str

unfoldable pub add_each : System → Str → List Str → List Str
add_each y subdir [] = []
add_each y subdir (dir ∷ dirs) = y.build_filename dir subdir ∷ add_each y subdir dirs

unfoldable pub add_paths_from_env : System → List Str → Str → Str → Str → List Str
unfolding add_each string_to_array
add_paths_from_env y arr env_name subdir alternative =
    let dirs : Str = elim (y.getenv env_name) [ none ↦ alternative | some value ↦ value ] in
    elim (string_to_array (some dirs) b':') [ none ↦ arr | some ds ↦ arr ++ add_each y subdir ds ]

unfoldable pub get_xdg_conf_basedirs : System → List Str
unfolding add_paths_from_env
get_xdg_conf_basedirs y =
    add_paths_from_env y (y.build_filename y.user_config_dir (codes "dunst") ∷ [])
      (codes "XDG_CONFIG_DIRS") (codes "dunst") y.sysconfdir

unfoldable pub is_drop_in : System → Str → Bool
is_drop_in y d_name = y.fnmatch (codes "*.conf") d_name

abbrev in_dir : Str → List Str → List Str
in_dir dir [] = []
in_dir dir (name ∷ names) = (dir ++ codes "/" ++ name) ∷ in_dir dir names

-- The last entry is inserted first, and the next one before it.
unfoldable pub config_files_add_drop_ins : System → List Str → Str → List Str
unfolding is_drop_in
config_files_add_drop_ins y [] path = []
config_files_add_drop_ins y (file ∷ files) path =
    elim (y.scandir (path ++ codes ".d") (is_drop_in y)) [
      | none ↦ file ∷ files
      | some names ↦ (file ∷ files) ++ in_dir (path ++ codes ".d") names
    ]

abbrev is_readable_file : System → Str → Bool
is_readable_file y path = elim (y.lines path) [ none ↦ false | some _ ↦ true ]

-- The first location with a readable dunstrc, and its drop-ins.
unfoldable pub first_conf_file : System → List Str → List Str
unfolding config_files_add_drop_ins
first_conf_file y [] = []
first_conf_file y (dir ∷ dirs) =
    let dunstrc_location = y.build_filename dir (codes "dunstrc") in
    let later = first_conf_file y dirs in
    if is_readable_file y dunstrc_location
    then config_files_add_drop_ins y (dunstrc_location ∷ []) dunstrc_location
    else later

unfoldable pub get_conf_files : System → List Str
unfolding first_conf_file get_xdg_conf_basedirs
get_conf_files y = first_conf_file y (get_xdg_conf_basedirs y)

-- fopen_conf is the same function with another name.
unfoldable pub fopen_verbose : Outer → System → Str → Option (List Str)
unfolding string_to_path
fopen_verbose o y path = y.lines (string_to_path o path)

unfoldable pub fopen_conf : Outer → System → Str → Option (List Str)
unfolding string_to_path
fopen_conf o y path = y.lines (string_to_path o path)

-- Reading the settings that are checked. One that was never written is 0.
abbrev lookup_stored : List (Str × Stored) → Str → Option Stored
lookup_stored [] name = none
lookup_stored ((key, v) ∷ rest) name =
    let later = lookup_stored rest name in if str_eq key name then some v else later

abbrev int_of : Store → Str → ℤ
int_of st name = elim (lookup_stored st.settings name) [ some (stored_int v) ↦ v | _ ↦ pos 0 ]

abbrev bool_of : Store → Str → Bool
bool_of st name = elim (lookup_stored st.settings name) [ some (stored_bool v) ↦ v | _ ↦ false ]

abbrev pair_of : Store → Str → ℤ × ℤ
pair_of st name = elim (lookup_stored st.settings name) [
  | some (stored_pair x y) ↦ (x, y)
  | _ ↦ (pos 0, pos 0)
]

abbrev put : Str → Stored → Store → Store
put name v st = record st { settings = (name, v) ∷ st.settings }

-- On XWayland the idle time is not known.
unfoldable pub check_xwayland : System → Store → Store
check_xwayland y st =
    let forced =
      if not y.enable_wayland && y.on_wayland
      then put (codes "force_xwayland") (stored_bool true) st
      else st in
    if bool_of forced (codes "force_xwayland") && y.on_wayland
    then put (codes "idle_threshold") (stored_int (pos 0)) forced
    else forced

-- Dying is `none`.
unfoldable pub check_progress_bar : Store → Option Store
unfolding scale
check_progress_bar st =
    let height = int_of st (codes "progress_bar_height") in
    let frame_width = int_of st (codes "progress_bar_frame_width") in
    let max_width = int_of st (codes "progress_bar_max_width") in
    let min_width = int_of st (codes "progress_bar_min_width") in
    let corner_radius = int_of st (codes "progress_bar_corner_radius") in
    let clamped = put (codes "progress_bar_corner_radius") (stored_int (half height)) st in
    if lt_ℤ height (scale frame_width 2)
      || lt_ℤ max_width (scale frame_width 2)
      || lt_ℤ max_width min_width
    then none
    else some (if lt_ℤ (half height) corner_radius then clamped else st)

-- The check of one length, of the width and of the height alike.
unfoldable pub check_length : Str → Store → Option Store
check_length name st =
    let (low, high) = pair_of st name in
    let min = if eq_ℤ low int_min then pos 0 else low in
    if lt_ℤ min (pos 0) || lt_ℤ high (pos 0) || lt_ℤ high min
    then none
    else some (if eq_ℤ low int_min then put name (stored_pair min high) st else st)

unfoldable pub check_offset : Store → Option Store
check_offset st =
    let (x, y) = pair_of st (codes "offset") in
    if eq_ℤ x int_min || eq_ℤ y int_max then none else some st

unfoldable pub check_and_correct_settings : System → Store → Option Store
unfolding check_xwayland check_progress_bar check_length check_offset
check_and_correct_settings y st = do
  checked ← check_progress_bar (check_xwayland y st)
  wide ← check_length (codes "width") checked
  high ← check_length (codes "height") wide
  check_offset high

-- The store with the file's settings, and the number of files that were loaded.
unfoldable pub process_conf_file : Outer → System → Str → Store → ℕ → Option (Store × ℕ)
unfolding load_ini_file save_settings check_and_correct_settings fopen_verbose
process_conf_file o y path st n_success =
    let file : Option (List Str) =
      if str_eq path (codes "-") then some y.stdin else fopen_verbose o y path in
    elim file [
      | none ↦ some (st, n_success)
      | some lines ↦ do
        checked ← check_and_correct_settings y (save_settings o (load_ini_file lines) st)
        some (checked, n_success + 1)
    ]

unfoldable pub process_conf_files : Outer → System → List Str → Store → ℕ → Option (Store × ℕ)
unfolding process_conf_file
process_conf_files o y [] st n = some (st, n)
process_conf_files o y (path ∷ paths) st n = do
  (next, m) ← process_conf_file o y path st n
  process_conf_files o y paths next m

-- Without paths the default locations are read.
unfoldable pub load_settings : Outer → System → List Str → Store → Option (Store × ℕ)
unfolding set_defaults get_conf_files process_conf_files
load_settings o y [] st = process_conf_files o y (get_conf_files y) (set_defaults o st) 0
load_settings o y (path ∷ paths) st = process_conf_files o y (path ∷ paths) (set_defaults o st) 0
