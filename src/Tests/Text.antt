-- ===== src/Tests/Text.antt =====
-- Tests of the configuration, the texts and the completion of a notification.
use dunst.Base.{
  ltb, take, ◌&&◌, strchr, has_prefix, skip_while, negsuc, length, pos, false, none, some, [], ◌∷◌,
  Str, codes, str_eq, ◌≡◌, refl, arith,
}
use dunst.Settings.{sort_type_id, rgba}
use dunst.Notification.{Notification, empty_rule}
use dunst.Utils.{string_replace_all, string_strip_quotes, string_strip_delimited}
use dunst.Utils.Replace.{substitute, string_replace_all-substitute}
use dunst.Markup.{markup_quote, markup_is_entity, markup_escape_unsupported}
use dunst.Markup.Escape.{markup_escape_unsupported-twice}
use dunst.Markup.Quote.{entities, markup_quote-entities}
use dunst.Ini.{Section, Ini, get_value, add_entry, next_section, load_ini_file}
use dunst.Ini.Lookup.{get_value-add_entry}
use dunst.Ini.Sections.{times, HasUniqueNames, next_section-next, load_ini_file-HasUniqueNames}
use dunst.Options.{strsplit, safe_string_to_int, string_to_time}
use dunst.Options.Colors.{
  string_parse_color, string_parse_gradient, overrun, is_overrun, gradient_places, all_parse,
  string_parse_gradient-overruns,
}
use dunst.Options.Printed.{print_byte, string_parse_color-printed}
use dunst.Options.Numbers.{safe_string_to_int-print_int}
use dunst.Message.{print_int, format_fields, notification_init}
use dunst.Message.Format.{doubled, format_fields-doubled}
use dunst.Message.Init.{IsComplete, notification_init-IsComplete}
use dunst.Tests.Data.{env, settings, sample, matchers, settings-HasColors, config}

string_replace_all-substitute_example :
    string_replace_all (codes "ab") (codes "bab") (codes "xabab")
    ≡ substitute (codes "ab") (codes "bab") 0 (codes "xabab")
string_replace_all-substitute_example =
    string_replace_all-substitute (codes "ab") (codes "bab") (codes "xabab")

markup_quote-entities_example : markup_quote (codes "a&<b>") ≡ entities (codes "a&<b>")
markup_quote-entities_example = markup_quote-entities (codes "a&<b>")

-- A closed group right before an unclosed one: a byte of the first comes back.
strip_run : string_strip_delimited (codes "<a><b") b'<' b'>' ≡ codes "a><b"
unfolding string_strip_delimited
strip_run = refl

config_run :
    let ini = load_ini_file config in
    (get_value ini (codes "global") (codes "font") ≡ some (codes "Mono # 8"))
    × (get_value ini (codes "global") (codes "width") ≡ some (codes "300"))
    × (next_section ini (some (codes "global")) ≡ some (codes "urgency_low"))
unfolding load_ini_file get_value next_section str_eq
config_run = (refl, refl, refl)

load_ini_file-HasUniqueNames_example : HasUniqueNames (load_ini_file config)
load_ini_file-HasUniqueNames_example = load_ini_file-HasUniqueNames config

abbrev small_ini : Ini
small_ini =
    record {
      name = codes "global";
      entries = record { key = codes "font"; value = codes "Sans" } ∷ [];
    }
    ∷ []

get_value-add_entry_example :
    get_value
      (add_entry small_ini (codes "global") (codes "width") (codes "\"300\""))
      (codes "global")
      (codes "width")
    ≡ some (codes "300")
unfolding get_value string_strip_quotes str_eq
get_value-add_entry_example =
    get_value-add_entry small_ini (codes "global") (codes "width") (codes "\"300\"")
      (codes "global") (codes "width")

abbrev named : Str → Section
named name = record { name = name; entries = [] }

named-HasUniqueNames :
    HasUniqueNames (named (codes "a") ∷ named (codes "b") ∷ named (codes "c") ∷ [])
unfolding times str_eq
named-HasUniqueNames [] = omega arith
named-HasUniqueNames (x ∷ []) = ground arith
named-HasUniqueNames (x ∷ y ∷ name) = ground arith

next_section-next_example :
    next_section (named (codes "a") ∷ named (codes "b") ∷ named (codes "c") ∷ []) (some (codes "b"))
    ≡ some (codes "c")
next_section-next_example =
    next_section-next (named (codes "a") ∷ []) [] (named (codes "b")) (named (codes "c"))
      named-HasUniqueNames

format_fields-doubled_example :
    format_fields (settings sort_type_id 2) (sample 3 1) (doubled (codes "100%s")) false
    ≡ codes "100%s"
format_fields-doubled_example =
    format_fields-doubled (settings sort_type_id 2) (sample 3 1) (codes "100%s")

-- No pattern matches.
abbrev bare : Notification
bare = record (sample 3 1) { appname = none; body = none; category = none }

notification_init-IsComplete_example : IsComplete (
    notification_init env
      (settings sort_type_id 2)
      matchers
      (λ text. none)
      (pos 1)
      (record empty_rule { timeout = pos 5 } ∷ [])
      bare)
notification_init-IsComplete_example =
    notification_init-IsComplete env (settings sort_type_id 2) matchers (λ text. none) (pos 1)
      (record empty_rule { timeout = pos 5 } ∷ []) bare settings-HasColors

string_parse_color-printed_example :
    (string_parse_color (codes "#0a1bff80") ≡ some (rgba 255 10 27 255 128))
    × (string_parse_color (codes "#0a1bff") ≡ some (rgba 255 10 27 255 255))
unfolding print_byte
string_parse_color-printed_example =
    string_parse_color-printed 10 27 255 128 (omega arith) (omega arith) (omega arith) (omega arith)

-- Seventeen colours.
abbrev many_colors : Str
many_colors =
    codes "#000,#111,#222,#333,#444,#555,#666,#777,#888,#999,#aaa,#bbb,#ccc,#ddd,#eee,#fff,#123"

many_parse : string_parse_gradient many_colors ≡ overrun
unfolding string_parse_gradient
many_parse = refl

string_parse_gradient-overruns_example : is_overrun (string_parse_gradient many_colors) ≡ (
    ltb gradient_places (length (strsplit b',' many_colors))
    && all_parse (take 17 (strsplit b',' many_colors)))
string_parse_gradient-overruns_example = string_parse_gradient-overruns many_colors

safe_string_to_int-print_int_example : safe_string_to_int (print_int (negsuc 41)) ≡ some (negsuc 41)
safe_string_to_int-print_int_example =
    safe_string_to_int-print_int (negsuc 41) (omega arith) (omega arith)

time_run :
    (string_to_time (codes "10s") ≡ pos 10000000)
    × (string_to_time (codes "5 ms") ≡ pos 5000)
    × (string_to_time (codes "-1") ≡ negsuc 999999)
    × (string_to_time (codes "-1s") ≡ pos 0)
unfolding string_to_time
time_run = (refl, refl, refl, refl)

-- A byte that is no digit may follow a colour.
color_run : string_parse_color (codes "#fffz") ≡ some (rgba 15 15 15 15 15)
unfolding string_parse_color
color_run = refl

markup_escape_unsupported-twice_example :
    let once = markup_escape_unsupported (codes "a & b &amp; &#x2a; &bad;") in
    markup_escape_unsupported once ≡ once
markup_escape_unsupported-twice_example =
    markup_escape_unsupported-twice (codes "a & b &amp; &#x2a; &bad;")

escape_run :
    markup_escape_unsupported (codes "a & b &amp; &#x2a; &bad;")
    ≡ codes "a &amp; b &amp; &#x2a; &amp;bad;"
unfolding markup_escape_unsupported markup_is_entity strchr has_prefix skip_while
escape_run = refl
