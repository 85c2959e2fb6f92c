-- ===== src/Lib.antt =====
-- dunst, a notification daemon: a model of its core in antt, with theorems about it.
--
-- A notification arrives on D-Bus (src/dbus.c), is completed from the settings and the rules
-- (src/notification.c, src/rules.c), its texts pass through the markup functions (src/markup.c),
-- and it goes into one of three queues (src/queues.c): waiting, displayed or history. The main
-- loop (src/dunst.c) calls queues_update again and again, which retires what is over and shows
-- what waits. The output draws the displayed queue.
--
-- Which file models what:
--   Base          numbers, integers, lists and C strings, with the lemmas that the parts share
--   Settings      the fields of struct settings that are read (src/settings.h)
--   Notification  struct notification and struct rule; Order: notification_cmp and
--                 notification_is_duplicate; Compare: theorems on the order
--   World         the heap of notifications, the queues, the effects and the environment; scripts,
--                 the signal of a closing, the loading of an icon
--   Utils         the string functions of src/utils.c; Replace: theorems on string_replace_all
--   Queues        src/queues.c: Close, History, Insert and Update are its functions; Keep (and its
--                 children), Limit, Bound and Ends are the theorems; Wakeup is
--                 queues_get_next_datachange with its theorem
--   Rules         src/rules.c and the reapplication of rules; Restore: what reapplying gives back
--   Message       notification_init, the format of the message and the text that is drawn
--                 (src/notification.c); Format and Init: theorems on them
--   Ini           src/ini.c; Lookup, Sections and First: theorems on entries, sections and files
--   Options       numbers and times (src/utils.c), enumerations and lists (src/option_parser.c);
--                 Colors: colours and gradients; Printed and Numbers: theorems; Tables and Allowed:
--                 the tables of src/settings_data.h; Values: the parsers of the settings' types;
--                 Parse: set_from_string; Save: set_defaults and save_settings; Save/Found and
--                 Save/Fits: theorems; Load: src/settings.c; Cmdline: the command line
--   Markup        src/markup.c; Quote and Escape: theorems on quoting and escaping
--   Daemon        src/dunst.c: the status, `run` with its timer, the pause signals and the reload;
--                 Timer: theorems on the timer
--   Menu          src/menu.c: the lines of the menu and what becomes of the line that comes back;
--                 Context: the menu's locks, with the actions of src/notification.c; Lines: a
--                 theorem on the lines
--   Input         src/input.c; Hit: theorems on what a click hits
--   Dbus          src/dbus.c: the tables of methods; Notify: the decoding of a notification;
--                 Handlers: the methods and the properties; Lengths: the signal of the lengths and
--                 a client; RuleList: the list of the rules; Search, Levels, Answers, Hinted,
--                 Complete and Named: theorems
--   Draw          the sizes of the window and its place (src/draw.c)
--   Steps         the turns of the main loop as a step relation (Reach), with the invariant that
--                 every handler keeps (Actions, Marked, Reload, Received, Popped, Handled)
--   Tests         runs and examples
--
-- A `struct notification *` is a number, and the heap is a function from numbers, so an update
-- is seen through every pointer. A queue is the list of its pointers. A handler takes the world
-- and gives the next one. The clocks, the file system, the icon loader, the regular expressions
-- and the two sorting functions of GLib are parameters; of the sorting functions the theorems
-- ask what GLib documents: the result is a permutation. So are the outputs, the numbers that GLib
-- gives its sources, which are positive and new, and the heights that the drawing measures. A notification whose last reference is
-- dropped stays in the heap, and the pointer is recorded as given up.
--
-- Loops on fuel: close_all and trim take off one notification a round and are given the length
-- of the queue; seep exchanges a displayed notification for one that comes before it and is given
-- one more than the product of the two lengths; replace_loop leaves at least one byte fewer to look at each round and is given one
-- more than the length of the text; tag_loop takes off a tag each round and is given one more
-- than the length of the text; the binary search is given the size of the table; the loop over the configuration paths is given the
-- number of the arguments.
--
-- Not modelled: the drawing with Pango and cairo, the outputs on X11 and Wayland, icons and their lookup, the thread of the
-- menu, the registration on D-Bus and the GVariants as such, the log, the environment of scripts,
-- reference counts, and the start and the end of the process. The settings that the configuration
-- stores are kept by the names of their fields; how the record in Settings is read from them is not
-- modelled.
pub mod Base
pub mod Settings
pub mod Notification
pub mod Utils
pub mod World
pub mod Queues
pub mod Rules
pub mod Markup
pub mod Daemon
pub mod Dbus
pub mod Draw
pub mod Ini
pub mod Input
pub mod Menu
pub mod Message
pub mod Options
pub mod Steps
pub mod Tests
