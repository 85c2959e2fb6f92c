-- ===== src/Options/Cmdline.antt =====
-- The command line, src/option_parser.c, and the configuration paths that src/dunst.c reads from
-- it.
use dunst.Base.{
  ℕ, zero, suc, ◌+◌, ◌≤◌, ◌<◌, ℤ, Bool, true, Option, none, some, is_some, Option-cases, List, [],
  ◌∷◌, ◌++◌, nth, length, Str, CString, codes, str_eq, str_empty, if◌then◌else◌, ltb, ◌≡◌, refl,
  ◌⊎◌, ap, inl, inr, Bool-cases, arith,
}
use dunst.Options.{strsplit, string_to_time}
use dunst.Options.Values.{string_to_array}
use dunst.Options.Parse.{Outer, string_to_path}

-- cmdline_argv with its cmdline_argc strings, and usage_str.
pub record Cmdline : Type 0 where
  pub argv : List Str
  pub usage : CString

unfoldable pub cmdline_load : List Str → Cmdline → Cmdline
cmdline_load argv c = record c { argv = argv }

-- The first index from `start` on at which the key stands; `j` is the index of the list's head.
unfoldable pub find_key : Str → List Str → ℕ → ℕ → Option ℕ
find_key key [] j start = none
find_key key (arg ∷ args) j start =
    let later = find_key key args (suc j) start in
    if ltb j start then later else if str_eq key arg then some j else later

abbrev first_of {ℓ} : {A : Type ℓ} → Option A → Option A → Option A
first_of none b = b
first_of (some a) b = some a

-- Each spelling is searched in all arguments before the next one.
unfoldable pub find_keys : List Str → List Str → ℕ → Option ℕ
unfolding find_key
find_keys [] argv start = none
find_keys (key ∷ keys) argv start = first_of (find_key key argv 0 start) (find_keys keys argv start)

-- `none` is -1.
unfoldable pub cmdline_find_option : Cmdline → Str → ℕ → Option ℕ
unfolding strsplit find_keys
cmdline_find_option c key start = find_keys (strsplit b'/' key) c.argv start

-- The value, if there is one, and what `found` is set to.
unfoldable pub cmdline_get_value : Cmdline → Str → ℕ → CString × Option ℕ
unfolding cmdline_find_option
cmdline_get_value c key start = elim (cmdline_find_option c key start) [
  | none ↦ (none, none)
  | some idx ↦ (nth c.argv (idx + 1), some (idx + 1))
]

unfoldable pub cmdline_get_string_offset : Cmdline → Str → CString → ℕ → CString × Option ℕ
unfolding cmdline_get_value
cmdline_get_string_offset c key def start =
    let (str, found) = cmdline_get_value c key start in (first_of str def, found)

-- A text padded with spaces to so many bytes.
abbrev padded : ℕ → Str → Str
padded zero [] = []
padded zero (b ∷ s) = b ∷ s
padded (suc n) [] = b' ' ∷ padded n []
padded (suc n) (b ∷ s) = b ∷ padded n s

unfoldable pub cmdline_usage_append : Str → Str → Str → Cmdline → Cmdline
cmdline_usage_append key type description c =
    let key_type = if str_empty (some type) then key else key ++ codes " (" ++ type ++ codes ")" in
    let line = padded 50 key_type ++ codes " - " ++ description ++ codes "\n" in
    record c {
      usage = elim c.usage [ none ↦ some line | some usage_str ↦ some (usage_str ++ line) ];
    }

unfoldable pub cmdline_get_string : Cmdline → Str → CString → Str → CString × Cmdline
unfolding cmdline_get_string_offset cmdline_usage_append
cmdline_get_string c key def description = (
  (cmdline_get_string_offset c key def 1).0,
  cmdline_usage_append key (codes "string") description c,
)

unfoldable pub cmdline_get_path : Outer → Cmdline → Str → CString → Str → CString × Cmdline
unfolding cmdline_get_value cmdline_usage_append string_to_path
cmdline_get_path o c key def description = (
  elim (first_of (cmdline_get_value c key 1).0 def) [
    | none ↦ none
    | some str ↦ some (string_to_path o str)
  ],
  cmdline_usage_append key (codes "string") description c,
)

unfoldable pub cmdline_get_list : Cmdline → Str → CString → Str → Option (List Str) × Cmdline
unfolding cmdline_get_value cmdline_usage_append string_to_array
cmdline_get_list c key def description = (
  string_to_array (first_of (cmdline_get_value c key 1).0 def) b',',
  cmdline_usage_append key (codes "list") description c,
)

unfoldable pub cmdline_get_time : Cmdline → Str → ℤ → Str → ℤ × Cmdline
unfolding cmdline_get_value cmdline_usage_append string_to_time
cmdline_get_time c key def description = (
  elim (cmdline_get_value c key 1).0 [ none ↦ def | some str ↦ string_to_time str ],
  cmdline_usage_append key (codes "time") description c,
)

unfoldable pub cmdline_get_bool : Cmdline → Str → Bool → Str → Bool × Cmdline
unfolding cmdline_find_option cmdline_usage_append
cmdline_get_bool c key def description = (
  elim (cmdline_find_option c key 1) [ none ↦ def | some idx ↦ if ltb 0 idx then true else def ],
  cmdline_usage_append key [] description c,
)

unfoldable pub cmdline_is_set : Cmdline → Str → Bool
unfolding cmdline_get_value
cmdline_is_set c key = is_some (cmdline_get_value c key 1).0

abbrev pub cmdline_config : Str
cmdline_config = codes "-conf/-config/--config"

-- dunst_main's loop over the configuration paths, on fuel.
unfoldable pub config_paths_from : ℕ → Cmdline → ℕ → List Str
unfolding cmdline_get_string_offset
config_paths_from zero c start = []
config_paths_from (suc fuel) c start =
    let (path, found) = cmdline_get_string_offset c cmdline_config none start in
    elim path [
      | none ↦ []
      | some str ↦ elim found [ none ↦ [] | some next ↦ str ∷ config_paths_from fuel c next ]
    ]

-- One turn for each argument is enough, since each turn starts after the value it found.
unfoldable pub config_paths : Cmdline → List Str
unfolding config_paths_from
config_paths c = config_paths_from (length c.argv) c 1

find_key-bound :
    (key : Str) (argv : List Str) (j start i : ℕ)
    → find_key key argv j start ≡ some i
    → (start ≤ i) × (i < j + length argv)
unfolding find_key
find_key-bound key [] j start i h = cc
find_key-bound key (arg ∷ args) j start i h = elim (Bool-cases (ltb j start)) [
  | inl early ↦
      let rest = find_key-bound key args (suc j) start i (ground arith) in (rest.0, omega arith)
  | inr late ↦ elim (Bool-cases (str_eq key arg)) [
    | inl here ↦ (ground arith, ground arith)
    | inr other ↦
        let rest = find_key-bound key args (suc j) start i (ground arith) in (rest.0, omega arith)
  ]
]

find_keys-bound :
    (keys argv : List Str) (start i : ℕ)
    → find_keys keys argv start ≡ some i
    → (start ≤ i) × (i < length argv)
unfolding find_keys
find_keys-bound [] argv start i h = cc
find_keys-bound (key ∷ keys) argv start i h = elim (Option-cases (find_key key argv 0 start)) [
  | inl missing ↦ find_keys-bound keys argv start i (ground arith)
  | inr (j, at) ↦
      let bound = find_key-bound key argv 0 start i (ground arith) in (bound.0, omega arith)
]

-- The loop ends, or has found a path before a later start.
Turn : Cmdline → ℕ → Type 0
unfolding cmdline_get_string_offset
Turn c start =
    ((cmdline_get_string_offset c cmdline_config none start).0 ≡ none)
    ⊎ ((str : Str) × (next : ℕ) × (cmdline_get_string_offset c cmdline_config none start
          ≡ (some str, some next))
        × (start < next)
        × (next ≤ length c.argv))

turn : (c : Cmdline) (start : ℕ) → Turn c start
unfolding Turn cmdline_get_string_offset cmdline_get_value cmdline_find_option
turn c start = elim (Option-cases (cmdline_find_option c cmdline_config start)) [
  | inl missing ↦ inl (rw (cmdline_get_value, missing) refl)
  | inr (i, at) ↦
      let bound : (start ≤ i) × (i < length c.argv) =
        find_keys-bound (strsplit b'/' cmdline_config) c.argv start i at in
      elim (Option-cases (nth c.argv (i + 1))) [
        | inl missing ↦ inl (rw (cmdline_get_value, at, missing) refl)
        | inr (str, held) ↦
            inr (str, i + 1, rw (cmdline_get_value, at, held) refl, omega arith, omega arith)
      ]
]

-- More turns than arguments find no more paths.
config_paths_from-fuel :
    (fuel more : ℕ) (c : Cmdline) (start : ℕ)
    → fuel ≤ more
    → length c.argv ≤ fuel + start
    → config_paths_from more c start ≡ config_paths_from fuel c start
unfolding config_paths_from Turn
config_paths_from-fuel zero zero c start l h = refl
config_paths_from-fuel zero (suc more) c start l h = elim (turn c start) [
  | inl end ↦ rw (config_paths_from, end) refl
  | inr (str, next, at, before, within) ↦ absurd (omega arith)
]
config_paths_from-fuel (suc fuel) zero c start l h = absurd (omega arith)
config_paths_from-fuel (suc fuel) (suc more) c start l h = elim (turn c start) [
  | inl end ↦ rw (config_paths_from, end) refl
  | inr (str, next, at, before, within) ↦
      rw (config_paths_from, ap (λ p. p.0) at, ap (λ p. p.1) at)
        (ap (λ rest. str ∷ rest)
          (config_paths_from-fuel fuel more c next (omega arith) (omega arith)))
]
