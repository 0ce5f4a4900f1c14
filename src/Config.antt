-- ===== src/Config.antt =====
-- src/Utilities/Config.cpp and include/orderbook/Utilities/Config.hpp. A file is the lines that
-- `std::getline` gives, or `none` where it cannot be opened. Errors are named by their messages;
-- what goes to the logger is left out, warnings with it.
pub mod Checks
mod Tests
use financial_order_book.Prelude.{
  map, ℕ, ◌+◌, Bool, true, false, not, ◌&&◌, ◌||◌, List, [], ◌∷◌, ◌++◌, Option, none, some, ◌==◌,
  leb, ltb, if◌then◌else◌,
}
use financial_order_book.Prelude.Double.{Double}
use financial_order_book.Prelude.Decimal.{stoi}
use financial_order_book.Prelude.Int.{ℤ, pos, ltb_ℤ}
use financial_order_book.Prelude.Map.{lookup, insert, bytes_key}
use financial_order_book.Prelude.Text.{Bytes, codes, bytes_eq, is_empty}

pub data ConfigError (Price : Type 0) : Type 0 where
  cannot_open : ConfigError Price
  malformed_section : ℕ → Bytes → ConfigError Price
  empty_section : ℕ → ConfigError Price
  invalid_pair : ℕ → Bytes → ConfigError Price
  empty_key : ℕ → ConfigError Price
  outside_section : ℕ → Bytes → ConfigError Price
  invalid_port : ℤ → ConfigError Price
  invalid_max_orders : ℤ → ConfigError Price
  invalid_max_order_size : Price → ConfigError Price
  invalid_level : Bytes → ConfigError Price

pub record Config (Price : Type 0) : Type 0 where
  pub config : List (Bytes × List (Bytes × Bytes))
  pub is_valid : Bool
  pub errors : List (ConfigError Price)

-- ` \t\r\n`
abbrev pub is_blank : ℕ → Bool
is_blank c = c == b' ' || c == 9 || c == 13 || c == 10

unfoldable pub trim_left : Bytes → Bytes
trim_left [] = []
trim_left (c ∷ s) = let rest = trim_left s in if is_blank c then rest else c ∷ s

unfoldable pub trim_right : Bytes → Bytes
trim_right [] = []
trim_right (c ∷ s) = let rest = trim_right s in if is_empty rest && is_blank c then [] else c ∷ rest

abbrev pub trim : Bytes → Bytes
trim s = trim_right (trim_left s)

abbrev pub put_first : ℕ → Option (Bytes × Bytes) → Option (Bytes × Bytes)
put_first c none = none
put_first c (some (before, behind)) = some (c ∷ before, behind)

-- What stands before and behind the first byte `b`.
unfoldable pub split_at : ℕ → Bytes → Option (Bytes × Bytes)
split_at b [] = none
split_at b (c ∷ s) = let r = split_at b s in if c == b then some ([], s) else put_first c r

-- `::tolower` of an ASCII text.
unfoldable pub lower : Bytes → Bytes
lower [] = []
lower (c ∷ s) = (if leb b'A' c && leb c b'Z' then c + 32 else c) ∷ lower s

abbrev pub or_no_keys : Option (List (Bytes × Bytes)) → List (Bytes × Bytes)
or_no_keys none = []
or_no_keys (some m) = m

abbrev pub or_default : Bytes → Option Bytes → Bytes
or_default v none = v
or_default v (some w) = w

abbrev pub has_keys : Option (List (Bytes × Bytes)) → Bool
has_keys none = false
has_keys (some kvs) = true

abbrev pub is_given : Option Bytes → Bool
is_given none = false
is_given (some v) = true

-- What `getInt` makes of the text of a value.
abbrev pub int_or : ℤ → Bytes → ℤ
int_or default [] = default
int_or default (c ∷ s) = elim (stoi (c ∷ s)) [ none ↦ default | some i ↦ i ]

abbrev pub is_level : Bytes → Bool
is_level s =
    bytes_eq s (codes "debug")
    || bytes_eq s (codes "info")
    || bytes_eq s (codes "warn")
    || bytes_eq s (codes "error")

module _ {Price : Type 0} where
  unfoldable pub get_string : Config Price → Bytes → Bytes → Bytes → Bytes
  get_string c section key default =
      or_default default (lookup key (or_no_keys (lookup section c.config)))

  unfoldable pub has_key : Config Price → Bytes → Bytes → Bool
  has_key c section key = is_given (lookup key (or_no_keys (lookup section c.config)))

  abbrev pub has_section : Config Price → Bytes → Bool
  has_section c section = has_keys (lookup section c.config)

  abbrev pub get_keys : Config Price → Bytes → List Bytes
  get_keys c section = map (λ kv. kv.0) (or_no_keys (lookup section c.config))

  abbrev pub get_int : Config Price → Bytes → Bytes → ℤ → ℤ
  get_int c section key default = int_or default (get_string c section key [])

  abbrev pub get_bool : Config Price → Bytes → Bytes → Bool → Bool
  get_bool c section key default =
      let value = get_string c section key [] in
      let low = lower value in
      if is_empty value
      then default
      else bytes_eq low (codes "true")
        || bytes_eq low (codes "1")
        || bytes_eq low (codes "yes")
        || bytes_eq low (codes "on")

  abbrev pub add_error : Config Price → ConfigError Price → Config Price
  add_error c e = record c { errors = c.errors ++ e ∷ [] }

  unfoldable pub set_value : Config Price → Bytes → Bytes → Bytes → Config Price
  set_value c section key value =
      let keys = or_no_keys (lookup section c.config) in
      record c { config = insert section (insert key value keys) c.config }

  abbrev pub parse_section :
      Config Price → Bytes → ℕ → Bytes → Option (Bytes × Bytes) → Config Price × Bytes
  parse_section c section n line none = (add_error c (malformed_section n line), section)
  parse_section c section n line (some (name, rest)) =
      (if is_empty (trim name) then add_error c (empty_section n) else c, trim name)

  abbrev pub parse_pair :
      Config Price → Bytes → ℕ → Bytes → Option (Bytes × Bytes) → Config Price × Bytes
  parse_pair c section n line none = (add_error c (invalid_pair n line), section)
  parse_pair c section n line (some (before, behind)) =
      if is_empty (trim before)
      then (add_error c (empty_key n), section)
      else if is_empty section
      then (add_error c (outside_section n line), section)
      else (set_value c section (trim before) (trim behind), section)

  -- One round of the loop: the trimmed line with its number, the configuration, the section.
  unfoldable pub parse_line : Config Price → Bytes → ℕ → Bytes → Config Price × Bytes
  parse_line c section n [] = (c, section)
  parse_line c section n (b ∷ line) =
      if b == b';' || b == b'#'
      then (c, section)
      else if b == b'['
      then parse_section c section n (b ∷ line) (split_at b']' line)
      else parse_pair c section n (b ∷ line) (split_at b'=' (b ∷ line))

  unfoldable pub parse_lines : Config Price → Bytes → ℕ → List Bytes → Config Price
  parse_lines c section n [] = c
  parse_lines c section n (line ∷ lines) =
      let r = parse_line c section (n + 1) (trim line) in parse_lines r.0 r.1 (n + 1) lines

  -- `parseFile`, with its result.
  unfoldable pub parse_file : Config Price → Option (List Bytes) → Config Price × Bool
  parse_file c none = (add_error c cannot_open, false)
  parse_file c (some lines) = (parse_lines c [] 0 lines, true)

  abbrev pub error_if : Bool → Config Price → ConfigError Price → Config Price
  error_if true c e = add_error c e
  error_if false c e = c

  module _ ⦃d : Double Price⦄ where
    abbrev pub double_or : Price → Bytes → Price
    double_or default [] = default
    double_or default (c ∷ s) = elim (d.stod (c ∷ s)) [ none ↦ default | some x ↦ x ]

    abbrev pub get_double : Config Price → Bytes → Bytes → Price → Price
    get_double c section key default = double_or default (get_string c section key [])

    -- `ten_thousand` is the default of `max_order_size`.
    module _ (ten_thousand : Price) where
      unfoldable pub check_port : Config Price → Config Price
      check_port c =
          let port = get_int c (codes "network") (codes "port") (pos 5000) in
          error_if
            (has_key c (codes "network") (codes "port")
              && (not (ltb_ℤ (pos 0) port) || ltb_ℤ (pos 65535) port))
            c (invalid_port port)

      unfoldable pub check_max_orders : Config Price → Config Price
      check_max_orders c =
          let n = get_int c (codes "orderbook") (codes "max_orders") (pos 1000000) in
          error_if (has_key c (codes "orderbook") (codes "max_orders") && not (ltb_ℤ (pos 0) n)) c
            (invalid_max_orders n)

      unfoldable pub check_max_order_size : Config Price → Config Price
      check_max_order_size c =
          let x = get_double c (codes "risk") (codes "max_order_size") ten_thousand in
          error_if (has_key c (codes "risk") (codes "max_order_size") && d.le x d.nought) c
            (invalid_max_order_size x)

      unfoldable pub check_level : Config Price → Config Price
      check_level c =
          let level = lower (get_string c (codes "logging") (codes "level") (codes "info")) in
          error_if (has_key c (codes "logging") (codes "level") && not (is_level level)) c
            (invalid_level level)

      unfoldable pub validate_configuration : Config Price → Config Price
      validate_configuration c =
          let c' = check_level (check_max_order_size (check_max_orders (check_port c))) in
          record c' { is_valid = is_empty c'.errors }

      -- The constructor, and `reload` with its result.
      unfoldable pub load : Option (List Bytes) → Config Price
      load file =
          validate_configuration
            (parse_file (record { config = []; is_valid = false; errors = [] }) file).0

      unfoldable pub reload : Config Price → Option (List Bytes) → Config Price × Bool
      reload c file =
          let r = parse_file (record { config = []; is_valid = false; errors = [] }) file in
          let c' = validate_configuration r.0 in (c', r.1 && c'.is_valid)
