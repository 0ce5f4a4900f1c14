-- ===== src/Config/Tests.antt =====
-- A configuration that is read, and the theorems on it.
use financial_order_book.Prelude.{ℕ, ◌≡◌, refl, false, List, [], ◌∷◌, some}
use financial_order_book.Prelude.Double.{cents_double}
use financial_order_book.Prelude.Decimal.{stoi, signed, scan, skip_space}
use financial_order_book.Prelude.Int.{pos}
use financial_order_book.Prelude.Map.{lookup, insert}
use financial_order_book.Prelude.Text.{Bytes, codes, bytes_eq}
use financial_order_book.Config.{
  Config, get_string, get_int, has_key, set_value, lower, trim_left, trim_right, split_at,
  parse_line, parse_lines, parse_file, check_port, check_max_orders, check_max_order_size,
  check_level, validate_configuration,
}
use financial_order_book.Config.Checks.{IsConfigured, validate_configuration-IsConfigured}

abbrev pub some_lines : List Bytes
some_lines =
    codes "; a comment"
    ∷ codes "[network]"
    ∷ codes " port = 5001 "
    ∷ codes "[logging]"
    ∷ codes "level=WARN"
    ∷ []

abbrev pub parsed : Config ℕ
parsed = (parse_file (record { config = []; is_valid = false; errors = [] }) (some some_lines)).0

port_is_read : get_int parsed (codes "network") (codes "port") (pos 5000) ≡ pos 5001
unfolding parse_file parse_lines parse_line trim_left trim_right split_at set_value get_string
    lookup insert bytes_eq stoi signed scan skip_space
port_is_read = refl

validate_configuration-IsConfigured_example : IsConfigured 1000000 parsed
unfolding validate_configuration check_port check_max_orders check_max_order_size check_level
    has_key lower parse_file parse_lines parse_line trim_left trim_right split_at set_value
    get_string lookup insert bytes_eq stoi signed scan skip_space
validate_configuration-IsConfigured_example =
    validate_configuration-IsConfigured 1000000 parsed refl
