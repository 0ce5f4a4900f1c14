-- ===== src/Config/Checks.antt =====
-- What a valid configuration promises, and what a value that is set or a failed reload leaves.
use financial_order_book.Prelude.{
  ◌≡◌, ◌≢◌, refl, sym, subst, ◌∙◌, ap, Bool, true, false, not, ◌&&◌, ◌||◌, List, [], ◌∷◌, ◌++◌,
  none, arith, Bool-cases, inl, inr, if◌then◌else◌,
}
use financial_order_book.Prelude.Double.{Double}
use financial_order_book.Prelude.Int.{ℤ, pos, ◌≤ℤ◌, ltb_ℤ}
use financial_order_book.Prelude.Map.{lookup, insert, lookup-insert, bytes_key}
use financial_order_book.Prelude.Text.{Bytes, codes, bytes_eq, bytes_eq_iff, is_empty}
use financial_order_book.Config.{
  Config, ConfigError, get_string, get_int, get_double, has_key, lower, is_level, set_value,
  or_no_keys, error_if, check_port, check_max_orders, check_max_order_size, check_level,
  validate_configuration, parse_file, reload,
}

nil_of_empty : {A : Type 0} (xs : List A) → is_empty xs ≡ true → xs ≡ []
nil_of_empty [] h = refl
nil_of_empty (x ∷ xs) h = cc h

and_false : (a b : Bool) → (a && b) ≡ false → a ≡ true → b ≡ false
and_false a b h k = ground arith

not-false : (a : Bool) → not a ≡ false → a ≡ true
not-false a h = ground arith

positive : (a : Bool) (n : ℤ) → (a && not (ltb_ℤ (pos 0) n)) ≡ false → a ≡ true → pos 1 ≤ℤ n
positive a n h k = ground arith

port_in_range :
    (a : Bool) (n : ℤ)
    → (a && (not (ltb_ℤ (pos 0) n) || ltb_ℤ (pos 65535) n)) ≡ false
    → a ≡ true
    → (pos 1 ≤ℤ n) × (n ≤ℤ pos 65535)
port_in_range a n h k = ground arith

module _ {Price : Type 0} where
  -- A value that is set is the one that is read under its section and key, with any default;
  -- every other is as before.
  pub get_string-set_value :
      (c : Config Price) (section key value s k default : Bytes)
      → get_string (set_value c section key value) s k default
        ≡ (if bytes_eq section s && bytes_eq key k then value else get_string c s k default)
  unfolding get_string set_value
  get_string-set_value c section key value s k default =
      let keys = or_no_keys (lookup section c.config) in
      elim (Bool-cases (bytes_eq section s)) [
        | inl e ↦ elim (Bool-cases (bytes_eq key k)) [
          | inl f ↦
              rw
                (
                  lookup-insert section s (insert key value keys) c.config,
                  e,
                  lookup-insert key k value keys,
                  f,
                )
                refl
          | inr f ↦
              rw
                (
                  lookup-insert section s (insert key value keys) c.config,
                  e,
                  lookup-insert key k value keys,
                  f,
                  (bytes_eq_iff section s).0 e,
                )
                refl
        ]
        | inr e ↦ rw (lookup-insert section s (insert key value keys) c.config, e) refl
      ]

  error_if_clear :
      (b : Bool) (c : Config Price) (e : ConfigError Price)
      → (error_if b c e).errors ≡ []
      → (b ≡ false) × (error_if b c e ≡ c)
  error_if_clear false c e h = (refl, refl)
  error_if_clear true c e h = absurd (append-ne c.errors e h)
    where
      append-ne : (xs : List (ConfigError Price)) (x : ConfigError Price) → xs ++ x ∷ [] ≢ []
      append-ne [] x h = cc h
      append-ne (y ∷ xs) x h = cc h

  module _ ⦃d : Double Price⦄ (ten_thousand : Price) where
    -- What a configuration without errors has been found to hold of the values that it gives.
    pub record IsConfigured (c : Config Price) : Type 0 where
      pub no_errors : c.errors ≡ []
      pub port_is :
          has_key c (codes "network") (codes "port") ≡ true
          → (pos 1 ≤ℤ get_int c (codes "network") (codes "port") (pos 5000))
            × (get_int c (codes "network") (codes "port") (pos 5000) ≤ℤ pos 65535)
      pub max_orders_is :
          has_key c (codes "orderbook") (codes "max_orders") ≡ true
          → pos 1 ≤ℤ get_int c (codes "orderbook") (codes "max_orders") (pos 1000000)
      pub max_order_size_is :
          has_key c (codes "risk") (codes "max_order_size") ≡ true
          → d.le (get_double c (codes "risk") (codes "max_order_size") ten_thousand) d.nought
            ≡ false
      pub level_is :
          has_key c (codes "logging") (codes "level") ≡ true
          → is_level (lower (get_string c (codes "logging") (codes "level") (codes "info"))) ≡ true

    abbrev MaxOrdersIs : Config Price → Type 0
    MaxOrdersIs c =
        has_key c (codes "orderbook") (codes "max_orders") ≡ true
        → pos 1 ≤ℤ get_int c (codes "orderbook") (codes "max_orders") (pos 1000000)

    abbrev MaxOrderSizeIs : Config Price → Type 0
    MaxOrderSizeIs c =
        has_key c (codes "risk") (codes "max_order_size") ≡ true
        → d.le (get_double c (codes "risk") (codes "max_order_size") ten_thousand) d.nought ≡ false

    abbrev LevelIs : Config Price → Type 0
    LevelIs c =
        has_key c (codes "logging") (codes "level") ≡ true
        → is_level (lower (get_string c (codes "logging") (codes "level") (codes "info"))) ≡ true

    check_port_clear :
        (c : Config Price)
        → (check_port ten_thousand c).errors ≡ []
        → (check_port ten_thousand c ≡ c)
          × (has_key c (codes "network") (codes "port") ≡ true
              → (pos 1 ≤ℤ get_int c (codes "network") (codes "port") (pos 5000))
                × (get_int c (codes "network") (codes "port") (pos 5000) ≤ℤ pos 65535))
    unfolding check_port
    check_port_clear c h =
        let port = get_int c (codes "network") (codes "port") (pos 5000) in
        let r = error_if_clear _ c _ h in
        (r.1, λ k. port_in_range (has_key c (codes "network") (codes "port")) port r.0 k)

    check_max_orders_clear :
        (c : Config Price)
        → (check_max_orders ten_thousand c).errors ≡ []
        → (check_max_orders ten_thousand c ≡ c)
          × (has_key c (codes "orderbook") (codes "max_orders") ≡ true
              → pos 1 ≤ℤ get_int c (codes "orderbook") (codes "max_orders") (pos 1000000))
    unfolding check_max_orders
    check_max_orders_clear c h =
        let n = get_int c (codes "orderbook") (codes "max_orders") (pos 1000000) in
        let r = error_if_clear _ c _ h in
        (r.1, λ k. positive (has_key c (codes "orderbook") (codes "max_orders")) n r.0 k)

    check_max_order_size_clear :
        (c : Config Price)
        → (check_max_order_size ten_thousand c).errors ≡ []
        → (check_max_order_size ten_thousand c ≡ c)
          × (has_key c (codes "risk") (codes "max_order_size") ≡ true
              → d.le (get_double c (codes "risk") (codes "max_order_size") ten_thousand) d.nought
                ≡ false)
    unfolding check_max_order_size
    check_max_order_size_clear c h =
        let r = error_if_clear _ c _ h in
        (r.1, λ k. and_false (has_key c (codes "risk") (codes "max_order_size")) _ r.0 k)

    check_level_clear :
        (c : Config Price)
        → (check_level ten_thousand c).errors ≡ []
        → (check_level ten_thousand c ≡ c)
          × (has_key c (codes "logging") (codes "level") ≡ true
              → is_level (lower (get_string c (codes "logging") (codes "level") (codes "info")))
                ≡ true)
    unfolding check_level
    check_level_clear c h =
        let level = lower (get_string c (codes "logging") (codes "level") (codes "info")) in
        let r = error_if_clear _ c _ h in
        (
          r.1,
          λ k. not-false (is_level level) (
              and_false (has_key c (codes "logging") (codes "level")) (not (is_level level)) r.0 k),
        )

    -- `validateConfiguration` calls a configuration valid only if reading it gave no error, a port
    -- that it gives is from 1 to 65535, a number of orders that it gives is positive, a size of
    -- orders is not zero or below, and a logging level is one of the four, in any case of letters.
    pub validate_configuration-IsConfigured :
        (c : Config Price)
        → (validate_configuration ten_thousand c).is_valid ≡ true
        → IsConfigured c
    unfolding validate_configuration
    validate_configuration-IsConfigured c h =
        let c1 = check_port ten_thousand c in
        let c2 = check_max_orders ten_thousand c1 in
        let c3 = check_max_order_size ten_thousand c2 in
        let level = check_level_clear c3 (nil_of_empty (check_level ten_thousand c3).errors h) in
        let clear3 =
          ap (λ (x : Config Price). x.errors) (sym level.0)
          ∙ nil_of_empty (check_level ten_thousand c3).errors h in
        let size = check_max_order_size_clear c2 clear3 in
        let clear2 = ap (λ (x : Config Price). x.errors) (sym size.0) ∙ clear3 in
        let orders = check_max_orders_clear c1 clear2 in
        let clear1 = ap (λ (x : Config Price). x.errors) (sym orders.0) ∙ clear2 in
        let port = check_port_clear c clear1 in
        let at1 = port.0 in
        let at2 = orders.0 ∙ at1 in
        let at3 = size.0 ∙ at2 in
        record {
          no_errors = ap (λ (x : Config Price). x.errors) (sym port.0) ∙ clear1;
          port_is = port.1;
          max_orders_is = subst MaxOrdersIs at1 orders.1;
          max_order_size_is = subst MaxOrderSizeIs at2 size.1;
          level_is = subst LevelIs at3 level.1;
        }

    -- A reload of a file that cannot be opened fails, and has then lost every value: each is
    -- read as its default.
    pub reload_unreadable :
        (c : Config Price) (section key default : Bytes)
        → ((reload ten_thousand c none).1 ≡ false)
          × (get_string (reload ten_thousand c none).0 section key default ≡ default)
    unfolding reload parse_file validate_configuration check_port check_max_orders
        check_max_order_size check_level get_string has_key lookup
    reload_unreadable c section key default = (refl, refl)
