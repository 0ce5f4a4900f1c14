-- ===== src/Session/Faults.antt =====
-- How a session ends.
use financial_order_book.Prelude.{◌≡◌, ◌≢◌, refl, false, arith}
use financial_order_book.Session.{SessionState, Session, update_state, close, handle_error}

module _ {Price Time : Type 0} where
  -- `close` leaves every session disconnected, and closes the socket and stops both timers of one
  -- that was not yet disconnected; closing it again does nothing.
  pub close_lem :
      (s : Session Price Time)
      → ((close s).state ≡ SessionState.disconnected)
        × (close (close s) ≡ close s)
        × (s.state ≢ SessionState.disconnected
            → ((close s).is_open ≡ false)
              × ((close s).heartbeat_timer ≡ false)
              × ((close s).test_request_timer ≡ false))
  unfolding close update_state
  close_lem s = (ground arith, ground arith, λ h. (ground arith, ground arith, ground arith))

  -- After an error of the socket the session counts as disconnected, and for that reason nothing
  -- is closed: the socket and the timers are as they were.
  pub handle_error_keeps_open :
      (s : Session Price Time)
      → ((handle_error s false).state ≡ SessionState.disconnected)
        × ((handle_error s false).is_open ≡ s.is_open)
        × ((handle_error s false).heartbeat_timer ≡ s.heartbeat_timer)
        × ((handle_error s false).test_request_timer ≡ s.test_request_timer)
  unfolding handle_error close update_state
  handle_error_keeps_open s = (refl, refl, refl, refl)
