-- ===== src/Health/Single.antt =====
-- A driver of this library behind the registry: what `Hp34401A` offers to the session keywords.
use hp34401a_driver.Base.{String, false, Option, none, some, ◌≡◌, arith}
use hp34401a_driver.Errors.{Result}
use hp34401a_driver.Float.{Float}
use hp34401a_driver.Measurement.{Identity}
use hp34401a_driver.Transport.{Transport, Laws}
use hp34401a_driver.Driver.{Driver}
use hp34401a_driver.Driver.Raw.{query}
use hp34401a_driver.Driver.Status.{is_connected}
use hp34401a_driver.Driver.Connect.{connect, send_local, close_finally, close}
use hp34401a_driver.Health.{Drivers}

-- `getattr(identity, "raw", None) if identity else None`
abbrev raw_of : Option Identity → Option String
raw_of none = none
raw_of (some i) = some i.raw

module _ {fl : Float} {T : Transport fl.F} where
  -- One driver is the world.
  abbrev pub single : Drivers (Unit {0}) (Driver fl T)
  single = record {
    connect_driver = λ _ d. connect d;
    close_driver = λ _ d. close d;
    is_connected = λ _ d. is_connected d;
    query_idn = λ _ d. query "*IDN?" d;
    identity_raw = λ _ d. raw_of d.identity;
  }

  close_finally-closes :
      (L : Laws T) (d : Driver fl T) (r : Result (Unit {0}))
      → is_connected (close_finally d r).1 ≡ false
  close_finally-closes L d r = ground (arith, L.closed d.t)

  -- It is not connected after `close`, however that ends.
  pub single-closes :
      (L : Laws T) (u : Unit {0}) (d : Driver fl T)
      → single.is_connected u (single.close_driver u d).1 ≡ false
  unfolding close
  single-closes L u d = close_finally-closes L (send_local d).1 (send_local d).0
