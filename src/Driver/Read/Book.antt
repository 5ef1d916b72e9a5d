-- ===== src/Driver/Read/Book.antt =====
-- What the commands of a READ? measurement leave alone.
use hp34401a_driver.Base.{String}
use hp34401a_driver.Float.{Float}
use hp34401a_driver.Transport.{Transport}
use hp34401a_driver.Driver.{M, ◌>>◌}
use hp34401a_driver.Driver.Frame.{KeepsBook, KeepsBook-then}
use hp34401a_driver.Driver.Raw.{write, query}
use hp34401a_driver.Driver.Raw.Memory.{write-book, query-book}
use hp34401a_driver.Driver.Read.{do_read}

module _ {fl : Float} {T : Transport fl.F} where
  pub do_read-book : KeepsBook (do_read {fl = fl} {T = T})
  unfolding do_read
  do_read-book =
      let one : M fl T String = query "READ?" in
      let two : M fl T String = write "SAMPle:COUNt 1" >> one in
      let three : M fl T String = write "TRIGger:COUNt 1" >> two in
      KeepsBook-then (write "TRIGger:SOURce IMMediate") three
        (write-book "TRIGger:SOURce IMMediate")
        (KeepsBook-then (write "TRIGger:COUNt 1") two (write-book "TRIGger:COUNt 1") (
          KeepsBook-then (write "SAMPle:COUNt 1") one (write-book "SAMPle:COUNt 1")
            (query-book "READ?")))
